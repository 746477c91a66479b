-- ===== src/Queue/Delivery.antt =====
-- Which activities are asked about a message.
use megastructure.Common.{ℕ, ◌≡◌, refl, Bool, true, false, List, [], ◌∷◌, ◌++◌, arith}
use megastructure.Queue.Activities.{deliver}

module _ {W : Type 0} where
  -- No activity of the list consumes the message, when each is asked after those before it.
  abbrev pub NoneConsumes : (ℕ → W → W × Bool) → List ℕ → W → Type 0
  NoneConsumes handle [] w = Unit {0}
  NoneConsumes handle (a ∷ rest) w =
      ((handle a w).1 ≡ false) × NoneConsumes handle rest (handle a w).0

  abbrev pub asked : (ℕ → W → W × Bool) → List ℕ → W → W
  asked handle [] w = w
  asked handle (a ∷ rest) w = asked handle rest (handle a w).0

  -- If `break` leaves the loop, then exactly the activities up to the first one that consumes a
  -- message are asked about it, each once and in the order in which they were started, and those
  -- after it are not.
  pub deliver_until_consumed :
      (handle : ℕ → W → W × Bool) (before after : List ℕ) (a : ℕ) (w : W)
      → NoneConsumes handle before w
      → (handle a (asked handle before w)).1 ≡ true
      → deliver true handle (before ++ (a ∷ after)) w ≡ (handle a (asked handle before w)).0
  unfolding deliver
  deliver_until_consumed handle [] after a w n c = ground (arith, c)
  deliver_until_consumed handle (x ∷ before) after a w n c =
      ground (arith, deliver_until_consumed handle before after a (handle x w).0 n.1 c)

  -- If `break` does not leave the loop, then all activities are asked, whoever consumes the message.
  pub deliver_to_all :
      (handle : ℕ → W → W × Bool) (active : List ℕ) (w : W)
      → deliver false handle active w ≡ asked handle active w
  unfolding deliver
  deliver_to_all handle [] w = refl
  deliver_to_all handle (a ∷ rest) w = ground (arith, deliver_to_all handle rest (handle a w).0)
