-- ===== src/Lock/Outcomes.antt =====
-- What is said of the component after a handler of a lock request.
use megastructure.Common.{◌≡◌, ◌≢◌, Option, none, some, Result, ok, throws}
use megastructure.Lock.State.{SimulationLock}
use megastructure.Lock.Component.{Plugin, Component}
use megastructure.Lock.Phases.{Waiting, Held}

abbrev pub AllWaiting : Option SimulationLock → Type 0
AllWaiting none = Unit {0}
AllWaiting (some l) = Waiting l

abbrev pub IsHeld : Option SimulationLock → Type 0
IsHeld none = ⊥
IsHeld (some l) = Held l

-- What holds of the component after an operation that was not refused.
abbrev pub Ensures : {A : Type 0} → (A → Type 0) → Result A → Type 0
Ensures P (ok a) = P a
Ensures P throws = Unit {0}

pub Ensures-map :
    {A : Type 0} {P Q : A → Type 0} (r : Result A)
    → ((a : A) → P a → Q a)
    → Ensures P r
    → Ensures Q r
Ensures-map (ok a) f h = f a h
Ensures-map throws f h = tt

module _ (g : Plugin) where
  open g use {Program}

  -- Only the future lock and the messages sent may differ.
  abbrev pub FutureOnly : Component Program → Component Program → Type 0
  FutureOnly c d =
      (d.current_lock ≡ c.current_lock)
      × (d.current_lock_released ≡ c.current_lock_released)
      × (d.program ≡ c.program)
      × AllWaiting d.future_lock

  -- The current lock is `l`, and the rest of the component may differ in the messages sent only.
  abbrev pub CurrentOnly :
      (SimulationLock → Type 0) → Component Program → Component Program → Type 0
  CurrentOnly P c d =
      (l : SimulationLock) × (d.current_lock ≡ some l)
      × P l
      × (d.future_lock ≡ c.future_lock)
      × (d.current_lock_released ≡ c.current_lock_released)
      × (d.program ≡ c.program)

  -- The component between two simulation locks, or with a lock that is not started yet.
  abbrev pub IsIdle : Component Program → Type 0
  IsIdle c = AllWaiting c.current_lock × AllWaiting c.future_lock

  -- The component while hosts hold the current lock.
  abbrev pub IsBusy : Component Program → Type 0
  IsBusy c = IsHeld c.current_lock × AllWaiting c.future_lock

  -- The operation does not release the current lock, does not touch the program, and leaves a
  -- current lock behind.
  abbrev pub Retains : Component Program → Component Program → Type 0
  Retains c d =
      (d.current_lock_released ≡ c.current_lock_released)
      × (d.program ≡ c.program)
      × (d.current_lock ≢ none)
