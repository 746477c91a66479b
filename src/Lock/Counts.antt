-- ===== src/Lock/Counts.antt =====
-- How many hosts of a simulation lock are in a state, and what the operations do to these numbers.
use megastructure.Common.{
  ℕ, ◌+◌, ◌<◌, ◌≤◌, ◌≡◌, refl, Bool, true, false, [], ◌∷◌, none, some, arith, if◌then◌else◌,
  Option-cases, inl, inr,
}
use megastructure.Lock.State.{
  State, CycleState, SimulationLock, state_is_read, state_is_reading, state_is_write, is_read,
  is_reading, all_finished, get_host_cycle_state, set_host_cycle_state,
}
use megastructure.Lock.Component.{Plugin, Component}
use megastructure.Lock.Manager.{issue_lock_response, with_state, start_readers, start_first_writer}

abbrev pub bit : Bool → ℕ
bit true = 1
bit false = 0

abbrev pub state_is_writing : State → Bool
state_is_writing State.writing = true
state_is_writing _ = false

abbrev pub count : (State → Bool) → SimulationLock → ℕ
count p [] = 0
count p (hcs ∷ rest) = bit (p hcs.cycle_state.state) + count p rest

pub is_read-count : (l : SimulationLock) → is_read l ≡ false → count state_is_read l ≡ 0
unfolding is_read
is_read-count [] h = refl
is_read-count (hcs ∷ rest) h = ground (arith, is_read-count rest)

pub is_read_pos : (l : SimulationLock) → is_read l ≡ true → 0 < count state_is_read l
unfolding is_read
is_read_pos [] h = ground arith
is_read_pos (hcs ∷ rest) h = ground (arith, is_read_pos rest)

pub is_reading-count : (l : SimulationLock) → is_reading l ≡ false → count state_is_reading l ≡ 0
unfolding is_reading
is_reading-count [] h = refl
is_reading-count (hcs ∷ rest) h = ground (arith, is_reading-count rest)

pub is_reading_pos : (l : SimulationLock) → is_reading l ≡ true → 0 < count state_is_reading l
unfolding is_reading
is_reading_pos [] h = ground arith
is_reading_pos (hcs ∷ rest) h = ground (arith, is_reading_pos rest)

abbrev pub unfinished : SimulationLock → ℕ
unfinished l =
    count state_is_read l
    + count state_is_reading l
    + count state_is_write l
    + count state_is_writing l

pub all_finished_count : (l : SimulationLock) → all_finished l ≡ true → unfinished l ≡ 0
unfolding all_finished
all_finished_count [] h = refl
all_finished_count (hcs ∷ rest) h = ground (arith, all_finished_count rest)

pub all_finished_pos : (l : SimulationLock) → all_finished l ≡ false → 0 < unfinished l
unfolding all_finished
all_finished_pos [] h = ground arith
all_finished_pos (hcs ∷ rest) h = ground (arith, all_finished_pos rest)

pub count-set_found :
    (p : State → Bool) (coordinator host cycle : ℕ) (new : State) (l : SimulationLock)
    (s : CycleState)
    → get_host_cycle_state host l ≡ some s
    → count p (set_host_cycle_state coordinator host cycle new l).0 + bit (p s.state)
      ≡ count p l + bit (p new)
unfolding get_host_cycle_state set_host_cycle_state
count-set_found p k h c new [] s e = ground arith
count-set_found p k h c new (hcs ∷ rest) s e = ground (arith, count-set_found p k h c new rest s)

pub count-set_new :
    (p : State → Bool) (coordinator host cycle : ℕ) (new : State) (l : SimulationLock)
    → get_host_cycle_state host l ≡ none
    → count p (set_host_cycle_state coordinator host cycle new l).0 ≡ count p l + bit (p new)
unfolding get_host_cycle_state set_host_cycle_state
count-set_new p k h c new [] e = ground arith
count-set_new p k h c new (hcs ∷ rest) e = ground (arith, count-set_new p k h c new rest)

-- The entry of a host is counted.
pub count-get_pos :
    (p : State → Bool) (host : ℕ) (l : SimulationLock) (s : CycleState)
    → get_host_cycle_state host l ≡ some s
    → bit (p s.state) ≤ count p l
unfolding get_host_cycle_state
count-get_pos p h [] s e = ground arith
count-get_pos p h (hcs ∷ rest) s e = ground (arith, count-get_pos p h rest s)

module _ (g : Plugin) where
  open g use {Program}

  pub count-start_readers :
      (p : State → Bool) (l : SimulationLock) (c : Component Program)
      → count p (start_readers g l c).0 + (if p State.read then count state_is_read l else 0)
        ≡ count p l + (if p State.reading then count state_is_read l else 0)
  unfolding start_readers
  count-start_readers p [] c = ground arith
  count-start_readers p (hcs ∷ rest) c = ground (
    arith,
    count-start_readers p rest c,
    count-start_readers p rest (issue_lock_response g (with_state g hcs State.reading) c),
  )

  pub start_first_writer-none :
      (l : SimulationLock) (c : Component Program)
      → start_first_writer g l c ≡ none
      → count state_is_write l ≡ 0
  unfolding start_first_writer
  start_first_writer-none [] c h = refl
  start_first_writer-none (hcs ∷ rest) c h = ground (arith, start_first_writer-none rest c)

  pub count-start_first_writer :
      (p : State → Bool) (l : SimulationLock) (c : Component Program) (l' : SimulationLock)
      (c' : Component Program)
      → start_first_writer g l c ≡ some (l', c')
      → count p l' + bit (p State.write) ≡ count p l + bit (p State.writing)
  unfolding start_first_writer
  count-start_first_writer p [] c l' c' h = ground arith
  count-start_first_writer p (hcs ∷ rest) c l' c' h =
      elim (Option-cases (start_first_writer g rest c)) [
        | inl e ↦ ground arith
        | inr ((r, d), e) ↦ ground (arith, count-start_first_writer p rest c r d e)
      ]

pub get-set :
    (coordinator host cycle : ℕ) (new : State) (l : SimulationLock)
    → get_host_cycle_state host (set_host_cycle_state coordinator host cycle new l).0
      ≡ some (record { cycle = cycle; state = new })
unfolding get_host_cycle_state set_host_cycle_state
get-set k h c new [] = ground arith
get-set k h c new (hcs ∷ rest) = ground (arith, get-set k h c new rest)
