-- ===== src/Lock/Overlaps.antt =====
-- A read lock request after a write lock request under the same host number and cycle.
use megastructure.Common.{ℕ, ◌≡◌, none, some, Option}
use megastructure.Lock.State.{State, CycleState, SimulationLock, get_host_cycle_state}
use megastructure.Lock.Component.{Plugin, Component}

module _ (g : Plugin) where
  open g use {Program}

  -- An entry with this cycle.
  abbrev AskedIn : ℕ → ℕ → SimulationLock → Type 0
  AskedIn host cycle l =
      (s : CycleState) × (get_host_cycle_state host l ≡ some s) × (s.cycle ≡ cycle)

  -- What is kept of an entry if a writer is started.
  abbrev Keeps : ℕ → CycleState → Option (SimulationLock × Component Program) → Type 0
  Keeps host s none = Unit {0}
  Keeps host s (some (l, d)) = AskedIn host s.cycle l
