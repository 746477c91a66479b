-- ===== src/Lock/State.antt =====
-- class SimulationLock of api/megastructure/component.hpp: the hosts that hold or wait for the
-- lock, each with its cycle and state, in the order in which they came.
use megastructure.Common.{
  ℕ, Bool, true, false, ◌||◌, ◌&&◌, List, [], ◌∷◌, Option, none, some, ◌==◌, if◌then◌else◌,
}

pub data State : Type 0 where
  read reading write writing finished total_states : State

pub record CycleState : Type 0 where
  pub cycle : ℕ
  pub state : State

pub record HostCycleState : Type 0 where
  pub coordinator : ℕ
  pub host : ℕ
  pub cycle_state : CycleState

abbrev pub SimulationLock : Type 0
SimulationLock = List HostCycleState

-- The `case` labels that return in the four loops over the states.
abbrev pub state_is_read : State → Bool
state_is_read State.read = true
state_is_read _ = false

abbrev pub state_is_reading : State → Bool
state_is_reading State.reading = true
state_is_reading _ = false

abbrev pub state_is_write : State → Bool
state_is_write State.write = true
state_is_write _ = false

abbrev pub state_is_done : State → Bool
state_is_done State.finished = true
state_is_done State.total_states = true
state_is_done _ = false

unfoldable pub is_read : SimulationLock → Bool
is_read [] = false
is_read (hcs ∷ rest) = state_is_read hcs.cycle_state.state || is_read rest

unfoldable pub is_write : SimulationLock → Bool
is_write [] = false
is_write (hcs ∷ rest) = state_is_write hcs.cycle_state.state || is_write rest

unfoldable pub is_reading : SimulationLock → Bool
is_reading [] = false
is_reading (hcs ∷ rest) = state_is_reading hcs.cycle_state.state || is_reading rest

unfoldable pub all_finished : SimulationLock → Bool
all_finished [] = true
all_finished (hcs ∷ rest) = state_is_done hcs.cycle_state.state && all_finished rest

unfoldable pub get_host_cycle_state : ℕ → SimulationLock → Option CycleState
get_host_cycle_state host [] = none
get_host_cycle_state host (hcs ∷ rest) =
    if hcs.host == host then some hcs.cycle_state else get_host_cycle_state host rest

-- Returns the lock and the entry that was set. The coordinator of an entry that is already there
-- is kept.
unfoldable pub set_host_cycle_state :
    ℕ → ℕ → ℕ → State → SimulationLock → SimulationLock × HostCycleState
set_host_cycle_state coordinator host cycle state [] = (entry ∷ [], entry)
  where
    entry : HostCycleState
    entry = record {
      coordinator = coordinator;
      host = host;
      cycle_state = record { cycle = cycle; state = state };
    }
set_host_cycle_state coordinator host cycle state (hcs ∷ rest) =
    let found = record hcs { cycle_state = record { cycle = cycle; state = state } } in
    let (rest', entry) = set_host_cycle_state coordinator host cycle state rest in
    if hcs.host == host then (found ∷ rest, found) else (hcs ∷ rest', entry)
