-- ===== src/Lock/Manager.antt =====
-- EGRequestManagerActivity of src/component/activities.cpp: the handlers of the read, write, lock
-- and unlock requests of the hosts, and of the start of the simulation lock.
use megastructure.Common.{ℕ, true, false, [], ◌∷◌, Option, none, some, Result, ok, throws}
use megastructure.Protocol.{Bytes, Request, Content, EgMsg}
use megastructure.Lock.State.{
  State, HostCycleState, SimulationLock, state_is_read, state_is_write, is_read,
  get_host_cycle_state,
}
use megastructure.Lock.Component.{
  Plugin, Component, put_current_lock, get_or_create_current_lock, send_eg,
}

module _ (g : Plugin) where
  open g use {Program, encode, decode, current_cycle}

  -- Component::getCurrentCycle
  unfoldable pub component_cycle : Component Program → ℕ
  component_cycle c = elim c.program [ none ↦ 0 | some p ↦ current_cycle p ]

  unfoldable pub lock_response : HostCycleState → Component Program → EgMsg
  lock_response hcs c = record {
    type = 0;
    instance_id = 0;
    cycle = component_cycle c;
    content =
        Content.response (record { coordinator = hcs.coordinator; host = hcs.host; value = [] });
  }

  unfoldable pub issue_lock_response : HostCycleState → Component Program → Component Program
  issue_lock_response hcs c = send_eg (lock_response hcs c) c

  abbrev pub with_state : HostCycleState → State → HostCycleState
  with_state hcs s = record hcs {
    cycle_state = record { cycle = hcs.cycle_state.cycle; state = s };
  }

  -- The loop that starts all readers.
  unfoldable pub start_readers :
      SimulationLock → Component Program → SimulationLock × Component Program
  start_readers [] c = ([], c)
  start_readers (hcs ∷ rest) c = elim (state_is_read hcs.cycle_state.state) [
    | true ↦
        let hcs' = with_state hcs State.reading in
        let (rest', c') = start_readers rest (issue_lock_response hcs' c) in (hcs' ∷ rest', c')
    | false ↦ let (rest', c') = start_readers rest c in (hcs ∷ rest', c')
  ]

  -- The loop that starts the first writer; `none` if `bFoundFirst` stays false.
  unfoldable pub start_first_writer :
      SimulationLock → Component Program → Option (SimulationLock × Component Program)
  start_first_writer [] c = none
  start_first_writer (hcs ∷ rest) c = elim (state_is_write hcs.cycle_state.state) [
    | true ↦
        let hcs' = with_state hcs State.writing in some (hcs' ∷ rest, issue_lock_response hcs' c)
    | false ↦ elim (start_first_writer rest c) [
      | none ↦ none
      | some (rest', c') ↦ some (hcs ∷ rest', c')
    ]
  ]

  -- All waiting readers, else the first waiting writer: the two loops, which the source writes
  -- out in OnUnlockRequest and in simulationLockStarted.
  unfoldable pub start_waiting : SimulationLock → Component Program → Result (Component Program)
  start_waiting l c = elim (is_read l) [
    | true ↦ let (l', c') = start_readers l c in ok (put_current_lock l' c')
    | false ↦ elim (start_first_writer l c) [
      | none ↦ throws
      | some (l', c') ↦ ok (put_current_lock l' c')
    ]
  ]

  unfoldable pub simulation_lock_started : Component Program → Result (Component Program)
  simulation_lock_started c = elim c.current_lock [ none ↦ throws | some l ↦ start_waiting l c ]

  unfoldable pub reply : EgMsg → Content → EgMsg
  reply m content = record m { content = content }

  unfoldable pub answer_read : EgMsg → Request → Component Program → Component Program
  unfolding reply
  answer_read m r c = elim c.program [
    | some p ↦
        send_eg
          (reply m (
            Content.response (record {
              coordinator = r.coordinator;
              host = r.host;
              value = encode p m.type m.instance_id;
            })))
          c
    | none ↦
        send_eg (reply m (Content.error (record { coordinator = r.coordinator; host = r.host }))) c
  ]

  unfoldable pub read_in_state :
      State → EgMsg → Request → Component Program → Result (Component Program)
  unfolding answer_read
  read_in_state State.reading m r c = ok (answer_read m r c)
  read_in_state State.writing m r c = ok (answer_read m r c)
  read_in_state _ m r c = throws

  -- `l` is the current lock.
  unfoldable pub read_in :
      EgMsg → Request → SimulationLock → Component Program → Result (Component Program)
  unfolding read_in_state
  read_in m r l c = elim (get_host_cycle_state r.host l) [
    | some s ↦ read_in_state s.state m r c
    | none ↦ throws
  ]

  unfoldable pub on_read_request : EgMsg → Request → Component Program → Result (Component Program)
  unfolding read_in
  on_read_request m r c = let (l, c') = get_or_create_current_lock c in read_in m r l c'

  unfoldable pub apply_write : Bytes → Component Program → Component Program
  apply_write value c = elim c.program [
    | some p ↦ record c { program = some (decode p value) }
    | none ↦ c
  ]

  unfoldable pub write_in_state : State → Bytes → Component Program → Result (Component Program)
  unfolding apply_write
  write_in_state State.writing value c = ok (apply_write value c)
  write_in_state _ value c = throws

  unfoldable pub write_in :
      Bytes → Request → SimulationLock → Component Program → Result (Component Program)
  unfolding write_in_state
  write_in value r l c = elim (get_host_cycle_state r.host l) [
    | some s ↦ write_in_state s.state value c
    | none ↦ throws
  ]

  unfoldable pub on_write_request : Bytes → Request → Component Program → Result (Component Program)
  unfolding write_in
  on_write_request value r c = let (l, c') = get_or_create_current_lock c in write_in value r l c'
