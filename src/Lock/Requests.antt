-- ===== src/Lock/Requests.antt =====
-- EGRequestManagerActivity of src/component/activities.cpp: lock and unlock requests, and the
-- dispatch of a message to the handlers.
use megastructure.Common.{ℕ, Bool, true, false, none, some, ◌==◌, if◌then◌else◌, Result, ok, throws}
use megastructure.Protocol.{Operation, Request, Content, EgMsg, Message}
use megastructure.Lock.State.{
  State, CycleState, SimulationLock, is_reading, all_finished, get_host_cycle_state,
  set_host_cycle_state,
}
use megastructure.Lock.Component.{
  Plugin, Component, put_current_lock, put_future_lock, get_or_create_current_lock,
  get_or_create_future_lock, release_current_lock,
}
use megastructure.Lock.Manager.{
  issue_lock_response, start_waiting, on_read_request, on_write_request,
}

module _ (g : Plugin) where
  open g use {Program}

  -- A lock for a later cycle than the one that the host has in the current lock.
  unfoldable pub lock_future_read : ℕ → Request → Component Program → Result (Component Program)
  lock_future_read cycle r c =
      let (f, c') = get_or_create_future_lock c in
      elim (get_host_cycle_state r.host f) [
        | some _ ↦ throws
        | none ↦
            ok (put_future_lock (set_host_cycle_state r.coordinator r.host cycle State.read f).0 c')
      ]

  unfoldable pub lock_new_read :
      ℕ → Request → SimulationLock → Component Program → Component Program
  lock_new_read cycle r l c = elim (is_reading l) [
    | true ↦
        let (l', hcs) = set_host_cycle_state r.coordinator r.host cycle State.reading l in
        issue_lock_response g hcs (put_current_lock l' c)
    | false ↦ put_current_lock (set_host_cycle_state r.coordinator r.host cycle State.read l).0 c
  ]

  -- `l` is the current lock.
  unfoldable pub read_lock_in :
      ℕ → Request → SimulationLock → Component Program → Result (Component Program)
  unfolding lock_future_read lock_new_read
  read_lock_in cycle r l c = elim (get_host_cycle_state r.host l) [
    | some s ↦ if s.cycle == cycle then throws else lock_future_read cycle r c
    | none ↦ ok (lock_new_read cycle r l c)
  ]

  unfoldable pub on_read_lock_request : ℕ → Request → Component Program → Result (Component Program)
  unfolding read_lock_in
  on_read_lock_request cycle r c =
      let (l, c') = get_or_create_current_lock c in read_lock_in cycle r l c'

  -- A host that waits to read, or that reads, becomes a writer.
  unfoldable pub upgrade :
      State → ℕ → Request → SimulationLock → Component Program → Result (Component Program)
  upgrade State.read cycle r l c =
      ok (put_current_lock (set_host_cycle_state r.coordinator r.host cycle State.write l).0 c)
  upgrade State.reading cycle r l c =
      let l' = (set_host_cycle_state r.coordinator r.host cycle State.write l).0 in
      elim (is_reading l') [
        | true ↦ ok (put_current_lock l' c)
        | false ↦
            let (l'', hcs) = set_host_cycle_state r.coordinator r.host cycle State.writing l' in
            ok (issue_lock_response g hcs (put_current_lock l'' c))
      ]
  upgrade _ cycle r l c = throws

  unfoldable pub upgrade_future :
      CycleState → ℕ → Request → SimulationLock → Component Program → Result (Component Program)
  upgrade_future s cycle r f c = elim s.state [
    | State.read ↦
        if s.cycle == cycle
        then ok
            (put_future_lock (set_host_cycle_state r.coordinator r.host cycle State.write f).0 c)
        else throws
    | _ ↦ throws
  ]

  unfoldable pub lock_future_write : ℕ → Request → Component Program → Result (Component Program)
  unfolding upgrade_future
  lock_future_write cycle r c =
      let (f, c') = get_or_create_future_lock c in
      elim (get_host_cycle_state r.host f) [
        | some s ↦ upgrade_future s cycle r f c'
        | none ↦
            ok
              (put_future_lock (set_host_cycle_state r.coordinator r.host cycle State.write f).0 c')
      ]

  unfoldable pub write_lock_in :
      ℕ → Request → SimulationLock → Component Program → Result (Component Program)
  unfolding upgrade lock_future_write
  write_lock_in cycle r l c = elim (get_host_cycle_state r.host l) [
    | some s ↦ if s.cycle == cycle then upgrade s.state cycle r l c else lock_future_write cycle r c
    | none ↦
        ok (put_current_lock (set_host_cycle_state r.coordinator r.host cycle State.write l).0 c)
  ]

  unfoldable pub on_write_lock_request :
      ℕ → Request → Component Program → Result (Component Program)
  unfolding write_lock_in
  on_write_lock_request cycle r c =
      let (l, c') = get_or_create_current_lock c in write_lock_in cycle r l c'

  unfoldable pub on_lock_request :
      Bool → ℕ → Request → Component Program → Result (Component Program)
  on_lock_request true cycle r c = on_read_lock_request cycle r c
  on_lock_request false cycle r c = on_write_lock_request cycle r c

  -- `l` is the current lock with the host's state finished.
  unfoldable pub after_unlock : SimulationLock → Component Program → Result (Component Program)
  after_unlock l c = elim (all_finished l) [
    | true ↦ ok (release_current_lock (put_current_lock l c))
    | false ↦ elim (is_reading l) [ true ↦ ok (put_current_lock l c) | false ↦ start_waiting g l c ]
  ]

  unfoldable pub on_unlock_request : ℕ → Request → Component Program → Result (Component Program)
  on_unlock_request cycle r c = elim c.current_lock [
    | none ↦ throws
    | some l ↦ elim (get_host_cycle_state r.host l) [
      | none ↦ throws
      | some _ ↦ after_unlock (set_host_cycle_state r.coordinator r.host cycle State.finished l).0 c
    ]
  ]

  unfoldable pub on_request :
      Operation → EgMsg → Request → Component Program → Result (Component Program)
  on_request Operation.read m r c = on_read_request g m r c
  on_request (Operation.write value) m r c = on_write_request g value r c
  on_request (Operation.lock read) m r c = on_lock_request read m.cycle r c
  on_request Operation.unlock m r c = on_unlock_request m.cycle r c
  on_request Operation.unset m r c = throws

  unfoldable pub on_content : Content → EgMsg → Component Program → Result (Component Program)
  unfolding on_request
  on_content (Content.request r) m c = on_request r.operation m r c
  on_content _ m c = ok c

  -- EGRequestManagerActivity::serverMessage; the Boolean says whether the message was consumed.
  unfoldable pub server_message : Message → Component Program → Result (Component Program × Bool)
  unfolding on_content
  server_message (Message.eg_msg m) c = elim (on_content m.content m c) [
    | ok c' ↦ ok (c', true)
    | throws ↦ throws
  ]
  server_message _ c = ok (c, false)
