-- ===== src/Lock/Replies.antt =====
-- Which messages the handlers of a component send, and to whom.
use mathlib.Core.List.{append_assoc, append-nil}
use megastructure.Common.{
  ◌≡◌, refl, ◌∙◌, sym, subst, inl, inr, none, some, arith, ok, Option-cases, Bool-cases, List, [],
  ◌∷◌, ◌++◌, if◌then◌else◌,
}
use megastructure.Protocol.{Request, Content, EgMsg}
use megastructure.Lock.State.{
  State, SimulationLock, HostCycleState, state_is_read, get_host_cycle_state,
}
use megastructure.Lock.Component.{Plugin, Component, get_or_create_current_lock, send_eg}
use megastructure.Lock.Outcomes.{Ensures}
use megastructure.Lock.Manager.{
  component_cycle, lock_response, issue_lock_response, with_state, start_readers, read_in_state,
  read_in, on_read_request,
}

module _ (g : Plugin) where
  open g use {Program, encode}

  -- The answer to a read request: the value that the program encodes, or an error if no program is
  -- loaded, with the type, instance, cycle and the return path of the request.
  abbrev pub read_answer : EgMsg → Request → Component Program → EgMsg
  read_answer m r c = elim c.program [
    | some p ↦ record m {
      content = Content.response (record {
        coordinator = r.coordinator;
        host = r.host;
        value = encode p m.type m.instance_id;
      });
    }
    | none ↦ record m {
      content = Content.error (record { coordinator = r.coordinator; host = r.host });
    }
  ]

  read_in_state_sent :
      (st : State) (m : EgMsg) (r : Request) (c : Component Program)
      → Ensures (λ d. d.sent ≡ c.sent ++ (read_answer m r c ∷ [])) (read_in_state g st m r c)
  unfolding read_in_state send_eg
  read_in_state_sent State.reading m r c = ground arith
  read_in_state_sent State.writing m r c = ground arith
  read_in_state_sent _ m r c = tt

  read_in_sent :
      (m : EgMsg) (r : Request) (l : SimulationLock) (c : Component Program)
      → Ensures (λ d. d.sent ≡ c.sent ++ (read_answer m r c ∷ [])) (read_in g m r l c)
  unfolding read_in
  read_in_sent m r l c = elim (Option-cases (get_host_cycle_state r.host l)) [
    | inl n ↦ rw (n, read_in) tt
    | inr (s, n) ↦ rw (n, read_in) (read_in_state_sent s.state m r c)
  ]

  current_lock_keeps :
      (c : Component Program)
      → ((get_or_create_current_lock c).1.sent ≡ c.sent)
        × ((get_or_create_current_lock c).1.program ≡ c.program)
  unfolding get_or_create_current_lock
  current_lock_keeps c = ground arith

  -- A read request that is not refused is answered by exactly one message, to the host that asked,
  -- which carries the value that the program encodes, or an error if no program is loaded.
  pub on_read_request_sent :
      (m : EgMsg) (r : Request) (c d : Component Program)
      → on_read_request g m r c ≡ ok d
      → d.sent ≡ c.sent ++ (read_answer m r c ∷ [])
  unfolding on_read_request
  on_read_request_sent m r c d e =
      let (l, c') = get_or_create_current_lock c in
      let sent =
        subst (Ensures (λ d. d.sent ≡ c'.sent ++ (read_answer m r c' ∷ []))) e
          (read_in_sent m r l c') in
      ground (arith, sent, current_lock_keeps c)

  -- The response to each host that waits to read, in the order of the lock.
  abbrev pub reader_responses : SimulationLock → Component Program → List EgMsg
  reader_responses [] c = []
  reader_responses (hcs ∷ rest) c =
      let others = reader_responses rest c in
      if state_is_read hcs.cycle_state.state then lock_response g hcs c ∷ others else others

  response_of_program :
      (hcs : HostCycleState) (s : State) (x : EgMsg) (c : Component Program)
      → lock_response g hcs (send_eg x c) ≡ lock_response g hcs c
  unfolding lock_response component_cycle send_eg
  response_of_program hcs s x c = refl

  reader_responses_send :
      (l : SimulationLock) (x : EgMsg) (c : Component Program)
      → reader_responses l (send_eg x c) ≡ reader_responses l c
  reader_responses_send [] x c = refl
  reader_responses_send (hcs ∷ rest) x c =
      ground (arith, response_of_program hcs State.read x c, reader_responses_send rest x c)

  -- The start of the readers sends one response to each host that waits to read, in their order
  -- and to no other.
  pub start_readers_sent :
      (l : SimulationLock) (c : Component Program)
      → (start_readers g l c).1.sent ≡ c.sent ++ reader_responses l c
  unfolding start_readers issue_lock_response lock_response send_eg component_cycle
  start_readers_sent [] c = sym (append-nil c.sent)
  start_readers_sent (hcs ∷ rest) c = elim (Bool-cases (state_is_read hcs.cycle_state.state)) [
    | inl q ↦
        let hcs' = with_state g hcs State.reading in
        rw (q, start_readers)
          (start_readers_sent rest (issue_lock_response g hcs' c)
            ∙ rw (reader_responses_send rest (lock_response g hcs' c) c)
                (append_assoc c.sent (lock_response g hcs' c ∷ []) (reader_responses rest c)))
    | inr q ↦ rw (q, start_readers) (start_readers_sent rest c)
  ]
