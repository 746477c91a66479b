-- ===== src/Tests/Lock.antt =====
-- Host 7 waits to read and host 8 to write; then host 7 holds the lock.
use megastructure.Common.{
  ℕ, ◌+◌, ◌<◌, ◌≡◌, refl, ◌⊎◌, inl, Bool, true, false, List, [], ◌∷◌, ◌++◌, Option, none, some,
  arith, ok, throws,
}
use megastructure.Protocol.{Operation, Request, Content, EgMsg, Message}
use megastructure.Lock.State.{
  State, SimulationLock, state_is_reading, is_read, is_reading, get_host_cycle_state,
  set_host_cycle_state,
}
use megastructure.Lock.Component.{
  Plugin, Component, put_current_lock, get_or_create_current_lock, release_current_lock, send_eg,
}
use megastructure.Lock.Manager.{
  component_cycle, lock_response, issue_lock_response, start_readers, start_waiting,
  simulation_lock_started, reply, answer_read, read_in_state, read_in, on_read_request,
}
use megastructure.Lock.Requests.{
  lock_new_read, read_lock_in, on_read_lock_request, write_lock_in, on_write_lock_request,
  on_lock_request, on_unlock_request, on_request, on_content, server_message,
}
use megastructure.Lock.Counts.{count, state_is_writing}
use megastructure.Lock.Outcomes.{IsBusy}
use megastructure.Lock.Starts.{StartsHeld}
use megastructure.Lock.System.{
  System, Reach, begins, starts, loads, receives, here, next, begin_cycle, initial, IsHolder,
}
use megastructure.Lock.Exclusion.{
  Reach-exclusive, Reach-held_blocked, Reach-served_blocked, Reach-start_total, Reach-unlock_total,
  unlock_by_waiting_writer,
}
use megastructure.Lock.Replies.{read_answer, on_read_request_sent}
use megastructure.Lock.Repeats.{on_read_lock_request_twice}

abbrev counter : Plugin
counter = record {
  Program = ℕ;
  encode = λ p type instance_id. p ∷ type ∷ instance_id ∷ [];
  decode = λ p value. p + 1;
  current_cycle = λ p. p;
  run = λ p. p + 1;
}

abbrev request_of : ℕ → Operation → Request
request_of host operation = record { coordinator = 0; host = host; operation = operation }

abbrev message_of : ℕ → Operation → EgMsg
message_of host operation = record {
  type = 3;
  instance_id = 0;
  cycle = 1;
  content = Content.request (request_of host operation);
}

abbrev entry : ℕ → State → SimulationLock → SimulationLock
entry host state rest =
    record { coordinator = 0; host = host; cycle_state = record { cycle = 1; state = state } }
    ∷ rest

abbrev waiting_lock : SimulationLock
waiting_lock = entry 7 State.read (entry 8 State.write [])

abbrev held_lock : SimulationLock
held_lock = entry 7 State.reading (entry 8 State.write [])

abbrev with_lock : Option SimulationLock → List EgMsg → Component ℕ
with_lock l sent = record {
  current_lock = l;
  future_lock = none;
  current_lock_released = false;
  program = some 5;
  sent = sent;
}

abbrev system : Bool → Component ℕ → System ℕ
system running c = record { component = c; posted = running; blocked = running }

abbrev lock_granted : EgMsg
lock_granted = record {
  type = 0;
  instance_id = 0;
  cycle = 5;
  content = Content.response (record { coordinator = 0; host = 7; value = [] });
}

abbrev held : System ℕ
held = record {
  component = with_lock (some held_lock) (lock_granted ∷ []);
  posted = false;
  blocked = true;
}

loaded_reached : Reach counter (initial counter) (system false (with_lock none []))
unfolding initial
loaded_reached = next here (loads (some 5) refl refl)

noted_reached :
    Reach counter (initial counter) (system false (with_lock (some (entry 7 State.read [])) []))
unfolding server_message on_content on_request on_lock_request on_read_lock_request read_lock_in
    lock_new_read get_or_create_current_lock get_host_cycle_state is_reading put_current_lock
    set_host_cycle_state
noted_reached = next loaded_reached (
    receives (Message.eg_msg (message_of 7 (Operation.lock true)))
      (with_lock (some (entry 7 State.read [])) []) true tt refl refl)

both_reached : Reach counter (initial counter) (system false (with_lock (some waiting_lock) []))
unfolding server_message on_content on_request on_lock_request on_write_lock_request write_lock_in
    get_or_create_current_lock get_host_cycle_state put_current_lock set_host_cycle_state
both_reached = next noted_reached (
    receives (Message.eg_msg (message_of 8 (Operation.lock false)))
      (with_lock (some waiting_lock) []) true tt refl refl)

posted_reached : Reach counter (initial counter) (system true (with_lock (some waiting_lock) []))
unfolding begin_cycle
posted_reached = next both_reached (begins refl refl)

held_reached : Reach counter (initial counter) held
unfolding simulation_lock_started start_waiting is_read start_readers put_current_lock
    issue_lock_response lock_response component_cycle send_eg
held_reached =
    next posted_reached (starts (with_lock (some held_lock) (lock_granted ∷ [])) refl refl refl)

Reach-exclusive_example :
    (count state_is_writing held_lock ≡ 0)
    ⊎ ((count state_is_writing held_lock ≡ 1) × (count state_is_reading held_lock ≡ 0))
Reach-exclusive_example = Reach-exclusive counter held held_lock held_reached refl

Reach-held_blocked_example :
    (held.blocked ≡ true) × (held.posted ≡ false) × (held.component.current_lock_released ≡ false)
Reach-held_blocked_example =
    Reach-held_blocked counter held held_lock held_reached refl (omega arith)

abbrev read_value : EgMsg
read_value = record {
  type = 3;
  instance_id = 0;
  cycle = 1;
  content = Content.response (record { coordinator = 0; host = 7; value = 5 ∷ 3 ∷ 0 ∷ [] });
}

abbrev answered : Component ℕ
answered = with_lock (some held_lock) (lock_granted ∷ read_value ∷ [])

read_served :
    on_read_request counter
      (message_of 7 Operation.read)
      (request_of 7 Operation.read)
      held.component
    ≡ ok answered
unfolding on_read_request read_in get_or_create_current_lock get_host_cycle_state read_in_state
    answer_read reply send_eg
read_served = refl

Reach-served_blocked_example : held.blocked ≡ true
Reach-served_blocked_example =
    Reach-served_blocked counter held (message_of 7 Operation.read) [] (request_of 7 Operation.read)
      answered held_reached (inl read_served)

Reach-start_total_example :
    (d : Component ℕ) × (simulation_lock_started counter (with_lock (some waiting_lock) []) ≡ ok d)
    × IsBusy counter d
Reach-start_total_example =
    Reach-start_total counter (system true (with_lock (some waiting_lock) [])) posted_reached refl

reader_holds : IsHolder counter 7 held.component
unfolding get_host_cycle_state
reader_holds = (held_lock, record { cycle = 1; state = State.reading }, refl, refl, inl refl)

Reach-unlock_total_example :
    (on_unlock_request counter 1 (request_of 7 Operation.unlock) held.component
      ≡ ok (release_current_lock held.component))
    ⊎ StartsHeld counter held.component
        (on_unlock_request counter 1 (request_of 7 Operation.unlock) held.component)
Reach-unlock_total_example =
    Reach-unlock_total counter held 1 (request_of 7 Operation.unlock) held_reached reader_holds

on_read_request_sent_example :
    answered.sent
    ≡ held.component.sent
      ++ (read_answer counter
            (message_of 7 Operation.read)
            (request_of 7 Operation.read)
            held.component
          ∷ [])
on_read_request_sent_example =
    on_read_request_sent counter (message_of 7 Operation.read) (request_of 7 Operation.read)
      held.component answered read_served

-- Host 7 writes, host 8 waits to read and host 9 to write.
abbrev writing_lock : SimulationLock
writing_lock = entry 7 State.writing (entry 8 State.read (entry 9 State.write []))

last_waits : get_host_cycle_state 9 writing_lock ≡ some (record { cycle = 1; state = State.write })
unfolding get_host_cycle_state
last_waits = refl

unlock_by_waiting_writer_example :
    (d : Component ℕ) × (l' : SimulationLock) × (on_unlock_request counter 1
        (request_of 9 Operation.unlock)
        (with_lock (some writing_lock) [])
      ≡ ok d)
    × (d.current_lock ≡ some l')
    × (count state_is_writing l' ≡ 1)
    × (0 < count state_is_reading l')
unlock_by_waiting_writer_example =
    unlock_by_waiting_writer counter (with_lock (some writing_lock) []) writing_lock
      (record { cycle = 1; state = State.write }) 1 (request_of 9 Operation.unlock) refl last_waits
      refl refl refl (omega arith)

first_noted :
    on_read_lock_request counter 1 (request_of 7 (Operation.lock true)) (with_lock none [])
    ≡ ok (with_lock (some (entry 7 State.read [])) [])
unfolding on_read_lock_request read_lock_in lock_new_read get_or_create_current_lock
    get_host_cycle_state is_reading put_current_lock set_host_cycle_state
first_noted = refl

on_read_lock_request_twice_example :
    on_read_lock_request counter 1
      (record { coordinator = 2; host = 7; operation = Operation.lock true })
      (with_lock (some (entry 7 State.read [])) [])
    ≡ throws
on_read_lock_request_twice_example =
    on_read_lock_request_twice counter 1 (request_of 7 (Operation.lock true))
      (record { coordinator = 2; host = 7; operation = Operation.lock true }) (with_lock none [])
      (with_lock (some (entry 7 State.read [])) []) first_noted refl

-- Host 7 asks for the write lock, and is granted it when the lock starts.
abbrev asked_write : Component ℕ
asked_write = with_lock (some (entry 7 State.write [])) []

abbrev granted_write : Component ℕ
granted_write = with_lock (some (entry 7 State.writing [])) (granted_message ∷ [])
  where
    granted_message : EgMsg
    granted_message = record {
      type = 0;
      instance_id = 0;
      cycle = 5;
      content = Content.response (record { coordinator = 0; host = 7; value = [] });
    }
