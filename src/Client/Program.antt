-- ===== src/Client/Program.antt =====
-- class Program of src/component/program.cpp and api/megastructure/program.hpp: the locks that a
-- program asks for in a cycle, its reads and writes, and its buffers. The plugin that is loaded at
-- run time is a `Cycle`: what it calls until it returns, depending on what it is answered.
use megastructure.Common.{
  ℕ, ◌≡◌, refl, ◌⊎◌, inl, inr, Bool, true, false, ◌&&◌, ◌||◌, List, [], ◌∷◌, ◌++◌, Option, none,
  some, String, ◌==◌, ltb, if◌then◌else◌,
}
use megastructure.Slave.Shared.{SharedBuffer}
use megastructure.Protocol.{Bytes, Operation, Content, EgMsg, Message}

-- What Component::readegSync does: it receives a message, receives nothing, or throws as the
-- socket failed.
pub data Arrival : Type 0 where
  received : Message → Arrival
  nothing : Arrival
  failed : Arrival

-- `blocked` is a call that waits for a message that does not come.
pub data Outcome {ℓ} (A : Type ℓ) : Type ℓ where
  returned : A → Outcome A
  thrown : Outcome A
  blocked : Outcome A

pub Outcome-cases {ℓ} :
    {A : Type ℓ} (r : Outcome A) → (r ≡ blocked) ⊎ ((r ≡ thrown) ⊎ ((a : A) × (r ≡ returned a)))
Outcome-cases blocked = inl refl
Outcome-cases thrown = inr (inl refl)
Outcome-cases (returned a) = inr (inr (a, refl))

-- A component and a timestamp.
abbrev pub ComponentLockSet : Type 0
ComponentLockSet = List (ℕ × ℕ)

-- `sent` is what sendeg has sent, oldest first; every send succeeds. `inbox` is what arrives on the
-- eg socket.
pub record Program : Type 0 where
  pub component_locks : ComponentLockSet
  pub sent : List EgMsg
  pub inbox : List Arrival
  pub shared_buffers : List (String × SharedBuffer)
  pub cache_buffers : List (String × ℕ)

abbrev pub same_lock : ℕ × ℕ → ℕ × ℕ → Bool
same_lock (type, timestamp) (type', timestamp') = type == type' && timestamp == timestamp'

abbrev pub has_lock : ℕ × ℕ → ComponentLockSet → Bool
has_lock x [] = false
has_lock x (y ∷ rest) = same_lock x y || has_lock x rest

-- The order of the pairs in a std::set.
abbrev pub before : ℕ × ℕ → ℕ × ℕ → Bool
before (type, timestamp) (type', timestamp') =
    ltb type type' || (type == type' && ltb timestamp timestamp')

unfoldable pub insert_ordered : ℕ × ℕ → ComponentLockSet → ComponentLockSet
insert_ordered x [] = x ∷ []
insert_ordered x (y ∷ rest) =
    let later = insert_ordered x rest in if before x y then x ∷ y ∷ rest else y ∷ later

unfoldable pub insert_lock : ℕ × ℕ → ComponentLockSet → ComponentLockSet
unfolding insert_ordered
insert_lock x locks = if has_lock x locks then locks else insert_ordered x locks

unfoldable pub eg_request : ℕ → ℕ → ℕ → Operation → EgMsg
eg_request type instance_id timestamp operation = record {
  type = type;
  instance_id = instance_id;
  cycle = timestamp;
  content = Content.request (record { coordinator = 0; host = 0; operation = operation });
}

unfoldable pub sendeg : EgMsg → Program → Program
sendeg m p = record p { sent = p.sent ++ (m ∷ []) }

-- The loops of readlock, read and writelock, which wait for a response: an error is only logged.
-- `none` if the loop ends without one.
unfoldable pub await_response : List Arrival → Outcome (Option EgMsg × List Arrival)
await_response [] = blocked
await_response (Arrival.failed ∷ rest) = thrown
await_response (Arrival.nothing ∷ rest) = returned (none, rest)
await_response (Arrival.received (Message.eg_msg m) ∷ rest) =
    let next = await_response rest in
    elim m.content [
      | Content.response r ↦ returned (some m, rest)
      | Content.error e ↦ next
      | _ ↦ thrown
    ]
await_response (Arrival.received _ ∷ rest) = thrown

-- readlock and writelock, which differ in the flag of the request.
unfoldable pub lock : Bool → ℕ → ℕ → Program → Outcome (ℕ × Program)
unfolding eg_request sendeg await_response insert_lock
lock is_read type timestamp p =
    let p' = sendeg (eg_request type 0 timestamp (Operation.lock is_read)) p in
    elim (await_response p'.inbox) [
      | blocked ↦ blocked
      | thrown ↦ thrown
      | returned (none, rest) ↦ returned (0, record p' { inbox = rest })
      | returned (some m, rest) ↦ returned (
        m.cycle,
        record p' {
          inbox = rest;
          component_locks = insert_lock (type, timestamp) p'.component_locks;
        },
      )
    ]

unfoldable pub readlock : ℕ → ℕ → Program → Outcome (ℕ × Program)
unfolding lock
readlock type timestamp p = lock true type timestamp p

unfoldable pub writelock : ℕ → ℕ → Program → Outcome (ℕ × Program)
unfolding lock
writelock type timestamp p = lock false type timestamp p

abbrev pub value_of : Content → Bytes
value_of (Content.response r) = r.value
value_of _ = []

-- The bytes go to the plugin, which decodes them.
unfoldable pub read : ℕ → ℕ → ℕ → Program → Outcome (Option Bytes × Program)
unfolding eg_request sendeg await_response
read type instance_id timestamp p =
    let p' = sendeg (eg_request type instance_id timestamp Operation.read) p in
    elim (await_response p'.inbox) [
      | blocked ↦ blocked
      | thrown ↦ thrown
      | returned (none, rest) ↦ returned (none, record p' { inbox = rest })
      | returned (some m, rest) ↦ returned (some (value_of m.content), record p' { inbox = rest })
    ]

unfoldable pub write : ℕ → Bytes → ℕ → Program → Program
unfolding eg_request sendeg
write component bytes timestamp p =
    sendeg (eg_request component 0 timestamp (Operation.write bytes)) p

-- The loop of releaseLocks over the locks.
unfoldable pub send_unlocks : ComponentLockSet → Program → Program
unfolding eg_request sendeg
send_unlocks [] p = p
send_unlocks ((type, timestamp) ∷ rest) p =
    send_unlocks rest (sendeg (eg_request type 0 timestamp Operation.unlock) p)

unfoldable pub release_locks : Program → Program
unfolding send_unlocks
release_locks p = record (send_unlocks p.component_locks p) { component_locks = [] }

-- What the plugin calls in one cycle, each call with what it does next.
pub data Cycle : Type 0 where
  done : Cycle
  request_readlock : ℕ → ℕ → (ℕ → Cycle) → Cycle
  request_writelock : ℕ → ℕ → (ℕ → Cycle) → Cycle
  request_read : ℕ → ℕ → ℕ → (Option Bytes → Cycle) → Cycle
  request_write : ℕ → Bytes → ℕ → Cycle → Cycle

unfoldable pub run_cycle : Cycle → Program → Outcome Program
unfolding readlock writelock read write
run_cycle Cycle.done p = returned p
run_cycle (Cycle.request_readlock type timestamp next) p = elim (readlock type timestamp p) [
  | blocked ↦ blocked
  | thrown ↦ thrown
  | returned (cycle, p') ↦ run_cycle (next cycle) p'
]
run_cycle (Cycle.request_writelock type timestamp next) p = elim (writelock type timestamp p) [
  | blocked ↦ blocked
  | thrown ↦ thrown
  | returned (cycle, p') ↦ run_cycle (next cycle) p'
]
run_cycle (Cycle.request_read type instance_id timestamp next) p =
    elim (read type instance_id timestamp p) [
      | blocked ↦ blocked
      | thrown ↦ thrown
      | returned (bytes, p') ↦ run_cycle (next bytes) p'
    ]
run_cycle (Cycle.request_write component bytes timestamp next) p =
    run_cycle next (write component bytes timestamp p)

-- Program::run
unfoldable pub run : Cycle → Program → Outcome Program
unfolding run_cycle release_locks
run cycle p = elim (run_cycle cycle p) [
  | blocked ↦ blocked
  | thrown ↦ thrown
  | returned p' ↦ returned (release_locks p')
]
