-- ===== src/Tests/Locks.antt =====
-- A program that locks one component for reading twice and another one for writing.
use megastructure.Common.{ℕ, ◌≡◌, refl, true, false, [], ◌∷◌, ◌+◌, if◌then◌else◌}
use megastructure.Protocol.{Content, Message, Operation}
use megastructure.Client.Program.{
  Arrival, Outcome, Program, Cycle, has_lock, insert_ordered, insert_lock, eg_request, sendeg,
  await_response, lock, readlock, writelock, read, send_unlocks, release_locks, run_cycle, run,
}
use megastructure.Client.Unlocks.{granted, unlocks}
use megastructure.Client.Cycles.{run-unlocks}
use megastructure.Client.Blocking.{errors_block}

abbrev granting : ℕ → Arrival
granting cycle = Arrival.received (
    Message.eg_msg (record {
      type = 40;
      instance_id = 0;
      cycle = cycle;
      content = Content.response (record { coordinator = 0; host = 0; value = [] });
    }))

abbrev refusing : Arrival
refusing = Arrival.received (
    Message.eg_msg (record {
      type = 40;
      instance_id = 0;
      cycle = 0;
      content = Content.error (record { coordinator = 0; host = 0 });
    }))

abbrev idle : Program
idle = record {
  component_locks = [];
  sent = [];
  inbox = granting 7 ∷ refusing ∷ granting 8 ∷ granting 9 ∷ [];
  shared_buffers = [];
  cache_buffers = [];
}

abbrev third : ℕ → Cycle
third cycle = Cycle.request_writelock 41 3 (λ c. Cycle.done)

abbrev second : ℕ → Cycle
second cycle = Cycle.request_readlock 40 3 third

abbrev locking : Cycle
locking = Cycle.request_readlock 40 3 second

abbrev unlocked : Program
unlocked = record idle {
  sent =
      eg_request 40 0 3 (Operation.lock true)
      ∷ eg_request 40 0 3 (Operation.lock true)
      ∷ eg_request 41 0 3 (Operation.lock false)
      ∷ eg_request 40 0 3 Operation.unlock
      ∷ eg_request 41 0 3 Operation.unlock
      ∷ [];
  inbox = [];
}

locking_run : run locking idle ≡ Outcome.returned unlocked
unfolding run run_cycle release_locks send_unlocks readlock writelock lock await_response
    insert_lock insert_ordered sendeg eg_request
locking_run = refl

run-unlocks_example :
    (unlocks (40, 3) unlocked.sent
      ≡ 0 + (if has_lock (40, 3) (granted locking idle.inbox) then 1 else 0))
    × (unlocked.component_locks ≡ [])
run-unlocks_example = run-unlocks locking idle unlocked (40, 3) refl locking_run

-- The lock was granted.
granted_once : has_lock (40, 3) (granted locking idle.inbox) ≡ true
unfolding await_response
granted_once = refl

abbrev refused : Program
refused = record idle { inbox = refusing ∷ refusing ∷ [] }

errors_block_example :
    (readlock 40 3 refused ≡ Outcome.blocked)
    × (writelock 40 3 refused ≡ Outcome.blocked)
    × (read 40 1 3 refused ≡ Outcome.blocked)
errors_block_example = errors_block 40 1 3 refused ((_, _, refl, refl), ((_, _, refl, refl), tt))
