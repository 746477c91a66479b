-- ===== src/Client/Unlocks.antt =====
-- Each lock that a component has granted is given back once at the end of the cycle.
use megastructure.Common.{
  ℕ, ◌≡◌, refl, Bool, true, false, ◌||◌, List, [], ◌∷◌, ◌++◌, Option, none, some, if◌then◌else◌,
  ◌+◌, arith,
}
use megastructure.Protocol.{Bytes, Operation, Content, EgMsg}
use megastructure.Client.Program.{
  Arrival, Outcome, ComponentLockSet, Program, Cycle, same_lock, has_lock, insert_ordered,
  insert_lock, eg_request, sendeg, await_response, send_unlocks, value_of,
}

-- What a lock request adds to the locks that `later` grants, once it has waited.
abbrev pub after_lock :
    ℕ
    → ℕ
    → Outcome (Option EgMsg × List Arrival)
    → (ℕ → List Arrival → ComponentLockSet)
    → ComponentLockSet
after_lock type timestamp (Outcome.returned (some m, rest)) later =
    (type, timestamp) ∷ later m.cycle rest
after_lock type timestamp (Outcome.returned (none, rest)) later = later 0 rest
after_lock type timestamp _ later = []

abbrev pub after_read :
    Outcome (Option EgMsg × List Arrival)
    → (Option Bytes → List Arrival → ComponentLockSet)
    → ComponentLockSet
after_read (Outcome.returned (some m, rest)) later = later (some (value_of m.content)) rest
after_read (Outcome.returned (none, rest)) later = later none rest
after_read _ later = []

-- The locks that were granted: the lock requests of the cycle that found a response in the inbox.
abbrev pub granted : Cycle → List Arrival → ComponentLockSet
granted Cycle.done inbox = []
granted (Cycle.request_readlock type timestamp next) inbox =
    after_lock type timestamp (await_response inbox) (λ cycle rest. granted (next cycle) rest)
granted (Cycle.request_writelock type timestamp next) inbox =
    after_lock type timestamp (await_response inbox) (λ cycle rest. granted (next cycle) rest)
granted (Cycle.request_read type instance_id timestamp next) inbox =
    after_read (await_response inbox) (λ bytes rest. granted (next bytes) rest)
granted (Cycle.request_write component bytes timestamp next) inbox = granted next inbox

-- Whether a message is an unlock of this component at this timestamp.
abbrev pub is_unlock : ℕ × ℕ → EgMsg → Bool
is_unlock x m = elim m.content [
  | Content.request r ↦ elim r.operation [
    | Operation.unlock ↦ same_lock x (m.type, m.cycle)
    | _ ↦ false
  ]
  | _ ↦ false
]

abbrev pub unlocks : ℕ × ℕ → List EgMsg → ℕ
unlocks x [] = 0
unlocks x (m ∷ rest) = if is_unlock x m then 1 + unlocks x rest else unlocks x rest

abbrev pub occurrences : ℕ × ℕ → ComponentLockSet → ℕ
occurrences x [] = 0
occurrences x (y ∷ rest) = if same_lock x y then 1 + occurrences x rest else occurrences x rest

unlocks-append :
    (x : ℕ × ℕ) (ms ms' : List EgMsg) → unlocks x (ms ++ ms') ≡ unlocks x ms + unlocks x ms'
unlocks-append x [] ms' = omega arith
unlocks-append x (m ∷ ms) ms' = ground (arith, unlocks-append x ms ms')

occurrences-insert_ordered :
    (x y : ℕ × ℕ) (locks : ComponentLockSet)
    → occurrences x (insert_ordered y locks) ≡ occurrences x (y ∷ locks)
unfolding insert_ordered
occurrences-insert_ordered x y [] = refl
occurrences-insert_ordered x y (z ∷ rest) = ground (arith, occurrences-insert_ordered x y rest)

occurrences-absent :
    (x : ℕ × ℕ) (locks : ComponentLockSet) → has_lock x locks ≡ false → occurrences x locks ≡ 0
occurrences-absent x [] e = refl
occurrences-absent x (y ∷ rest) e = ground (arith, occurrences-absent x rest)

-- No lock stands twice.
unfoldable pub Distinct : ComponentLockSet → Type 0
Distinct locks = (x : ℕ × ℕ) → occurrences x locks ≡ (if has_lock x locks then 1 else 0)

has_lock-insert_ordered :
    (x y : ℕ × ℕ) (locks : ComponentLockSet)
    → has_lock x (insert_ordered y locks) ≡ has_lock x (y ∷ locks)
unfolding insert_ordered
has_lock-insert_ordered x y [] = refl
has_lock-insert_ordered x y (z ∷ rest) = ground (arith, has_lock-insert_ordered x y rest)

same_lock-has_lock :
    (x y : ℕ × ℕ) (locks : ComponentLockSet)
    → same_lock x y ≡ true
    → has_lock x locks ≡ has_lock y locks
same_lock-has_lock x y [] e = refl
same_lock-has_lock x y (z ∷ rest) e = ground (arith, same_lock-has_lock x y rest)

pub has_lock-insert_lock :
    (x y : ℕ × ℕ) (locks : ComponentLockSet)
    → has_lock x (insert_lock y locks) ≡ (same_lock x y || has_lock x locks)
unfolding insert_lock
has_lock-insert_lock x y locks =
    ground (arith, has_lock-insert_ordered x y locks, same_lock-has_lock x y locks)

insert_lock-Distinct :
    (y : ℕ × ℕ) (locks : ComponentLockSet) → Distinct locks → Distinct (insert_lock y locks)
unfolding Distinct insert_lock
insert_lock-Distinct y locks d x = ground (
  arith,
  has_lock-insert_ordered x y locks,
  occurrences-insert_ordered x y locks,
  same_lock-has_lock x y locks,
  d x,
)

-- What a cycle that has called `calls` leaves of the program it started with.
pub unlocks-send_unlocks :
    (x : ℕ × ℕ) (locks : ComponentLockSet) (p : Program)
    → unlocks x (send_unlocks locks p).sent ≡ unlocks x p.sent + occurrences x locks
unfolding send_unlocks sendeg eg_request
unlocks-send_unlocks x [] p = omega arith
unlocks-send_unlocks x ((type, timestamp) ∷ rest) p =
    let m = eg_request type 0 timestamp Operation.unlock in
    let later = unlocks-send_unlocks x rest (sendeg m p) in
    let here = unlocks-append x p.sent (m ∷ []) in ground (arith, later, here)

-- What the run of a cycle, from `p` to `p'`, does to the locks: those that are held are the ones
-- that were granted, and none is given back.
pub record Cycled (p : Program) (p' : Program) (locks : ComponentLockSet) : Type 0 where
  pub held :
      (x : ℕ × ℕ)
      → has_lock x p'.component_locks ≡ (has_lock x p.component_locks || has_lock x locks)
  pub silent : (x : ℕ × ℕ) → unlocks x p'.sent ≡ unlocks x p.sent
  pub distinct : Distinct p.component_locks → Distinct p'.component_locks

-- The program once it has sent a request that is no unlock and has read the inbox up to `rest`.
unfoldable pub asked : EgMsg → List Arrival → Program → Program
unfolding sendeg
asked m rest p = record (sendeg m p) { inbox = rest }

pub asked-Cycled :
    (m : EgMsg) (rest : List Arrival) (p : Program)
    → ((x : ℕ × ℕ) → is_unlock x m ≡ false)
    → Cycled p (asked m rest p) []
unfolding asked sendeg
asked-Cycled m rest p quiet = record {
  held = λ x. ground arith;
  silent = λ x. let here = unlocks-append x p.sent (m ∷ []) in ground (arith, quiet x);
  distinct = λ d. d;
}

pub granted-Cycled :
    (y : ℕ × ℕ) (p p' : Program)
    → Cycled p p' []
    → Cycled p (record p' { component_locks = insert_lock y p'.component_locks }) (y ∷ [])
granted-Cycled y p p' c = record {
  held = λ x.
      let grown = has_lock-insert_lock x y p'.component_locks in
      let before = c.held x in ground arith;
  silent = c.silent;
  distinct = λ d. insert_lock-Distinct y p'.component_locks (c.distinct d);
}
