-- ===== src/Client/Cycles.antt =====
-- A cycle of a program from its first call to the release of its locks.
use megastructure.Common.{
  ℕ, ◌≡◌, refl, ◌⊎◌, inl, inr, Bool, true, false, ◌||◌, List, [], ◌∷◌, subst, ◌++◌, Option, none,
  some, if◌then◌else◌, ◌+◌, arith, ◌∙◌,
}
use megastructure.Protocol.{Bytes, Operation, EgMsg}
use megastructure.Client.Program.{
  Arrival, Outcome, Outcome-cases, ComponentLockSet, Program, Cycle, has_lock, insert_lock,
  eg_request, sendeg, await_response, lock, readlock, writelock, read, write, release_locks,
  run_cycle, run, value_of,
}
use megastructure.Client.Unlocks.{
  granted, unlocks, Distinct, Cycled, asked, asked-Cycled, granted-Cycled, unlocks-send_unlocks,
  after_lock, after_read,
}

lock-cases :
    (is_read : Bool) (type timestamp cycle : ℕ) (p p' : Program)
    → lock is_read type timestamp p ≡ Outcome.returned (cycle, p')
    → ((await_response p.inbox ≡ Outcome.returned (none, p'.inbox)) × (cycle ≡ 0) × Cycled p p' [])
      ⊎ ((m : EgMsg) × (await_response p.inbox ≡ Outcome.returned (some m, p'.inbox))
          × (cycle ≡ m.cycle)
          × Cycled p p' ((type, timestamp) ∷ []))
unfolding lock asked sendeg eg_request
lock-cases is_read type timestamp cycle p p' e = elim (Outcome-cases (await_response p.inbox)) [
  | inl q ↦ absurd (ground arith)
  | inr (inl q) ↦ absurd (ground arith)
  | inr (inr ((none, rest), q)) ↦
      let m = eg_request type 0 timestamp (Operation.lock is_read) in
      let same : asked m rest p ≡ p' = ground arith in
      inl (
        subst (λ (s : Program). await_response p.inbox ≡ Outcome.returned (none, s.inbox)) same q,
        ground arith,
        subst (λ s. Cycled p s []) same (asked-Cycled m rest p (λ x. refl)),
      )
  | inr (inr ((some m, rest), q)) ↦
      let request = eg_request type 0 timestamp (Operation.lock is_read) in
      let s : Program = record (asked request rest p) {
        component_locks = insert_lock (type, timestamp) p.component_locks;
      } in
      let same : s ≡ p' = ground arith in
      inr (
        m,
        subst (λ (s : Program). await_response p.inbox ≡ Outcome.returned (some m, s.inbox)) same q,
        ground arith,
        subst (λ s. Cycled p s ((type, timestamp) ∷ [])) same
            (granted-Cycled (type, timestamp) p (asked request rest p)
              (asked-Cycled request rest p (λ x. refl))),
      )
]

read-answered :
    (type instance_id timestamp : ℕ) (bytes : Option Bytes) (p p' : Program) (answer : Option EgMsg)
    (rest : List Arrival)
    → read type instance_id timestamp p ≡ Outcome.returned (bytes, p')
    → await_response p.inbox ≡ Outcome.returned (answer, rest)
    → ((await_response p.inbox ≡ Outcome.returned (none, rest)) × (bytes ≡ none))
      ⊎ ((m : EgMsg) × (await_response p.inbox ≡ Outcome.returned (some m, rest))
          × (bytes ≡ some (value_of m.content)))
unfolding read sendeg eg_request
read-answered type instance_id timestamp bytes p p' none rest e q = inl (q, ground arith)
read-answered type instance_id timestamp bytes p p' (some m) rest e q = inr (m, q, ground arith)

read-cases :
    (type instance_id timestamp : ℕ) (bytes : Option Bytes) (p p' : Program)
    → read type instance_id timestamp p ≡ Outcome.returned (bytes, p')
    → Cycled p p' []
      × (((await_response p.inbox ≡ Outcome.returned (none, p'.inbox)) × (bytes ≡ none))
          ⊎ ((m : EgMsg) × (await_response p.inbox ≡ Outcome.returned (some m, p'.inbox))
              × (bytes ≡ some (value_of m.content))))
unfolding read asked sendeg eg_request
read-cases type instance_id timestamp bytes p p' e = elim (Outcome-cases (await_response p.inbox)) [
  | inl q ↦ absurd (ground arith)
  | inr (inl q) ↦ absurd (ground arith)
  | inr (inr ((answer, rest), q)) ↦
      let request = eg_request type instance_id timestamp Operation.read in
      let same : asked request rest p ≡ p' = ground arith in
      (
        subst (λ s. Cycled p s []) same (asked-Cycled request rest p (λ x. refl)),
        subst
            (λ (s : Program).
              ((await_response p.inbox ≡ Outcome.returned (none, s.inbox)) × (bytes ≡ none))
              ⊎ ((m : EgMsg) × (await_response p.inbox ≡ Outcome.returned (some m, s.inbox))
                  × (bytes ≡ some (value_of m.content))))
            same (read-answered type instance_id timestamp bytes p p' answer rest e q),
      )
]

write-Cycled :
    (component : ℕ) (bytes : Bytes) (timestamp : ℕ) (p : Program)
    → Cycled p (write component bytes timestamp p) []
unfolding write asked eg_request sendeg
write-Cycled component bytes timestamp p =
    asked-Cycled (eg_request component 0 timestamp (Operation.write bytes)) p.inbox p (λ x. refl)

has_lock-append :
    (x : ℕ × ℕ) (xs ys : ComponentLockSet)
    → has_lock x (xs ++ ys) ≡ (has_lock x xs || has_lock x ys)
has_lock-append x [] ys = refl
has_lock-append x (y ∷ xs) ys = ground (arith, has_lock-append x xs ys)

then-Cycled :
    (p q r : Program) (xs ys : ComponentLockSet)
    → Cycled p q xs
    → Cycled q r ys
    → Cycled p r (xs ++ ys)
then-Cycled p q r xs ys c d = record {
  held = λ x.
      let first = c.held x in
      let second = d.held x in let joined = has_lock-append x xs ys in ground arith;
  silent = λ x. d.silent x ∙ c.silent x;
  distinct = λ e. d.distinct (c.distinct e);
}

lock-Cycled :
    (is_read : Bool) (type timestamp cycle : ℕ) (p s p' : Program)
    (later : ℕ → List Arrival → ComponentLockSet)
    → lock is_read type timestamp p ≡ Outcome.returned (cycle, s)
    → Cycled s p' (later cycle s.inbox)
    → Cycled p p' (after_lock type timestamp (await_response p.inbox) later)
lock-Cycled is_read type timestamp cycle p s p' later e c =
    elim (lock-cases is_read type timestamp cycle p s e) [
      | inl (w, zero, first) ↦ rw (w) (
          then-Cycled p s p' [] (later 0 s.inbox) first
            (subst (λ n. Cycled s p' (later n s.inbox)) zero c))
      | inr (m, w, same, first) ↦ rw (w) (
          then-Cycled p s p' ((type, timestamp) ∷ []) (later m.cycle s.inbox) first
            (subst (λ n. Cycled s p' (later n s.inbox)) same c))
    ]

read-Cycled :
    (type instance_id timestamp : ℕ) (bytes : Option Bytes) (p s p' : Program)
    (later : Option Bytes → List Arrival → ComponentLockSet)
    → read type instance_id timestamp p ≡ Outcome.returned (bytes, s)
    → Cycled s p' (later bytes s.inbox)
    → Cycled p p' (after_read (await_response p.inbox) later)
read-Cycled type instance_id timestamp bytes p s p' later e c =
    let (first, answer) = read-cases type instance_id timestamp bytes p s e in
    elim answer [
      | inl (w, same) ↦ rw (w) (
          then-Cycled p s p' [] (later none s.inbox) first
            (subst (λ b. Cycled s p' (later b s.inbox)) same c))
      | inr (m, w, same) ↦ rw (w) (
          then-Cycled p s p' [] (later (some (value_of m.content)) s.inbox) first
            (subst (λ b. Cycled s p' (later b s.inbox)) same c))
    ]

run_cycle-Cycled :
    (cycle : Cycle) (p p' : Program)
    → run_cycle cycle p ≡ Outcome.returned p'
    → Cycled p p' (granted cycle p.inbox)
unfolding run_cycle readlock writelock
run_cycle-Cycled Cycle.done p p' e =
    let same : p ≡ p' = ground arith in
    subst (λ s. Cycled p s []) same
      (record { held = λ x. ground arith; silent = λ x. refl; distinct = λ d. d })
run_cycle-Cycled (Cycle.request_readlock type timestamp next) p p' e =
    elim (Outcome-cases (lock true type timestamp p)) [
      | inl q ↦ absurd (ground arith)
      | inr (inl q) ↦ absurd (ground arith)
      | inr (inr ((cycle, s), q)) ↦
          lock-Cycled true type timestamp cycle p s p' (λ c rest. granted (next c) rest) q
            (run_cycle-Cycled (next cycle) s p' (ground arith))
    ]
run_cycle-Cycled (Cycle.request_writelock type timestamp next) p p' e =
    elim (Outcome-cases (lock false type timestamp p)) [
      | inl q ↦ absurd (ground arith)
      | inr (inl q) ↦ absurd (ground arith)
      | inr (inr ((cycle, s), q)) ↦
          lock-Cycled false type timestamp cycle p s p' (λ c rest. granted (next c) rest) q
            (run_cycle-Cycled (next cycle) s p' (ground arith))
    ]
run_cycle-Cycled (Cycle.request_read type instance_id timestamp next) p p' e =
    elim (Outcome-cases (read type instance_id timestamp p)) [
      | inl q ↦ absurd (ground arith)
      | inr (inl q) ↦ absurd (ground arith)
      | inr (inr ((bytes, s), q)) ↦
          read-Cycled type instance_id timestamp bytes p s p' (λ b rest. granted (next b) rest) q
            (run_cycle-Cycled (next bytes) s p' (ground arith))
    ]
run_cycle-Cycled (Cycle.request_write component bytes timestamp next) p p' e =
    then-Cycled p (write component bytes timestamp p) p' [] (granted next p.inbox)
      (write-Cycled component bytes timestamp p)
      (run_cycle-Cycled next (write component bytes timestamp p) p' e)

-- A program that holds no locks runs a cycle, and the cycle returns: for each component and
-- timestamp, exactly one unlock is sent if a lock request for them was granted in the cycle, however
-- often, and none if none was; no lock is held after it.
pub run-unlocks :
    (cycle : Cycle) (p p' : Program) (x : ℕ × ℕ)
    → p.component_locks ≡ []
    → run cycle p ≡ Outcome.returned p'
    → (unlocks x p'.sent ≡ unlocks x p.sent + (if has_lock x (granted cycle p.inbox) then 1 else 0))
      × (p'.component_locks ≡ [])
unfolding run release_locks Distinct
run-unlocks cycle p p' x none_held e = elim (Outcome-cases (run_cycle cycle p)) [
  | inl q ↦ absurd (ground arith)
  | inr (inl q) ↦ absurd (ground arith)
  | inr (inr (s, q)) ↦
      let same : release_locks s ≡ p' = ground arith in
      let c = run_cycle-Cycled cycle p s q in
      let sent = unlocks-send_unlocks x s.component_locks s in
      let once = c.distinct (λ y. rw (none_held) refl) x in
      let held = c.held x in
      let silent = c.silent x in
      subst
        (λ (r : Program).
          (unlocks x r.sent
            ≡ unlocks x p.sent + (if has_lock x (granted cycle p.inbox) then 1 else 0))
          × (r.component_locks ≡ []))
        same (ground arith, refl)
]
