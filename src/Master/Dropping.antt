-- ===== src/Master/Dropping.antt =====
-- What the test command of the master does to the client map.
use megastructure.Common.{
  ℕ, ◌≡◌, refl, inl, inr, Bool, true, false, ◌&&◌, ◌||◌, not, [], ◌∷◌, ◌++◌, ◌+◌, Option, none,
  some, String, ◌==◌, if◌then◌else◌, str_eq, arith, Bool-cases, Option-cases, ==_refl, ap, ◌∙◌,
}
use megastructure.Protocol.{Message}
use megastructure.Master.Clients.{
  ClientIdMap, get_client_id, Distinct, unless, get-remove_client, remove_client-Distinct,
}
use megastructure.Master.Clients
use megastructure.Master.Enroll.{TestClient, test_start, test_answer, test_client_message}
use megastructure.Master.State.{Master, post, remove_client, send}
use megastructure.Queue.{starts}
use megastructure.Master.Gather.{is_empty}
use megastructure.Master.Connections.{TestClients, MadeTests, start_tests, test_clients_start}

abbrev pub has_client : ℕ → ClientIdMap → Bool
has_client id [] = false
has_client id ((n, i) ∷ m) = (i == id) || has_client id m

abbrev pub is_tested : ℕ → MadeTests → Bool
is_tested id [] = false
is_tested id ((b, t) ∷ ts) = (t.client_id == id) || is_tested id ts

-- `delivers` says which clients can be sent to, and `alive` what they answer.
module _ (delivers alive : ℕ → Bool) where
  abbrev pub is_active : ℕ → Bool
  is_active id = delivers id && alive id

  -- A test starts, and if its message is delivered the client answers it.
  abbrev pub run_test : ℕ × TestClient → Master → Master
  run_test (a, t) s =
      let s' = test_start delivers a t s in
      if delivers t.client_id
      then (test_client_message delivers a t.client_id (Message.sms_alive (alive t.client_id)) t
          s').0.1
      else s'

  abbrev pub run_tests : MadeTests → Master → Master
  run_tests [] s = s
  run_tests (t ∷ ts) s = run_tests ts (run_test t s)

  run_test-clients :
      (a : ℕ) (t : TestClient) (s : Master)
      → (run_test (a, t) s).clients
        ≡ (if is_active t.client_id then s.clients else Clients.remove_client t.client_id s.clients)
  unfolding test_start test_client_message test_answer post remove_client send
  run_test-clients a t s = elim (Bool-cases (delivers t.client_id)) [
    | inl d ↦ elim (Bool-cases (alive t.client_id)) [
      | inl e ↦ rw (d, e, ==_refl t.client_id) refl
      | inr e ↦ rw (d, e, ==_refl t.client_id) refl
    ]
    | inr d ↦ rw (d) refl
  ]

  -- What is left of an answer of the client map.
  abbrev pub kept : MadeTests → Option ℕ → Option ℕ
  kept ts none = none
  kept ts (some id) = if is_tested id ts && not (is_active id) then none else some id

  kept_one :
      (a : ℕ) (t : TestClient) (ts : MadeTests) (x : Option ℕ)
      → kept ts (if is_active t.client_id then x else unless t.client_id x) ≡ kept ((a, t) ∷ ts) x
  kept_one a t ts none = elim (Bool-cases (is_active t.client_id)) [
    | inl e ↦ rw (e) refl
    | inr e ↦ rw (e) refl
  ]
  kept_one a t ts (some id) = elim (Bool-cases (t.client_id == id)) [
    | inl same ↦ let p : t.client_id ≡ id = ground arith in let q = ap is_active p in ground arith
    | inr other ↦ ground arith
  ]

  run_test-Distinct :
      (a : ℕ) (t : TestClient) (s : Master)
      → Distinct s.clients
      → Distinct (run_test (a, t) s).clients
  run_test-Distinct a t s d = elim (Bool-cases (is_active t.client_id)) [
    | inl e ↦ rw (run_test-clients a t s, e) d
    | inr e ↦ rw (run_test-clients a t s, e) (remove_client-Distinct t.client_id s.clients d)
  ]

  get-run_test :
      (name : String) (a : ℕ) (t : TestClient) (s : Master)
      → Distinct s.clients
      → get_client_id name (run_test (a, t) s).clients ≡ (
          if is_active t.client_id
          then get_client_id name s.clients
          else unless t.client_id (get_client_id name s.clients))
  get-run_test name a t s d = elim (Bool-cases (is_active t.client_id)) [
    | inl e ↦ rw (run_test-clients a t s, e) refl
    | inr e ↦ rw (run_test-clients a t s, e) (get-remove_client name t.client_id s.clients d)
  ]

  get-run_tests :
      (name : String) (ts : MadeTests) (s : Master)
      → Distinct s.clients
      → get_client_id name (run_tests ts s).clients ≡ kept ts (get_client_id name s.clients)
  get-run_tests name [] s d = elim (Option-cases (get_client_id name s.clients)) [
    | inl e ↦ rw (e) refl
    | inr (id, e) ↦ rw (e) refl
  ]
  get-run_tests name ((a, t) ∷ ts) s d =
      get-run_tests name ts (run_test (a, t) s) (run_test-Distinct a t s d)
      ∙ (ap (kept ts) (get-run_test name a t s d) ∙ kept_one a t ts (get_client_id name s.clients))

  -- What the test of every client leaves of an answer of the client map.
  abbrev pub keep_active : Option ℕ → Option ℕ
  keep_active none = none
  keep_active (some id) = if is_active id then some id else none

has_client-get :
    (name : String) (id : ℕ) (m : ClientIdMap)
    → get_client_id name m ≡ some id
    → has_client id m ≡ true
unfolding get_client_id
has_client-get name id [] e = absurd (ground arith)
has_client-get name id ((n, i) ∷ m) e = elim (Bool-cases (str_eq n name)) [
  | inl same ↦ ground arith
  | inr other ↦ ground (arith, has_client-get name id m)
]

start_tests-clients :
    (next : ℕ) (m : ClientIdMap) (s : Master) (t : TestClients)
    → (start_tests next m s t).0.clients ≡ s.clients
unfolding start_tests post
start_tests-clients next [] s t = refl
start_tests-clients next ((n, i) ∷ m) s t =
    start_tests-clients (next + 1) m (post (starts next) s)
      (record { activities = t.activities ++ (next ∷ []) })

start_tests-is_tested :
    (id next : ℕ) (m : ClientIdMap) (s : Master) (t : TestClients)
    → is_tested id (start_tests next m s t).2 ≡ has_client id m
unfolding start_tests post
start_tests-is_tested id next [] s t = refl
start_tests-is_tested id next ((n, i) ∷ m) s t =
    ap (λ (x : Bool). (i == id) || x)
      (start_tests-is_tested id (next + 1) m (post (starts next) s)
        (record { activities = t.activities ++ (next ∷ []) }))

test_clients_start-clients :
    (a next : ℕ) (s : Master) (t : TestClients)
    → (test_clients_start a next s t).0.clients ≡ s.clients
unfolding test_clients_start post
test_clients_start-clients a next s t =
    let same = start_tests-clients next s.clients s t in
    elim (Bool-cases (is_empty (start_tests next s.clients s t).1.activities)) [
      | inl e ↦ rw (e) same
      | inr e ↦ rw (e) same
    ]

test_clients_start-is_tested :
    (a next id : ℕ) (s : Master) (t : TestClients)
    → is_tested id (test_clients_start a next s t).2 ≡ has_client id s.clients
unfolding test_clients_start
test_clients_start-is_tested a next id s t = start_tests-is_tested id next s.clients s t

kept-keep_active :
    (delivers alive : ℕ → Bool) (ts : MadeTests) (x : Option ℕ)
    → ((id : ℕ) → x ≡ some id → is_tested id ts ≡ true)
    → kept delivers alive ts x ≡ keep_active delivers alive x
kept-keep_active delivers alive ts none all = refl
kept-keep_active delivers alive ts (some id) all =
    let tested = all id refl in
    elim (Bool-cases (is_active delivers alive id)) [
      | inl e ↦ rw (tested, e) refl
      | inr e ↦ rw (tested, e) refl
    ]

-- The master tests its clients, which have no name twice; then the tests that it has made run one
-- after the other, in any order and with others among them, where each client that its message reaches answers. After
-- that the client map answers a name with the client that it had before if that client was reached
-- and is alive, and with nothing if not.
pub test_clients_drop_inactive :
    (delivers alive : ℕ → Bool) (a next : ℕ) (s : Master) (t : TestClients) (ts : MadeTests)
    (name : String)
    → Distinct s.clients
    → ((id : ℕ) → is_tested id (test_clients_start a next s t).2 ≡ true → is_tested id ts ≡ true)
    → get_client_id name (run_tests delivers alive ts (test_clients_start a next s t).0).clients
      ≡ keep_active delivers alive (get_client_id name s.clients)
test_clients_drop_inactive delivers alive a next s t ts name d all =
    let same = test_clients_start-clients a next s t in
    get-run_tests delivers alive name ts (test_clients_start a next s t).0 (rw (same) d)
    ∙ (ap (λ (m : ClientIdMap). kept delivers alive ts (get_client_id name m)) same
        ∙ kept-keep_active delivers alive ts (get_client_id name s.clients) (λ id e.
          all id (test_clients_start-is_tested a next id s t ∙ has_client-get name id s.clients e)))
