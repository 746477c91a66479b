-- ===== src/Master/Enroll.antt =====
-- TestClientActivity and EnrollActivity of src/master/activities.cpp. A client that asks for a name
-- that is taken makes the master test whether the client that has it is alive.
use megastructure.Common.{
  ℕ, Bool, true, false, List, [], ◌∷◌, Option, none, some, String, ◌==◌, if◌then◌else◌,
}
use megastructure.Protocol.{Message}
use megastructure.Protocol.Helpers.{mss_enroll, mss_enroll_result}
use megastructure.Master.Clients.{get_client_id}
use megastructure.Master.State.{Master, post, remove_client, enroll, send, send_or_remove}
use megastructure.Queue.{starts, completes}

pub record TestClient : Type 0 where
  pub client_id : ℕ
  pub slave_name : String
  pub success : Bool

-- `tests_map` has for the number of a test the client that waits for it.
pub record Enroller : Type 0 where
  pub tests_map : List (ℕ × ℕ)

abbrev pub find_test : ℕ → List (ℕ × ℕ) → Option ℕ
find_test a [] = none
find_test a ((b, client) ∷ m) = if b == a then some client else find_test a m

unfoldable pub erase_test : ℕ → List (ℕ × ℕ) → List (ℕ × ℕ)
erase_test a [] = []
erase_test a ((b, client) ∷ m) =
    let rest = erase_test a m in if b == a then m else (b, client) ∷ rest

module _ (delivers : ℕ → Bool) where
  -- TestClientActivity::start of the activity `a`.
  unfoldable pub test_start : ℕ → TestClient → Master → Master
  unfolding send remove_client post
  test_start a t s =
      let (s', sent) = send delivers (Message.msq_alive t.slave_name) t.client_id s in
      if sent then s' else post (completes a) (remove_client t.client_id s')

  unfoldable pub test_answer : ℕ → Bool → TestClient → Master → TestClient × Master
  unfolding remove_client post
  test_answer a true t s = (record t { success = true }, post (completes a) s)
  test_answer a false t s = (t, post (completes a) (remove_client t.client_id s))

  -- TestClientActivity::clientMessage
  unfoldable pub test_client_message :
      ℕ → ℕ → Message → TestClient → Master → (TestClient × Master) × Bool
  unfolding test_answer
  test_client_message a source (Message.sms_alive success) t s =
      if t.client_id == source then (test_answer a success t s, true) else ((t, s), false)
  test_client_message a source _ t s = ((t, s), false)

  -- A name that is not free is tested; `test` is the number of the new test. The last part of the
  -- result is the test that was made.
  unfoldable pub enroll_taken :
      ℕ → ℕ → String → Master → Enroller → Master × Enroller × Option TestClient
  unfolding get_client_id post send_or_remove
  enroll_taken test source name s e = elim (get_client_id name s.clients) [
    | some existing ↦ (
      post (starts test) s,
      record { tests_map = (test, source) ∷ e.tests_map },
      some (record { client_id = existing; slave_name = name; success = false }),
    )
    | none ↦ (send_or_remove delivers (mss_enroll_result false) source s, e, none)
  ]

  -- EnrollActivity::clientMessage for an enrolment; it consumes the message.
  unfoldable pub enroll_client_message :
      ℕ → ℕ → String → Master → Enroller → Master × Enroller × Option TestClient
  unfolding enroll enroll_taken send_or_remove
  enroll_client_message test source name s e =
      let (s', success) = enroll name source s in
      elim success [
        | true ↦
            (send_or_remove delivers (mss_enroll true s'.active_program_name) source s', e, none)
        | false ↦ enroll_taken test source name s' e
      ]

  -- The tested client is not alive.
  unfoldable pub enroll_again : TestClient → ℕ → Master → Master
  unfolding enroll send_or_remove
  enroll_again t client s =
      let (s', success) = enroll t.slave_name client s in
      elim success [
        | true ↦ send_or_remove delivers (mss_enroll true s'.active_program_name) client s'
        | false ↦ send_or_remove delivers (mss_enroll_result false) client s'
      ]

  -- EnrollActivity::activityComplete for the test `t` with the number `a`.
  unfoldable pub enroll_activity_complete :
      ℕ → TestClient → Master → Enroller → (Master × Enroller) × Bool
  unfolding enroll_again send_or_remove erase_test
  enroll_activity_complete a t s e = elim (find_test a e.tests_map) [
    | none ↦ ((s, e), false)
    | some client ↦ (
      (
        if t.success
            then send_or_remove delivers (mss_enroll_result false) client s
            else enroll_again t client s,
        record { tests_map = erase_test a e.tests_map },
      ),
      true,
    )
  ]
