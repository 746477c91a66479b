-- ===== src/Master/Contest.antt =====
-- What becomes of a client that asks for a name that another client has.
use megastructure.Common.{
  ℕ, ◌≡◌, Bool, true, false, [], ◌∷◌, ◌++◌, none, some, String, arith, ==_refl,
}
use megastructure.Protocol.{Message}
use megastructure.Protocol.Helpers.{mss_enroll_result}
use megastructure.Master.Clients.{ClientIdMap, get_client_id}
use megastructure.Master.Clients
use megastructure.Master.State.{Master, post, enroll, send, send_or_remove}
use megastructure.Queue.{starts, completes}
use megastructure.Master.Enroll.{
  Enroller, erase_test, test_start, test_answer, test_client_message, enroll_taken,
  enroll_client_message, enroll_activity_complete,
}

abbrev always : ℕ → Bool
always id = true

-- The enrolment of `source` under a name that is taken, the start of the test that it made, the
-- answer of the client `existing`, and the completion of the test.
abbrev pub contest : ℕ → ℕ → Bool → String → ℕ → Master → Enroller → Master × Enroller
contest test source alive name existing s e =
    let (s₁, e₁, made) = enroll_client_message always test source name s e in
    elim made [
      | none ↦ (s₁, e₁)
      | some t ↦
          let s₂ = test_start always test t s₁ in
          let (t', s₃) =
            (test_client_message always test existing (Message.sms_alive alive) t s₂).0 in
          (enroll_activity_complete always test t' s₃ e₁).0
    ]

-- If the client that has the name answers that it is alive, then the new client is refused, no
-- client changes, and the activity waits for the same tests as before.
pub contest_alive :
    (test source : ℕ) (name : String) (existing : ℕ) (s : Master) (e : Enroller)
    → get_client_id name s.clients ≡ some existing
    → contest test source true name existing s e ≡ (
      record s {
        sent =
            (s.sent ++ ((existing, Message.msq_alive name) ∷ []))
            ++ ((source, mss_enroll_result false) ∷ []);
        posted = (s.posted ++ (starts test ∷ [])) ++ (completes test ∷ []);
      },
      e,
    )
unfolding enroll_client_message enroll_taken test_start test_client_message test_answer
    enroll_activity_complete erase_test send send_or_remove post enroll Clients.enroll
contest_alive test source name existing s e h = ground (arith, h, ==_refl existing, ==_refl test)
