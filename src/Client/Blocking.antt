-- ===== src/Client/Blocking.antt =====
-- A program whose request is answered by an error.
use megastructure.Common.{ℕ, ◌≡◌, refl, List, [], ◌∷◌, arith}
use megastructure.Protocol.{Content, ErrorReply, EgMsg, Message}
use megastructure.Client.Program.{
  Arrival, Outcome, Program, await_response, eg_request, sendeg, lock, readlock, writelock, read,
}

-- Only errors arrive.
abbrev pub AllErrors : List Arrival → Type 0
AllErrors [] = Unit {0}
AllErrors (a ∷ rest) =
    ((m : EgMsg) × (e : ErrorReply) × (a ≡ Arrival.received (Message.eg_msg m))
      × (m.content ≡ Content.error e))
    × AllErrors rest

await-AllErrors : (inbox : List Arrival) → AllErrors inbox → await_response inbox ≡ Outcome.blocked
unfolding await_response
await-AllErrors [] errors = refl
await-AllErrors (a ∷ rest) ((m, e, arrives, content), errors) =
    let later = await-AllErrors rest errors in rw (arrives, await_response, content) later

-- A program that is answered only by errors waits for ever in each of its three requests, however
-- many errors come: it neither returns nor throws.
pub errors_block :
    (type instance_id timestamp : ℕ) (p : Program)
    → AllErrors p.inbox
    → (readlock type timestamp p ≡ Outcome.blocked)
      × (writelock type timestamp p ≡ Outcome.blocked)
      × (read type instance_id timestamp p ≡ Outcome.blocked)
unfolding readlock writelock lock read sendeg eg_request
errors_block type instance_id timestamp p errors =
    let waits = await-AllErrors p.inbox errors in (ground arith, ground arith, ground arith)
