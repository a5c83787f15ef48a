-- ===== src/Mobile/Reader/Errors.antt =====
-- apps/mobile/src/reader/reader-error.ts, reader-machine.ts and decrypt-gate.ts, and
-- apps/mobile/src/links/revoke-outcome.ts: which screen an error leads to.
use aesmsg.Prelude.{ℕ, ◌≡◌, ◌≢◌, ◌↔◌, ◌⊎◌, Bool, true, false, ◌||◌, if◌then◌else◌, ◌==◌, arith}

-- What is thrown: an ApiError with its status, an error by its name, or another value.
pub data Thrown : Type 0 where
  api_error : ℕ → Thrown
  decryption_error bad_passphrase_error : Thrown
  other_error : Thrown

pub data OpenFailureKind : Type 0 where
  is_gone is_failed : OpenFailureKind

pub data ReaderErrorOutcome : Type 0 where
  gone invalid network failed already_opened : ReaderErrorOutcome

unfoldable pub classify_open_error : Thrown → OpenFailureKind
classify_open_error (api_error status) = if status == 410 then is_gone else is_failed
classify_open_error _ = is_failed

unfoldable pub is_decryption_failure : Thrown → Bool
is_decryption_failure decryption_error = true
is_decryption_failure bad_passphrase_error = true
is_decryption_failure _ = false

abbrev api_outcome : Thrown → ReaderErrorOutcome
api_outcome (api_error status) =
    if (status == 410) || (status == 404)
    then gone
    else (if status == 400 then invalid else network)
api_outcome _ = network

unfoldable pub classify_reader_error : Thrown → ReaderErrorOutcome
unfolding is_decryption_failure
classify_reader_error e = if is_decryption_failure e then failed else api_outcome e

-- isAlreadyGone of revoke-outcome.ts.
unfoldable pub is_already_gone : Thrown → Bool
is_already_gone (api_error status) = (status == 404) || (status == 410)
is_already_gone _ = false

pub data DecryptGateDecision : Type 0 where
  skips prompts unavailable : DecryptGateDecision

unfoldable pub decide_decrypt_gate : Bool → Bool → DecryptGateDecision
decide_decrypt_gate require_unlock capable =
    if require_unlock then (if capable then prompts else unavailable) else skips

-- An error says that a link is gone exactly where a revoke would take it as gone already, so that the
-- statuses 404 and 410 are told apart by nobody; it says that a message does not decrypt exactly
-- where decrypting failed; it never says that a message was opened already; and what the older
-- classifier calls gone, this one does.
pub classify_reader_error_lem :
    (e : Thrown)
    → ((classify_reader_error e ≡ gone) ↔ (is_already_gone e ≡ true))
      × ((classify_reader_error e ≡ failed) ↔ (is_decryption_failure e ≡ true))
      × (classify_reader_error e ≢ already_opened)
      × ((classify_open_error e ≡ is_failed) ⊎ (classify_reader_error e ≡ gone))
unfolding classify_reader_error is_already_gone is_decryption_failure classify_open_error
classify_reader_error_lem (api_error status) = ground arith
classify_reader_error_lem decryption_error = ground arith
classify_reader_error_lem bad_passphrase_error = ground arith
classify_reader_error_lem other_error = ground arith
