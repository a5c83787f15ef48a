-- ===== src/Tests/Identity.antt =====
-- The theorems on the app's identity, on a device that rotates its first key.
use aesmsg.Prelude.{
  ◌≡◌, refl, sym, ap, true, false, none, some, [], ◌∷◌, Text, codes, text_eq, arith, take,
  if◌then◌else◌,
}
use aesmsg.Link.{pos}
use aesmsg.Api.{Json, integer}
use aesmsg.Mobile.Identity.Bundle.{
  JsonRuntime, RetiredKeyEntry, blob_json, dedupe_from, dedupe_retired, prepend_retired, has_key,
  parse_retired_keys, retired_excluding_active,
}
use aesmsg.Mobile.Identity.Machine.{
  IdentityCrypto, Device, IdentityState, unlocked, loading, Plan, unlock, unwrap_all, rotate,
  rotate_plan, Rotation, apply_all,
}
use aesmsg.Mobile.Identity.Machine.Crash.{IsFresh, rotate-crash}
use aesmsg.Mobile.Identity.Machine.Reachable.{
  World, at_start, next, unlocks, rotates, completed, IsSafe,
}
use aesmsg.Mobile.Identity.Machine.Synced.{Reachable-IsSafe}
use aesmsg.Mobile.Identity.Decrypt.{
  Attempt, opened, decryption_error, decrypt_with_key_fallback, all_private_keys_for_decrypt,
  rotate-decrypt,
}
use aesmsg.Mobile.Identity.IdleLock.{begins, waits, fires, tick, reset, init, IsTimed, Run-IsTimed}

abbrev old_key : Text
old_key = codes "old"

abbrev new_key : Text
new_key = codes "new"

abbrev old_entry : RetiredKeyEntry
old_entry = record {
  wrapped = old_key;
  public_key_string = old_key;
  fingerprint = old_key;
  retired_at_ms = integer (pos 5);
}

-- A runtime that knows one value.
abbrev runtime_of : Json → JsonRuntime
runtime_of j = record {
  parse = λ raw. elim raw [ [] ↦ none | c ∷ cs ↦ some j ];
  stringify = λ x. codes "{}";
  IsPlain = λ x. x ≡ j;
  parse-stringify = λ x h. ap some (sym h);
  parse_nil = refl;
  is_finite = λ x. true;
}

abbrev runtime : JsonRuntime
runtime = runtime_of (blob_json (old_entry ∷ []))

-- A key pair is its text, which wrapping leaves as it is.
abbrev crypto : IdentityCrypto
crypto = record {
  Keypair = Text;
  wrap_private_key = λ draw key secret. key;
  unwrap_private_key = λ wrapped secret. some wrapped;
  unwrap-wrap = λ draw key secret. refl;
  export_public_key = λ key. key;
  fingerprint = λ pk. pk;
  needs_rewrap = λ wrapped. some false;
}

abbrev device : Device
device = record {
  wrapped_identity = some old_key;
  retired_identities = none;
  device_secret = some (codes "secret");
  has_storage = true;
}

abbrev rotation : Rotation runtime crypto
rotation = record { old_draw = 1; new_draw = 2; new_identity = new_key; now = integer (pos 5) }

abbrev before : IdentityState runtime crypto
before = unlocked old_key old_key []

abbrev plan : Plan runtime crypto
plan = rotate_plan runtime crypto rotation device (codes "secret") old_key old_key []

device-unlock : unlock runtime crypto device ≡ some before
unfolding unlock unwrap_all parse_retired_keys retired_excluding_active
device-unlock = refl

rotation-plan : rotate runtime crypto rotation device before ≡ some plan
unfolding rotate
rotation-plan = refl

rotation-IsFresh : IsFresh runtime crypto rotation device (codes "secret") old_key old_key
unfolding parse_retired_keys retired_excluding_active prepend_retired dedupe_retired dedupe_from
    has_key text_eq
rotation-IsFresh = record { new_key = refl; other_key = refl; finite = (refl, tt); plain = refl }

rotate-crash_example : unlock runtime crypto (apply_all (take 1 plan.writes) device) ≡ some before
rotate-crash_example =
    rotate-crash runtime crypto rotation device old_key old_key [] (codes "secret") plan 1
      device-unlock refl rotation-IsFresh rotation-plan

abbrev start : World runtime crypto
start = record { device = device; memory = loading; undisturbed = true }

abbrev ready : World runtime crypto
ready = record { device = device; memory = before; undisturbed = true }

Reachable-IsSafe_example : IsSafe runtime crypto (completed runtime crypto plan ready)
Reachable-IsSafe_example = Reachable-IsSafe runtime crypto (
    next (next (at_start device) (unlocks start before device-unlock)) (
      rotates ready rotation old_key old_key (codes "secret") [] plan refl refl rotation-IsFresh
        rotation-plan))

-- A message that was sealed for the old key.
abbrev attempt : Text → Attempt Text
attempt key = if text_eq key old_key then opened key else decryption_error

new_key-attempt : attempt new_key ≡ decryption_error
unfolding text_eq
new_key-attempt = refl

rotate-decrypt_example :
    decrypt_with_key_fallback (all_private_keys_for_decrypt runtime crypto plan.next) attempt
    ≡ decrypt_with_key_fallback (all_private_keys_for_decrypt runtime crypto before) attempt
rotate-decrypt_example =
    rotate-decrypt runtime crypto rotation device before plan attempt rotation-plan new_key-attempt

first_due : (reset 60 0 init).handle ≡ some 60
unfolding reset
first_due = refl

Run-IsTimed_example : IsTimed 60 70 0 (tick 70 (reset 60 0 init))
Run-IsTimed_example =
    Run-IsTimed (fires 60 first_due (omega arith) (waits 70 (omega arith) (begins 0)))
