-- ===== src/Mobile/Identity/Machine/Crash.antt =====
-- rotate and wipe of apps/mobile/src/identity/identity-machine.ts, cut off after any of their writes.
use aesmsg.Prelude.{
  ℕ, zero, suc, ◌≡◌, ◌≤◌, refl, ap, ◌∙◌, false, some, List, ◌∷◌, Text, arith, take, take-nil, leb,
  le→leb, text_eq, if◌then◌else◌,
}
use aesmsg.Mobile.Identity.Bundle.{
  JsonRuntime, blob_json, prepend_retired, retired_excluding_active, parse_retired_keys,
  serialize_retired_keys,
}
use aesmsg.Mobile.Identity.Bundle.Unique.{
  AreFinite, dedupe_retired_idem, exclude-prepend_retired, exclude_fresh-prepend_retired,
  parse-serialize_retired_keys, dedupe-parse_retired_keys,
}
use aesmsg.Mobile.Identity.Machine.{
  IdentityCrypto, Device, Write, apply_all, unlocked, no_identity, Plan, unwrap_all, unlock, rotate,
  rotate_plan, Rotation, retired_entry, new_retired, wipe,
}
use aesmsg.Mobile.Identity.Machine.Unlock.{entries_of, Opens, unlock-Opens, Opens-unlock}

module _ (J : JsonRuntime) (C : IdentityCrypto) where
  -- What a rotation relies on: no retired entry, nor the active one, has the new public key, and the
  -- runtime writes the new blob faithfully.
  pub record IsFresh (r : Rotation J C) (d : Device) (secret : Text) (old : C.Keypair) (pk : Text)
      : Type 0 where
    pub new_key :
        retired_excluding_active (entries_of J C d) (C.export_public_key r.new_identity)
        ≡ entries_of J C d
    pub other_key : text_eq pk (C.export_public_key r.new_identity) ≡ false
    pub finite : AreFinite J (new_retired J C r d secret old pk)
    pub plain : J.IsPlain (blob_json (new_retired J C r d secret old pk))

  module _ (r : Rotation J C) (d : Device) (old : C.Keypair) (pk : Text) (prior : List C.Keypair)
      (o : Opens J C d old pk prior) (fresh : IsFresh r d o.secret old pk) where
    abbrev blob : Text
    blob = serialize_retired_keys J (new_retired J C r d o.secret old pk)

    -- The blob reads back as the list that was written.
    blob_entries : parse_retired_keys J (some blob) ≡ new_retired J C r d o.secret old pk
    unfolding prepend_retired
    blob_entries =
        parse-serialize_retired_keys J (new_retired J C r d o.secret old pk) fresh.finite
          fresh.plain
        ∙ dedupe_retired_idem (retired_entry J C r o.secret old pk ∷ entries_of J C d)

    between-Opens : Opens J C (record d { retired_identities = some blob }) old pk prior
    between-Opens = record {
      wrapped = o.wrapped;
      secret = o.secret;
      has_wrapped = o.has_wrapped;
      has_secret = o.has_secret;
      opens = o.opens;
      is_public = o.is_public;
      has_retired =
          ap (λ l. unwrap_all J C o.secret (retired_excluding_active l pk)) blob_entries
          ∙ ap (unwrap_all J C o.secret) (
              exclude-prepend_retired (entries_of J C d) (retired_entry J C r o.secret old pk)
                (dedupe-parse_retired_keys J d.retired_identities))
          ∙ o.has_retired;
    }

    unwrap_all-retired :
        unwrap_all J C o.secret
          (retired_entry J C r o.secret old pk ∷ retired_excluding_active (entries_of J C d) pk)
        ≡ old ∷ prior
    unfolding unwrap_all
    unwrap_all-retired =
        rw (unwrap_all, C.unwrap-wrap r.old_draw old o.secret) (ap (λ l. old ∷ l) o.has_retired)

    abbrev new_wrapped : Text
    new_wrapped = C.wrap_private_key r.new_draw r.new_identity o.secret

    rotated-Opens :
        Opens J C
          (record d { retired_identities = some blob; wrapped_identity = some new_wrapped })
          r.new_identity
          (C.export_public_key r.new_identity)
          (old ∷ prior)
    rotated-Opens = record {
      wrapped = new_wrapped;
      secret = o.secret;
      has_wrapped = refl;
      has_secret = o.has_secret;
      opens = C.unwrap-wrap r.new_draw r.new_identity o.secret;
      is_public = refl;
      has_retired =
          ap
            (λ l.
              unwrap_all J C o.secret
                (retired_excluding_active l (C.export_public_key r.new_identity)))
            blob_entries
          ∙ ap (unwrap_all J C o.secret) (
              exclude_fresh-prepend_retired (entries_of J C d) (retired_entry J C r o.secret old pk)
                (C.export_public_key r.new_identity)
                (dedupe-parse_retired_keys J d.retired_identities) fresh.new_key fresh.other_key)
          ∙ unwrap_all-retired;
    }

    cut_off :
        (k : ℕ)
        → unlock J C (apply_all (take k (rotate_plan J C r d o.secret old pk prior).writes) d)
          ≡ some (
              if leb 2 k
              then (rotate_plan J C r d o.secret old pk prior).next
              else unlocked old pk prior)
    unfolding apply_all
    cut_off zero = Opens-unlock J C d old pk prior o
    cut_off (suc zero) = Opens-unlock J C _ old pk prior between-Opens
    cut_off (suc (suc k)) =
        rw (take-nil {A = Write} k, le→leb 2 (suc (suc k)) (omega arith))
          (Opens-unlock J C _ r.new_identity (C.export_public_key r.new_identity) (old ∷ prior)
            rotated-Opens)

  same_secret :
      (d : Device) (key : C.Keypair) (pk : Text) (prior : List C.Keypair) (secret : Text)
      → (o : Opens J C d key pk prior) → d.device_secret ≡ some secret
      → o.secret ≡ secret
  same_secret d key pk prior secret o e = cc (o.has_secret, e)

  -- A rotation is carried out or has changed nothing: from a device that unlocks to the state in memory,
  -- with a new key that no entry has, after any number of the rotation's writes the device unlocks to
  -- the state before the rotation while one of them is missing, and to the state after it once both are
  -- done.
  pub rotate-crash :
      (r : Rotation J C) (d : Device) (old : C.Keypair) (pk : Text) (prior : List C.Keypair)
      (secret : Text) (plan : Plan J C) (k : ℕ)
      → unlock J C d ≡ some (unlocked old pk prior)
      → d.device_secret ≡ some secret
      → IsFresh r d secret old pk
      → rotate J C r d (unlocked old pk prior) ≡ some plan
      → unlock J C (apply_all (take k plan.writes) d)
        ≡ some (if leb 2 k then plan.next else unlocked old pk prior)
  unfolding rotate
  rotate-crash r d old pk prior secret plan k u s fresh e =
      let o = unlock-Opens J C d old pk prior u in
      let same = same_secret d old pk prior secret o s in
      let planned : rotate_plan J C r d o.secret old pk prior ≡ plan = cc (s, same, e) in
      rw (← planned) (cut_off r d old pk prior o (rw (← same) at fresh) k)

  -- Once the first write of a wipe is done, no device unlocks to a key, however many writes follow.
  pub wipe-unlock :
      (d : Device) (k : ℕ)
      → 1 ≤ k
      → unlock J C (apply_all (take k (wipe J C).writes) d) ≡ some no_identity
  unfolding wipe apply_all unlock
  wipe-unlock d zero h = absurd (omega (arith, h))
  wipe-unlock d (suc zero) h = refl
  wipe-unlock d (suc (suc zero)) h = refl
  wipe-unlock d (suc (suc (suc zero))) h = refl
  wipe-unlock d (suc (suc (suc (suc k)))) h = rw (take-nil {A = Write} k) refl
