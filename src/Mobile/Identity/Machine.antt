-- ===== src/Mobile/Identity/Machine.antt =====
-- apps/mobile/src/identity/identity-machine.ts over the storage of secure-store.ts and
-- device-secret.ts. An action reads, then writes item by item, then moves the state in memory: it is a
-- plan of writes and the state after them. A write that rejects, or a crash, ends a plan early.
pub mod Unlock
pub mod Crash
pub mod Reachable
pub mod Synced
use aesmsg.Prelude.{
  ℕ, Bool, true, false, not, ◌≡◌, Option, none, some, List, [], ◌∷◌, Text, if◌then◌else◌,
}
use aesmsg.Link.{is_some}
use aesmsg.Api.{JsonNumber}
use aesmsg.Mobile.Identity.Bundle.{
  JsonRuntime, RetiredKeyEntry, parse_retired_keys, serialize_retired_keys, prepend_retired,
  retired_excluding_active,
}

-- `@aesmsg/crypto` as the machine uses it. Wrapping draws a salt and a nonce, the first argument.
-- `unwrapPrivateKey` is `none` where it throws, and undoes `wrapPrivateKey` under the same secret.
pub record IdentityCrypto : Type 1 where
  pub Keypair : Type 0
  pub wrap_private_key : ℕ → Keypair → Text → Text
  pub unwrap_private_key : Text → Text → Option Keypair
  pub unwrap-wrap :
      (draw : ℕ) (key : Keypair) (secret : Text)
      → unwrap_private_key (wrap_private_key draw key secret) secret ≡ some key
  pub export_public_key : Keypair → Text
  pub fingerprint : Text → Text
  -- `none` where it throws.
  pub needs_rewrap : Text → Option Bool

-- What the key store holds: the wrapped identity, the blob of retired keys, the device secret, and
-- whether there are encrypted blobs.
pub record Device : Type 0 where
  pub wrapped_identity : Option Text
  pub retired_identities : Option Text
  pub device_secret : Option Text
  pub has_storage : Bool

-- A call that changes the store; each of them is atomic.
pub data Write : Type 0 where
  save_wrapped_identity save_retired_keys create_device_secret : Text → Write
  delete_wrapped_identity delete_retired_keys delete_device_secret wipe_storage : Write

unfoldable pub apply : Write → Device → Device
apply (save_wrapped_identity w) d = record d { wrapped_identity = some w }
apply (save_retired_keys blob) d = record d { retired_identities = some blob }
apply (create_device_secret s) d = record d { device_secret = some s }
apply delete_wrapped_identity d = record d { wrapped_identity = none }
apply delete_retired_keys d = record d { retired_identities = none }
apply delete_device_secret d = record d { device_secret = none }
apply wipe_storage d = record d { has_storage = false }

unfoldable pub apply_all : List Write → Device → Device
unfolding apply
apply_all [] d = d
apply_all (w ∷ ws) d = apply_all ws (apply w d)

module _ (J : JsonRuntime) (C : IdentityCrypto) where
  pub data IdentityState : Type 0 where
    loading no_identity locked : IdentityState
    unlocked : C.Keypair → Text → List C.Keypair → IdentityState

  -- The writes of an action and the state that it sets; a plan that is `none` throws before it writes.
  pub record Plan : Type 0 where
    pub writes : List Write
    pub next : IdentityState

  unfoldable pub init : Device → Plan
  init d = record {
    writes = [];
    next = (if is_some d.wrapped_identity then locked else no_identity);
  }

  abbrev pub persist_and_unlock : ℕ → Text → C.Keypair → Plan
  persist_and_unlock draw secret key = record {
    writes =
        create_device_secret secret
        ∷ save_wrapped_identity (C.wrap_private_key draw key secret)
        ∷ [];
    next = unlocked key (C.export_public_key key) [];
  }

  -- setupNew with the key pair that was generated, and importIdentity.
  unfoldable pub setup_new : ℕ → Text → C.Keypair → IdentityState → Option Plan
  setup_new draw secret key no_identity = some (persist_and_unlock draw secret key)
  setup_new draw secret key _ = none

  -- The retired keys that open under the secret; an entry that does not is skipped.
  unfoldable pub unwrap_all : Text → List RetiredKeyEntry → List C.Keypair
  unwrap_all secret [] = []
  unwrap_all secret (e ∷ es) =
      let rest = unwrap_all secret es in
      elim (C.unwrap_private_key e.wrapped secret) [ none ↦ rest | some key ↦ key ∷ rest ]

  abbrev pub unlocked_with : Device → Text → C.Keypair → IdentityState
  unlocked_with d secret key = unlocked key (C.export_public_key key) (
      unwrap_all secret (
        retired_excluding_active (parse_retired_keys J d.retired_identities)
          (C.export_public_key key)))

  abbrev pub unlock_key : Device → Text → Option C.Keypair → Option IdentityState
  unlock_key d secret none = none
  unlock_key d secret (some key) = some (unlocked_with d secret key)

  -- `none` is the rejection of the biometric gate, or of a wrapped identity that does not open.
  abbrev pub unlock_secret : Device → Text → Option Text → Option IdentityState
  unlock_secret d w none = none
  unlock_secret d w (some secret) = unlock_key d secret (C.unwrap_private_key w secret)

  abbrev pub unlock_wrapped : Device → Option Text → Option IdentityState
  unlock_wrapped d none = some no_identity
  unlock_wrapped d (some w) = unlock_secret d w d.device_secret

  -- unlock up to the state that it sets.
  unfoldable pub unlock : Device → Option IdentityState
  unfolding unwrap_all parse_retired_keys retired_excluding_active
  unlock d = unlock_wrapped d d.wrapped_identity

  -- The tail of unlock: the writes that migrate a heavily wrapped identity, if it needs that and the
  -- state is still unlocked.
  unfoldable pub migrate : ℕ → Text → Text → C.Keypair → IdentityState → List Write
  migrate draw wrapped secret key (unlocked k pk rs) = elim (C.needs_rewrap wrapped) [
    | some true ↦ save_wrapped_identity (C.wrap_private_key draw key secret) ∷ []
    | _ ↦ []
  ]
  migrate draw wrapped secret key _ = []

  unfoldable pub lock : IdentityState → IdentityState
  lock (unlocked key pk retired) = locked
  lock s = s

  unfoldable pub wipe : Plan
  wipe = record {
    writes =
        delete_wrapped_identity ∷ delete_retired_keys ∷ delete_device_secret ∷ wipe_storage ∷ [];
    next = no_identity;
  }

  -- What rotate draws and reads besides the store: two draws for wrapping, the new key pair, the time.
  pub record Rotation : Type 0 where
    pub old_draw : ℕ
    pub new_draw : ℕ
    pub new_identity : C.Keypair
    pub now : JsonNumber

  abbrev pub retired_entry : Rotation → Text → C.Keypair → Text → RetiredKeyEntry
  retired_entry r secret old old_pk = record {
    wrapped = C.wrap_private_key r.old_draw old secret;
    public_key_string = old_pk;
    fingerprint = C.fingerprint old_pk;
    retired_at_ms = r.now;
  }

  abbrev pub new_retired : Rotation → Device → Text → C.Keypair → Text → List RetiredKeyEntry
  new_retired r d secret old old_pk =
      prepend_retired (parse_retired_keys J d.retired_identities)
        (retired_entry r secret old old_pk)

  abbrev pub rotate_plan : Rotation → Device → Text → C.Keypair → Text → List C.Keypair → Plan
  rotate_plan r d secret old old_pk prior = record {
    writes =
        save_retired_keys (serialize_retired_keys J (new_retired r d secret old old_pk))
        ∷ save_wrapped_identity (C.wrap_private_key r.new_draw r.new_identity secret)
        ∷ [];
    next = unlocked r.new_identity (C.export_public_key r.new_identity) (old ∷ prior);
  }

  abbrev pub rotate_secret :
      Rotation → Device → Option Text → C.Keypair → Text → List C.Keypair → Option Plan
  rotate_secret r d none old old_pk prior = none
  rotate_secret r d (some secret) old old_pk prior = some (rotate_plan r d secret old old_pk prior)

  unfoldable pub rotate : Rotation → Device → IdentityState → Option Plan
  unfolding prepend_retired parse_retired_keys serialize_retired_keys
  rotate r d (unlocked old old_pk prior) = rotate_secret r d d.device_secret old old_pk prior
  rotate r d _ = none
