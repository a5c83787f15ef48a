-- ===== src/Mobile/Identity/Decrypt.antt =====
-- apps/mobile/src/identity/decrypt-keys.ts: decrypting with the active key, then the retired ones.
use aesmsg.Prelude.{◌≡◌, refl, some, List, [], ◌∷◌, ◌++◌, Text, All, Option-cases, inl, inr}
use aesmsg.Mobile.Identity.Bundle.{JsonRuntime}
use aesmsg.Mobile.Identity.Machine.{
  IdentityCrypto, Device, IdentityState, loading, no_identity, locked, unlocked, Plan, Rotation,
  rotate,
}
use aesmsg.Mobile.Identity.Machine.Synced.{rotate_lem}

-- How an attempt ends: with a value, with a DecryptionError, or with another error.
pub data Attempt {ℓ} (T : Type ℓ) : Type ℓ where
  opened : T → Attempt T
  decryption_error : Attempt T
  other_error : Text → Attempt T

module _ {ℓ} {K : Type 0} {T : Type ℓ} where
  unfoldable pub decrypt_with_key_fallback : List K → (K → Attempt T) → Attempt T
  decrypt_with_key_fallback [] attempt = decryption_error
  decrypt_with_key_fallback (key ∷ keys) attempt =
      let rest = decrypt_with_key_fallback keys attempt in
      elim (attempt key) [
        | opened t ↦ opened t
        | decryption_error ↦ rest
        | other_error e ↦ other_error e
      ]

  -- The keys before the first one that does not end with a DecryptionError make no difference, nor do
  -- the keys after it.
  pub decrypt_with_key_fallback-append :
      (before after : List K) (key : K) (attempt : K → Attempt T) (t : T)
      → All (λ k. attempt k ≡ decryption_error) before
      → attempt key ≡ opened t
      → decrypt_with_key_fallback (before ++ (key ∷ after)) attempt ≡ opened t
  unfolding decrypt_with_key_fallback
  decrypt_with_key_fallback-append [] after key attempt t h e = rw e refl
  decrypt_with_key_fallback-append (k ∷ before) after key attempt t h e =
      rw (h.0) (decrypt_with_key_fallback-append before after key attempt t h.1 e)

module _ (J : JsonRuntime) (C : IdentityCrypto) where
  unfoldable pub all_private_keys_for_decrypt : IdentityState J C → List C.Keypair
  all_private_keys_for_decrypt (unlocked key pk retired) = key ∷ retired
  all_private_keys_for_decrypt _ = []

  -- A rotation changes nothing for a message that the new key does not decrypt: every attempt on it
  -- ends as it would have ended before.
  pub rotate-decrypt {ℓ} :
      {T : Type ℓ} (r : Rotation J C) (d : Device) (s : IdentityState J C) (plan : Plan J C)
      (attempt : C.Keypair → Attempt T)
      → rotate J C r d s ≡ some plan
      → attempt r.new_identity ≡ decryption_error
      → decrypt_with_key_fallback (all_private_keys_for_decrypt plan.next) attempt
        ≡ decrypt_with_key_fallback (all_private_keys_for_decrypt s) attempt
  unfolding rotate all_private_keys_for_decrypt decrypt_with_key_fallback
  rotate-decrypt r d (unlocked old pk prior) plan attempt e h =
      elim (Option-cases d.device_secret) [
        | inl missing ↦ absurd (cc (missing, e))
        | inr (secret, found) ↦
            let planned = rotate_lem J C r d old pk secret prior plan found e in
            rw (← planned) (rw (h, decrypt_with_key_fallback) refl)
      ]
  rotate-decrypt r d loading plan attempt e h = absurd (cc e)
  rotate-decrypt r d no_identity plan attempt e h = absurd (cc e)
  rotate-decrypt r d locked plan attempt e h = absurd (cc e)
