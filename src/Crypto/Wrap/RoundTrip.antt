-- ===== src/Crypto/Wrap/RoundTrip.antt =====
-- What packages/crypto/src/wrap.ts wraps, it unwraps.
use aesmsg.Prelude.{
  ℕ, ◌≡◌, refl, sym, ap, ◌∙◌, inl, inr, true, false, some, List, Text, text_eq, ◌==◌, ==_iff,
  length, All, Bool-cases, Option-cases, arith,
}
use aesmsg.Api.{JsonRuntime, field_at}
use aesmsg.Crypto.BigEndian.{IsByte}
use aesmsg.Crypto.Wire.{encode_pubkey, raw_x25519_pubkey_len}
use aesmsg.Crypto.Wire.RoundTrip.{base64url_decode-encode}
use aesmsg.Crypto.Seal.{Hpke, IdentityKeypair, keypair_of, generate_identity}
use aesmsg.Crypto.Wrap.{
  WrapPrimitives, WrapKdfParams, salt_len, iv_len, ct_len, Parsed, envelope_json, parse_fields,
  parse_envelope, read_wrap_kdf_params, derive_wrap_key, needs_rewrap, mobile_kdf_params,
  envelope_of, wrap_private_key, unwrap_private_key, ok,
}

-- The sizes that an envelope has.
pub record IsEnvelope (e : Parsed) : Type 0 where
  pub salt : (length e.salt ≡ salt_len) × All IsByte e.salt
  pub iv : (length e.iv ≡ iv_len) × All IsByte e.iv
  pub ct : (length e.ct ≡ ct_len) × All IsByte e.ct
  pub public_key : (length e.public_key ≡ raw_x25519_pubkey_len) × All IsByte e.public_key

same_length : (xs : List ℕ) (n : ℕ) → length xs ≡ n → (length xs == n) ≡ true
same_length xs n h = (==_iff (length xs) n).1 h

parse_fields-envelope_json :
    (e : Parsed) → IsEnvelope e → parse_fields (some (envelope_json e)) ≡ some e
unfolding field_at text_eq
parse_fields-envelope_json e h =
    rw
      (
        base64url_decode-encode e.salt h.salt.1,
        base64url_decode-encode e.iv h.iv.1,
        base64url_decode-encode e.ct h.ct.1,
        base64url_decode-encode e.public_key h.public_key.1,
        same_length e.salt salt_len h.salt.0,
        same_length e.iv iv_len h.iv.0,
        same_length e.ct ct_len h.ct.0,
        same_length e.public_key raw_x25519_pubkey_len h.public_key.0,
      )
      refl

module _ (J : JsonRuntime) (W : WrapPrimitives) (H : Hpke) where
  envelope_of-IsEnvelope :
      (salt iv : List ℕ) (key : H.PrivateKey) (s : Text) (params : WrapKdfParams)
      (wrap_key : List ℕ)
      → (length salt ≡ salt_len) × All IsByte salt
      → (length iv ≡ iv_len) × All IsByte iv
      → encode_pubkey (H.serialize_public_key (H.public_of key)) ≡ some s
      → IsEnvelope (envelope_of J W H salt iv (keypair_of H key s) params wrap_key)
  unfolding encode_pubkey
  envelope_of-IsEnvelope salt iv key s params wrap_key hs hi e =
      let raw = H.serialize_public_key (H.public_of key) in
      let plaintext = H.serialize_private_key key in
      record {
        salt = hs;
        iv = hi;
        ct = (
          omega (arith, W.length-encrypt wrap_key iv plaintext, H.length-serialize_private_key key),
          W.encrypt-IsByte wrap_key iv plaintext (H.serialize_private_key-IsByte key),
        );
        public_key = (
          elim (Bool-cases (length raw == raw_x25519_pubkey_len)) [
            | inl l ↦ (==_iff (length raw) raw_x25519_pubkey_len).0 l
            | inr l ↦ absurd (cc (rw l at e))
          ],
          H.serialize-IsByte (H.public_of key),
        );
      }

  parse_envelope-stringify :
      (e : Parsed)
      → IsEnvelope e
      → J.IsPlain (envelope_json e)
      → parse_envelope J (J.stringify (envelope_json e)) ≡ some e
  unfolding parse_envelope
  parse_envelope-stringify e h plain =
      ap parse_fields (J.parse-stringify (envelope_json e) plain) ∙ parse_fields-envelope_json e h

  unwrap_keypair :
      (salt iv : List ℕ) (key : H.PrivateKey) (s : Text) (passphrase : Text)
      (params : WrapKdfParams) (wrapped : Text)
      → (length salt ≡ salt_len) × All IsByte salt
      → (length iv ≡ iv_len) × All IsByte iv
      → encode_pubkey (H.serialize_public_key (H.public_of key)) ≡ some s
      → ((wrap_key : List ℕ)
          → J.IsPlain
              (envelope_json (envelope_of J W H salt iv (keypair_of H key s) params wrap_key)))
      → wrap_private_key J W H salt iv (keypair_of H key s) passphrase params ≡ some wrapped
      → (unwrap_private_key J W H wrapped passphrase ≡ ok (keypair_of H key s))
        × (read_wrap_kdf_params J wrapped ≡ some params)
  unfolding wrap_private_key unwrap_private_key read_wrap_kdf_params
  unwrap_keypair salt iv key s passphrase params wrapped hs hi n plain e =
      elim (Option-cases (derive_wrap_key W passphrase salt params)) [
        | inl d ↦ absurd (cc (rw d at e))
        | inr (wrap_key, d) ↦
            let envelope = envelope_of J W H salt iv (keypair_of H key s) params wrap_key in
            let written : J.stringify (envelope_json envelope) ≡ wrapped = cc (rw d at e) in
            let sizes = envelope_of-IsEnvelope salt iv key s params wrap_key hs hi n in
            let parsed = parse_envelope-stringify envelope sizes (plain wrap_key) in
            let read : parse_envelope J wrapped ≡ some envelope =
              ap (parse_envelope J) (sym written) ∙ parsed in
            let raw = H.serialize_private_key key in
            (
              rw
                  (
                    read,
                    d,
                    W.decrypt-encrypt wrap_key iv raw (H.serialize_private_key-IsByte key),
                    same_length raw 32 (H.length-serialize_private_key key),
                    H.deserialize-serialize_private_key key,
                    H.deserialize-serialize (H.public_of key),
                    n,
                  )
                  refl,
              rw (read_wrap_kdf_params, read) refl,
            )
      ]

  -- A private key that is wrapped under a passphrase is unwrapped by it, with its public key, whatever
  -- the salt and the initialization vector, if they have their sizes and the runtime writes the
  -- envelope faithfully; and the envelope tells the parameters that it was wrapped under.
  pub unwrap-wrap_private_key :
      (salt iv : List ℕ) (key : H.PrivateKey) (id : IdentityKeypair H) (passphrase : Text)
      (params : WrapKdfParams) (wrapped : Text)
      → (length salt ≡ salt_len) × All IsByte salt
      → (length iv ≡ iv_len) × All IsByte iv
      → generate_identity H key ≡ some id
      → ((wrap_key : List ℕ)
          → J.IsPlain (envelope_json (envelope_of J W H salt iv id params wrap_key)))
      → wrap_private_key J W H salt iv id passphrase params ≡ some wrapped
      → (unwrap_private_key J W H wrapped passphrase ≡ ok id)
        × (read_wrap_kdf_params J wrapped ≡ some params)
  unfolding generate_identity
  unwrap-wrap_private_key salt iv key id passphrase params wrapped hs hi made plain e =
      elim (Option-cases (encode_pubkey (H.serialize_public_key (H.public_of key)))) [
        | inl n ↦ absurd (cc (rw n at made))
        | inr (s, n) ↦
            let same : keypair_of H key s ≡ id = cc (rw n at made) in
            rw (← same) (
              unwrap_keypair salt iv key s passphrase params wrapped hs hi n (rw (← same) at plain)
                (rw (← same) at e))
      ]

  -- An identity that was wrapped under the parameters of the app asks for no other migration.
  pub needs_rewrap-wrap_private_key :
      (salt iv : List ℕ) (key : H.PrivateKey) (id : IdentityKeypair H) (passphrase wrapped : Text)
      → (length salt ≡ salt_len) × All IsByte salt
      → (length iv ≡ iv_len) × All IsByte iv
      → generate_identity H key ≡ some id
      → ((wrap_key : List ℕ)
          → J.IsPlain (envelope_json (envelope_of J W H salt iv id mobile_kdf_params wrap_key)))
      → wrap_private_key J W H salt iv id passphrase mobile_kdf_params ≡ some wrapped
      → needs_rewrap W J wrapped ≡ some false
  unfolding needs_rewrap
  needs_rewrap-wrap_private_key salt iv key id passphrase wrapped hs hi made plain e =
      let read =
        (unwrap-wrap_private_key salt iv key id passphrase mobile_kdf_params wrapped hs hi made
          plain e).1 in
      rw (read) refl
