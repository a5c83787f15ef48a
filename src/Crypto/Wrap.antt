-- ===== src/Crypto/Wrap.antt =====
-- packages/crypto/src/wrap.ts, with the guard of argon2.ts and apps/mobile/src/identity/kdf-policy.ts:
-- wrapping a private key under a passphrase. The salt and the initialization vector that are drawn are
-- arguments. `none` in the parser is an InvalidFormatError.
pub mod RoundTrip
use aesmsg.Prelude.{
  ℕ, ◌+◌, ◌≡◌, Bool, true, false, ◌&&◌, ◌||◌, not, Option, none, some, List, [], ◌∷◌, Text, codes,
  text_eq, ltb, ◌==◌, if◌then◌else◌, length, All,
}
use aesmsg.Link.{pos, negsuc}
use aesmsg.Api.{
  JsonRuntime, Json, JsonNumber, integer, fractional, num, str, obj, Fields, end, field, field_at,
}
use aesmsg.Crypto.BigEndian.{IsByte}
use aesmsg.Crypto.Wire.{base64url_encode, base64url_decode, encode_pubkey, raw_x25519_pubkey_len}
use aesmsg.Crypto.Seal.{Hpke, IdentityKeypair}

-- Argon2id, `none` where the library throws, and AES-GCM of WebCrypto.
pub record WrapPrimitives : Type 0 where
  pub argon2id : Text → List ℕ → JsonNumber → JsonNumber → Option (List ℕ)
  pub aes_gcm_encrypt : List ℕ → List ℕ → List ℕ → List ℕ
  pub aes_gcm_decrypt : List ℕ → List ℕ → List ℕ → Option (List ℕ)
  pub decrypt-encrypt :
      (key iv plaintext : List ℕ)
      → All IsByte plaintext
      → aes_gcm_decrypt key iv (aes_gcm_encrypt key iv plaintext) ≡ some plaintext
  -- The ciphertext with its tag.
  pub length-encrypt :
      (key iv plaintext : List ℕ)
      → length (aes_gcm_encrypt key iv plaintext) ≡ length plaintext + 16
  pub encrypt-IsByte :
      (key iv plaintext : List ℕ)
      → All IsByte plaintext
      → All IsByte (aes_gcm_encrypt key iv plaintext)
  -- Whether a number that is no integer exceeds a bound.
  pub fraction_exceeds : ℕ → Bool

pub record WrapKdfParams : Type 0 where
  pub m_kib : JsonNumber
  pub t : JsonNumber
  pub p : JsonNumber

abbrev pub envelope_version : ℕ
envelope_version = 1

abbrev pub kdf_id : Text
kdf_id = codes "argon2id-aes256gcm"

abbrev pub salt_len : ℕ
salt_len = 16

abbrev pub iv_len : ℕ
iv_len = 12

abbrev pub ct_len : ℕ
ct_len = 48

abbrev pub raw_x25519_privkey_len : ℕ
raw_x25519_privkey_len = 32

pub record Parsed : Type 0 where
  pub salt : List ℕ
  pub iv : List ℕ
  pub ct : List ℕ
  pub public_key : List ℕ
  pub params : WrapKdfParams

abbrev pub envelope_json : Parsed → Json
envelope_json e = obj (
    field (codes "v") (num (integer (pos envelope_version))) (
      field (codes "kdf") (str kdf_id) (
        field (codes "m_kib") (num e.params.m_kib) (
          field (codes "t") (num e.params.t) (
            field (codes "p") (num e.params.p) (
              field (codes "salt") (str (base64url_encode e.salt)) (
                field (codes "iv") (str (base64url_encode e.iv)) (
                  field (codes "ct") (str (base64url_encode e.ct))
                    (field (codes "pub") (str (base64url_encode e.public_key)) end)))))))))

pub data UnwrapError : Type 0 where
  invalid_format bad_passphrase decryption_error derivation_error : UnwrapError

pub data Unwrapped {ℓ} (A : Type ℓ) : Type ℓ where
  ok : A → Unwrapped A
  throws : UnwrapError → Unwrapped A

abbrev is_version : Option Json → Bool
is_version (some (num (integer (pos n)))) = n == envelope_version
is_version _ = false

abbrev is_kdf : Option Json → Bool
is_kdf (some (str s)) = text_eq s kdf_id
is_kdf _ = false

abbrev params_of : Option Json → Option Json → Option Json → Option WrapKdfParams
params_of (some (num m)) (some (num t)) (some (num p)) = some (record { m_kib = m; t = t; p = p })
params_of _ _ _ = none

abbrev text_of : Option Json → Option Text
text_of (some (str s)) = some s
text_of _ = none

abbrev decoded : Option Text → Option (List ℕ)
decoded none = none
decoded (some s) = base64url_decode s

-- The decoded fields, and the checks of their lengths.
abbrev sized :
    Option (List ℕ)
    → Option (List ℕ)
    → Option (List ℕ)
    → Option (List ℕ)
    → Option WrapKdfParams
    → Option Parsed
sized (some salt) (some iv) (some ct) (some public_key) (some params) =
    if not (length salt == salt_len)
    then none
    else if not (length iv == iv_len)
    then none
    else if not (length ct == ct_len)
    then none
    else if not (length public_key == raw_x25519_pubkey_len)
    then none
    else some (record { salt = salt; iv = iv; ct = ct; public_key = public_key; params = params })
sized _ _ _ _ _ = none

abbrev pub parse_fields : Option Json → Option Parsed
parse_fields (some (obj fields)) =
    if not (is_version (field_at (codes "v") fields))
    then none
    else if not (is_kdf (field_at (codes "kdf") fields))
    then none
    else sized (decoded (text_of (field_at (codes "salt") fields)))
        (decoded (text_of (field_at (codes "iv") fields)))
        (decoded (text_of (field_at (codes "ct") fields)))
        (decoded (text_of (field_at (codes "pub") fields)))
        (params_of (field_at (codes "m_kib") fields) (field_at (codes "t") fields)
          (field_at (codes "p") fields))
parse_fields _ = none

module _ (J : JsonRuntime) where
  unfoldable pub parse_envelope : Text → Option Parsed
  parse_envelope s = parse_fields (J.parse s)

  unfoldable pub read_wrap_kdf_params : Text → Option WrapKdfParams
  unfolding parse_envelope
  read_wrap_kdf_params wrapped = elim (parse_envelope wrapped) [
    | none ↦ none
    | some e ↦ some e.params
  ]

abbrev is_one : JsonNumber → Bool
is_one (integer (pos n)) = n == 1
is_one _ = false

module _ (W : WrapPrimitives) where
  -- deriveWrapKey, with the guard of deriveArgon2id.
  unfoldable pub derive_wrap_key : Text → List ℕ → WrapKdfParams → Option (List ℕ)
  derive_wrap_key passphrase salt params =
      if is_one params.p then W.argon2id passphrase salt params.m_kib params.t else none

  -- `n > bound`
  abbrev exceeds : JsonNumber → ℕ → Bool
  exceeds (integer (pos n)) bound = ltb bound n
  exceeds (integer (negsuc n)) bound = false
  exceeds fractional bound = W.fraction_exceeds bound

  abbrev is_heavy : Option WrapKdfParams → Option Bool
  is_heavy none = none
  is_heavy (some params) = some (exceeds params.m_kib 2048 || exceeds params.t 1)

  -- needsRewrap, `none` where it throws.
  unfoldable pub needs_rewrap : JsonRuntime → Text → Option Bool
  unfolding read_wrap_kdf_params
  needs_rewrap J wrapped = is_heavy (read_wrap_kdf_params J wrapped)

abbrev pub mobile_kdf_params : WrapKdfParams
mobile_kdf_params = record { m_kib = integer (pos 2048); t = integer (pos 1); p = integer (pos 1) }

module _ (J : JsonRuntime) (W : WrapPrimitives) (H : Hpke) where
  -- What an identity is wrapped as.
  abbrev pub envelope_of : List ℕ → List ℕ → IdentityKeypair H → WrapKdfParams → List ℕ → Parsed
  envelope_of salt iv id params wrap_key = record {
    salt = salt;
    iv = iv;
    ct = W.aes_gcm_encrypt wrap_key iv (H.serialize_private_key id.private_key);
    public_key = id.public_key_raw;
    params = params;
  }

  abbrev wrap_under :
      List ℕ → List ℕ → IdentityKeypair H → WrapKdfParams → Option (List ℕ) → Option Text
  wrap_under salt iv id params none = none
  wrap_under salt iv id params (some wrap_key) =
      some (J.stringify (envelope_json (envelope_of salt iv id params wrap_key)))

  unfoldable pub wrap_private_key :
      List ℕ → List ℕ → IdentityKeypair H → Text → WrapKdfParams → Option Text
  unfolding derive_wrap_key
  wrap_private_key salt iv id passphrase params =
      wrap_under salt iv id params (derive_wrap_key W passphrase salt params)

  abbrev keypair_with :
      List ℕ
      → Option H.PrivateKey
      → Option H.PublicKey
      → Option Text
      → Unwrapped (IdentityKeypair H)
  keypair_with raw (some key) (some public_key) (some s) =
      ok (record { private_key = key; public_key_raw = raw; public_key_string = s })
  keypair_with raw _ _ _ = throws decryption_error

  abbrev unwrap_raw : Parsed → Option (List ℕ) → Unwrapped (IdentityKeypair H)
  unwrap_raw e none = throws bad_passphrase
  unwrap_raw e (some raw) =
      if not (length raw == raw_x25519_privkey_len)
      then throws decryption_error
      else keypair_with e.public_key (H.deserialize_private_key raw)
          (H.deserialize_public_key e.public_key) (encode_pubkey e.public_key)

  abbrev unwrap_under : Parsed → Option (List ℕ) → Unwrapped (IdentityKeypair H)
  unwrap_under e none = throws derivation_error
  unwrap_under e (some wrap_key) = unwrap_raw e (W.aes_gcm_decrypt wrap_key e.iv e.ct)

  abbrev unwrap_parsed : Text → Option Parsed → Unwrapped (IdentityKeypair H)
  unwrap_parsed passphrase none = throws invalid_format
  unwrap_parsed passphrase (some e) = unwrap_under e (derive_wrap_key W passphrase e.salt e.params)

  unfoldable pub unwrap_private_key : Text → Text → Unwrapped (IdentityKeypair H)
  unfolding derive_wrap_key parse_envelope
  unwrap_private_key wrapped passphrase = unwrap_parsed passphrase (parse_envelope J wrapped)
