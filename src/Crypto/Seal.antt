-- ===== src/Crypto/Seal.antt =====
-- packages/crypto/src/seal.ts and identity.ts: sealing a plaintext for a recipient, bound to its link, and opening it.
-- `Hpke` is the HPKE library behind hpke.ts. Each error that `open` throws is a DecryptionError, and a
-- throw is `none`.
pub mod Binding
use aesmsg.Prelude.{
  ℕ, ◌≡◌, ◌≢◌, Bool, true, false, ◌&&◌, Option, none, some, List, [], ◌∷◌, Text, ◌==◌,
  if◌then◌else◌, length, All,
}
use aesmsg.Crypto.BigEndian.{IsByte}
use aesmsg.Crypto.Payload.{Utf8}
use aesmsg.Crypto.Aad.{MessageBindingContext, encode_aad}
use aesmsg.Crypto.Wire.{
  encode_pubkey, decode_pubkey, encode_ciphertext_blob, decode_ciphertext_blob,
  encapsulated_key_len,
}

-- RFC 9180 in base mode: `seal_hpke` draws the ephemeral key, its first argument, and gives the
-- encapsulated key, of 32 bytes with X25519, and the output of the AEAD.
pub record Hpke : Type 1 where
  pub PublicKey : Type 0
  pub PrivateKey : Type 0
  pub public_of : PrivateKey → PublicKey
  pub serialize_public_key : PublicKey → List ℕ
  pub deserialize_public_key : List ℕ → Option PublicKey
  pub deserialize-serialize :
      (key : PublicKey) → deserialize_public_key (serialize_public_key key) ≡ some key
  pub serialize-IsByte : (key : PublicKey) → All IsByte (serialize_public_key key)
  pub serialize_private_key : PrivateKey → List ℕ
  pub deserialize_private_key : List ℕ → Option PrivateKey
  pub deserialize-serialize_private_key :
      (key : PrivateKey) → deserialize_private_key (serialize_private_key key) ≡ some key
  pub length-serialize_private_key : (key : PrivateKey) → length (serialize_private_key key) ≡ 32
  pub serialize_private_key-IsByte : (key : PrivateKey) → All IsByte (serialize_private_key key)
  pub seal_hpke : ℕ → PublicKey → List ℕ → List ℕ → List ℕ × List ℕ
  pub open_hpke : PrivateKey → List ℕ → List ℕ → List ℕ → Option (List ℕ)
  pub open-seal_hpke :
      (draw : ℕ) (key : PrivateKey) (plaintext aad : List ℕ)
      → open_hpke key
          (seal_hpke draw (public_of key) plaintext aad).0
          (seal_hpke draw (public_of key) plaintext aad).1
          aad
        ≡ some plaintext
  -- The AEAD authenticates its associated data.
  pub seal_hpke-binds :
      (draw : ℕ) (key : PrivateKey) (plaintext aad other result : List ℕ)
      → open_hpke key
          (seal_hpke draw (public_of key) plaintext aad).0
          (seal_hpke draw (public_of key) plaintext aad).1
          other
        ≡ some result
      → (other ≡ aad) × (result ≡ plaintext)
  pub length-seal_hpke :
      (draw : ℕ) (key : PublicKey) (plaintext aad : List ℕ)
      → length (seal_hpke draw key plaintext aad).0 ≡ encapsulated_key_len

unfoldable pub bytes_equal : List ℕ → List ℕ → Bool
bytes_equal [] [] = true
bytes_equal [] (b ∷ ys) = false
bytes_equal (a ∷ xs) [] = false
bytes_equal (a ∷ xs) (b ∷ ys) = (a == b) && bytes_equal xs ys

module _ (H : Hpke) where
  pub record Recipient : Type 0 where
    pub crypto_key : H.PublicKey
    pub raw_key : List ℕ

  pub record IdentityKeypair : Type 0 where
    pub private_key : H.PrivateKey
    pub public_key_raw : List ℕ
    pub public_key_string : Text

  -- The key pair that generateIdentity makes of a private key.
  abbrev pub keypair_of : H.PrivateKey → Text → IdentityKeypair
  keypair_of key s = record {
    private_key = key;
    public_key_raw = H.serialize_public_key (H.public_of key);
    public_key_string = s;
  }

  abbrev identity_with : H.PrivateKey → Option Text → Option IdentityKeypair
  identity_with key none = none
  identity_with key (some s) = some (keypair_of key s)

  unfoldable pub generate_identity : H.PrivateKey → Option IdentityKeypair
  generate_identity key =
      identity_with key (encode_pubkey (H.serialize_public_key (H.public_of key)))

  unfoldable pub export_public_key : IdentityKeypair → Text
  export_public_key id = id.public_key_string

  abbrev recipient_with : List ℕ → Option H.PublicKey → Option Recipient
  recipient_with raw_key none = none
  recipient_with raw_key (some key) = some (record { crypto_key = key; raw_key = raw_key })

  abbrev recipient_of : Option (List ℕ × List ℕ) → Option Recipient
  recipient_of none = none
  recipient_of (some (raw_key, canonical)) =
      recipient_with raw_key (H.deserialize_public_key raw_key)

  unfoldable pub import_public_key : Text → Option Recipient
  import_public_key s = recipient_of (decode_pubkey s)

module _ (H : Hpke) (U : Utf8) (hash_recipient_pubkey : Text → Option (List ℕ)) where
  abbrev pub blob_of : List ℕ × List ℕ → Option (List ℕ)
  blob_of (enc, aead_output) = encode_ciphertext_blob enc aead_output

  abbrev pub seal_under : ℕ → List ℕ → Recipient H → Option (List ℕ) → Option (List ℕ)
  seal_under draw plaintext r none = none
  seal_under draw plaintext r (some aad) = blob_of (H.seal_hpke draw r.crypto_key plaintext aad)

  abbrev pub seal_for :
      ℕ → List ℕ → Recipient H → MessageBindingContext → Option (List ℕ × List ℕ) → Option (List ℕ)
  seal_for draw plaintext r context none = none
  seal_for draw plaintext r context (some (context_raw, canonical)) =
      let sealed = seal_under draw plaintext r (encode_aad U hash_recipient_pubkey context) in
      if bytes_equal r.raw_key context_raw then sealed else none

  unfoldable pub seal : ℕ → List ℕ → Recipient H → MessageBindingContext → Option (List ℕ)
  unfolding bytes_equal
  seal draw plaintext r context =
      seal_for draw plaintext r context (decode_pubkey context.recipient_public_key)

  abbrev pub open_parsed : H.PrivateKey → List ℕ → Option (List ℕ × List ℕ) → Option (List ℕ)
  open_parsed key aad none = none
  open_parsed key aad (some (enc, aead_output)) = H.open_hpke key enc aead_output aad

  abbrev pub open_under : H.PrivateKey → List ℕ → Option (List ℕ) → Option (List ℕ)
  open_under key ciphertext none = none
  open_under key ciphertext (some aad) = open_parsed key aad (decode_ciphertext_blob ciphertext)

  unfoldable pub open_ciphertext :
      List ℕ → IdentityKeypair H → MessageBindingContext → Option (List ℕ)
  open_ciphertext ciphertext id context =
      open_under id.private_key ciphertext (encode_aad U hash_recipient_pubkey context)
