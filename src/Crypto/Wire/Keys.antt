-- ===== src/Crypto/Wire/Keys.antt =====
-- The framing of public keys and of ciphertext blobs in packages/crypto/src/wire.ts.
use aesmsg.Prelude.{
  ℕ, ◌≡◌, refl, List, [], ◌∷◌, ◌++◌, some, Text, arith, All, length, take, drop, take-append,
  drop-append, length-append, length-take, ◌≤◌, take-append-drop, text_eq_refl, ==_iff, ◌==◌,
  Bool-cases, inl, inr,
}
use aesmsg.Crypto.BigEndian.{IsByte}
use aesmsg.Crypto.Wire.{
  base64url_encode, pubkey_prefix, raw_x25519_pubkey_len, encode_pubkey, decode_pubkey,
  encapsulated_key_len, encode_ciphertext_blob, decode_ciphertext_blob, checked_blob,
}
use aesmsg.Crypto.Wire.RoundTrip.{base64url_decode-encode}

-- The text of a raw key of 32 bytes decodes to the key and to its canonical bytes.
pub decode_pubkey-encode :
    (raw : List ℕ) (s : Text)
    → All IsByte raw
    → encode_pubkey raw ≡ some s
    → decode_pubkey s ≡ some (raw, 1 ∷ 1 ∷ raw)
unfolding encode_pubkey decode_pubkey
decode_pubkey-encode raw s h e = elim (Bool-cases (length raw == raw_x25519_pubkey_len)) [
  | inr k ↦ absurd (cc (k, e))
  | inl k ↦
      let body = base64url_encode (1 ∷ 1 ∷ raw) in
      let same : pubkey_prefix ++ body ≡ s = cc (k, e) in
      rw
        (
          ← same,
          take-append pubkey_prefix body,
          drop-append pubkey_prefix body,
          text_eq_refl pubkey_prefix,
          base64url_decode-encode (1 ∷ 1 ∷ raw) (omega arith, (omega arith, h)),
          k,
        )
        refl
]

-- A blob that is built from a key of 32 bytes and a ciphertext decodes to both.
pub decode_ciphertext_blob-encode :
    (enc output blob : List ℕ)
    → encode_ciphertext_blob enc output ≡ some blob
    → decode_ciphertext_blob blob ≡ some (enc, output)
unfolding encode_ciphertext_blob decode_ciphertext_blob
decode_ciphertext_blob-encode enc output blob e =
    elim (Bool-cases (length enc == encapsulated_key_len)) [
      | inr k ↦ absurd (cc (k, e))
      | inl k ↦
          let same : 1 ∷ 1 ∷ (enc ++ output) ≡ blob = cc (k, e) in
          let size : length enc ≡ encapsulated_key_len = (==_iff _ _).0 k in
          rw (← same, ← size, take-append enc output, drop-append enc output)
            (ground (arith, length-append enc output))
    ]

checked_blob_lem :
    (version suite : ℕ) (rest enc output : List ℕ)
    → checked_blob (version ∷ suite ∷ rest) ≡ some (enc, output)
    → (version ≡ 1)
      × (suite ≡ 1)
      × (encapsulated_key_len ≤ length rest)
      × (take encapsulated_key_len rest ≡ enc)
      × (drop encapsulated_key_len rest ≡ output)
checked_blob_lem version suite rest enc output e = ground arith

-- Only what the encoder builds is decoded.
pub encode_ciphertext_blob-decode :
    (enc output blob : List ℕ)
    → decode_ciphertext_blob blob ≡ some (enc, output)
    → encode_ciphertext_blob enc output ≡ some blob
unfolding encode_ciphertext_blob decode_ciphertext_blob
encode_ciphertext_blob-decode enc output [] e = absurd (cc e)
encode_ciphertext_blob-decode enc output (version ∷ []) e = absurd (cc e)
encode_ciphertext_blob-decode enc output (version ∷ suite ∷ rest) e =
    let (ev, es, fits, front, back) = checked_blob_lem version suite rest enc output e in
    rw
      (
        ev,
        es,
        ← front,
        ← back,
        length-take encapsulated_key_len rest fits,
        take-append-drop encapsulated_key_len rest,
      )
      refl
