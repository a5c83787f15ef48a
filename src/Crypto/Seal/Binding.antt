-- ===== src/Crypto/Seal/Binding.antt =====
-- What packages/crypto/src/seal.ts opens, and under which metadata.
use aesmsg.Prelude.{
  ℕ, ◌≡◌, refl, ap, ◌∙◌, inl, inr, Option, some, List, Text, Bool-cases, Option-cases,
}
use aesmsg.Crypto.Payload.{Utf8}
use aesmsg.Crypto.Aad.{MessageBindingContext, encode_aad}
use aesmsg.Crypto.Aad.Layout.{FitsInt32}
use aesmsg.Crypto.Aad.Binding.{encode_aad-binds}
use aesmsg.Crypto.Wire.{encode_pubkey, decode_pubkey, decode_ciphertext_blob}
use aesmsg.Crypto.Wire.Keys.{decode_ciphertext_blob-encode, decode_pubkey-encode}
use aesmsg.Crypto.Seal.{
  Hpke, Recipient, IdentityKeypair, keypair_of, generate_identity, export_public_key,
  import_public_key, seal, open_ciphertext, bytes_equal,
}

module _ (H : Hpke) (U : Utf8) (hash_recipient_pubkey : Text → Option (List ℕ)) where
  -- What a ciphertext holds: the associated data of its context, and the two parts of its blob.
  record Sealed (draw : ℕ) (plaintext : List ℕ) (key : H.PublicKey)
      (context : MessageBindingContext) (ciphertext : List ℕ) : Type 0 where
    aad : List ℕ
    has_aad : encode_aad U hash_recipient_pubkey context ≡ some aad
    parses : decode_ciphertext_blob ciphertext ≡ some (H.seal_hpke draw key plaintext aad)

  seal-Sealed :
      (draw : ℕ) (plaintext : List ℕ) (r : Recipient H) (context : MessageBindingContext)
      (ciphertext : List ℕ)
      → seal H U hash_recipient_pubkey draw plaintext r context ≡ some ciphertext
      → Sealed draw plaintext r.crypto_key context ciphertext
  unfolding seal
  seal-Sealed draw plaintext r context ciphertext e =
      elim (Option-cases (decode_pubkey context.recipient_public_key)) [
        | inl d ↦ absurd (cc (rw d at e))
        | inr ((raw, canonical), d) ↦ elim (Bool-cases (bytes_equal r.raw_key raw)) [
          | inr b ↦ absurd (cc (rw (d, b) at e))
          | inl b ↦ elim (Option-cases (encode_aad U hash_recipient_pubkey context)) [
            | inl a ↦ absurd (cc (rw (d, b, a) at e))
            | inr (aad, a) ↦ record {
              aad = aad;
              has_aad = a;
              parses = decode_ciphertext_blob-encode _ _ ciphertext (rw (d, b, a) at e);
            }
          ]
        ]
      ]

  -- Whoever holds the private key of the recipient opens what was sealed, under the same metadata,
  -- and gets the plaintext.
  pub open_ciphertext-seal :
      (draw : ℕ) (plaintext : List ℕ) (r : Recipient H) (id : IdentityKeypair H)
      (context : MessageBindingContext) (ciphertext : List ℕ)
      → r.crypto_key ≡ H.public_of id.private_key
      → seal H U hash_recipient_pubkey draw plaintext r context ≡ some ciphertext
      → open_ciphertext H U hash_recipient_pubkey ciphertext id context ≡ some plaintext
  unfolding open_ciphertext
  open_ciphertext-seal draw plaintext r id context ciphertext k e =
      let s = seal-Sealed draw plaintext r context ciphertext e in
      rw (s.has_aad, s.parses, k) (H.open-seal_hpke draw id.private_key plaintext s.aad)

  -- A ciphertext that opens, opens to the plaintext that was sealed, and only under the link id, the
  -- hash of the key, the times and the bound on opens that it was sealed under: a server that changes
  -- one of them makes the recipient's client throw a DecryptionError.
  pub open_ciphertext-binds :
      (draw : ℕ) (plaintext : List ℕ) (r : Recipient H) (id : IdentityKeypair H)
      (c d : MessageBindingContext) (ciphertext result : List ℕ)
      → r.crypto_key ≡ H.public_of id.private_key
      → seal H U hash_recipient_pubkey draw plaintext r c ≡ some ciphertext
      → open_ciphertext H U hash_recipient_pubkey ciphertext id d ≡ some result
      → U.IsText c.link_id
      → U.IsText d.link_id
      → FitsInt32 c.max_opens
      → FitsInt32 d.max_opens
      → (result ≡ plaintext)
        × (c.link_id ≡ d.link_id)
        × (hash_recipient_pubkey c.recipient_public_key
            ≡ hash_recipient_pubkey d.recipient_public_key)
        × (c.created_at_ms ≡ d.created_at_ms)
        × (c.expires_at_ms ≡ d.expires_at_ms)
        × (c.max_opens ≡ d.max_opens)
  unfolding open_ciphertext
  open_ciphertext-binds draw plaintext r id c d ciphertext result k sealed opened tc td fc fd =
      let s = seal-Sealed draw plaintext r c ciphertext sealed in
      elim (Option-cases (encode_aad U hash_recipient_pubkey d)) [
        | inl a ↦ absurd (cc (rw a at opened))
        | inr (other, a) ↦
            let (same, is_plain) =
              H.seal_hpke-binds draw id.private_key plaintext s.aad other result
                (rw (a, s.parses, k) at opened) in
            let (link, recipient, created, expires, opens) =
              encode_aad-binds U hash_recipient_pubkey c d s.aad s.has_aad (a ∙ ap some same) tc td
                fc fd in
            (is_plain, link, recipient, created, expires, opens)
      ]

module _ (H : Hpke) where
  -- The public key that a generated identity exports imports as its recipient.
  pub import-generate_identity :
      (key : H.PrivateKey) (id : IdentityKeypair H) (r : Recipient H)
      → generate_identity H key ≡ some id
      → import_public_key H (export_public_key H id) ≡ some r
      → r.crypto_key ≡ H.public_of id.private_key
  unfolding generate_identity import_public_key export_public_key
  import-generate_identity key id r g i =
      let raw = H.serialize_public_key (H.public_of key) in
      elim (Option-cases (encode_pubkey raw)) [
        | inl e ↦ absurd (cc (rw e at g))
        | inr (s, e) ↦
            let made : keypair_of H key s ≡ id = cc (rw e at g) in
            let read = decode_pubkey-encode raw s (H.serialize-IsByte (H.public_of key)) e in
            let known = H.deserialize-serialize (H.public_of key) in
            let imported : import_public_key H s
                ≡ some (record { crypto_key = H.public_of key; raw_key = raw }) =
              rw (read, known) refl in
            let same : (record { crypto_key = H.public_of key; raw_key = raw }) ≡ r =
              cc (imported, rw (← made) at i) in
            rw (← made, ← same) refl
      ]
