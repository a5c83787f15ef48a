-- ===== src/Mobile/Message.antt =====
-- apps/mobile/src/create/create-and-seal.ts up to the upload, and decryptOpenResponse of
-- apps/mobile/src/reader/fetch-and-open.ts. Dates are their milliseconds, and ciphertexts the bytes,
-- before base64. The SHA-256 is a parameter.
use aesmsg.Prelude.{
  ℕ, ◌≡◌, refl, inl, inr, Option, none, some, List, [], ◌∷◌, Text, All, Option-cases,
}
use aesmsg.Link.{LinkStatus}
use aesmsg.Crypto.Payload.{Utf8, Payload, PayloadAttachment, encode_payload, decode_payload}
use aesmsg.Crypto.Payload.RoundTrip.{AttachmentIsText, decode-encode}
use aesmsg.Crypto.Aad.{Number, MessageBindingContext}
use aesmsg.Crypto.Fingerprint.{fingerprint}
use aesmsg.Crypto.Seal.{
  Hpke, Recipient, IdentityKeypair, generate_identity, export_public_key, import_public_key, seal,
  open_ciphertext,
}
use aesmsg.Crypto.Seal.Binding.{open_ciphertext-seal, import-generate_identity}

pub record CreateAndSealInput : Type 0 where
  pub recipient_public_key_string : Text
  pub message : Text
  pub expires_at : Number
  pub max_opens : Number
  pub attachment : Option PayloadAttachment

pub record OpenMessageResponse : Type 0 where
  pub ciphertext : List ℕ
  pub created_at : Option Number
  pub expires_at : Number
  pub max_opens : Number
  pub opens_count : ℕ
  pub status : LinkStatus

pub record FetchAndOpenOutput : Type 0 where
  pub text : Text
  pub attachments : List PayloadAttachment
  pub recipient_fingerprint : Text
  pub opens_count : ℕ
  pub max_opens : Number
  pub status : LinkStatus

abbrev pub attachments_of : Option PayloadAttachment → List PayloadAttachment
attachments_of none = []
attachments_of (some attachment) = attachment ∷ []

-- The context that the sender binds.
abbrev pub sent_context : Text → CreateAndSealInput → MessageBindingContext
sent_context id input = record {
  link_id = id;
  recipient_public_key = input.recipient_public_key_string;
  created_at_ms = none;
  expires_at_ms = input.expires_at;
  max_opens = input.max_opens;
}

-- The context that the reader rebuilds from what the server returns.
abbrev pub read_context : Text → Text → OpenMessageResponse → MessageBindingContext
read_context id own response = record {
  link_id = id;
  recipient_public_key = own;
  created_at_ms = response.created_at;
  expires_at_ms = response.expires_at;
  max_opens = response.max_opens;
}

abbrev pub payload_of : CreateAndSealInput → Payload
payload_of input = record { text = input.message; attachments = attachments_of input.attachment }

module _ (H : Hpke) (U : Utf8) (sha256 : List ℕ → List ℕ) where
  abbrev hash_of : Option (Recipient H) → Option (List ℕ)
  hash_of none = none
  hash_of (some r) = some (sha256 (H.serialize_public_key r.crypto_key))

  unfoldable pub hash_recipient_pubkey : Text → Option (List ℕ)
  unfolding import_public_key
  hash_recipient_pubkey pk = hash_of (import_public_key H pk)

  abbrev seal_payload :
      ℕ → Text → CreateAndSealInput → Recipient H → Option (List ℕ) → Option (List ℕ)
  seal_payload draw id input r none = none
  seal_payload draw id input r (some plaintext) =
      seal H U hash_recipient_pubkey draw plaintext r (sent_context id input)

  abbrev seal_for_recipient : ℕ → Text → CreateAndSealInput → Option (Recipient H) → Option (List ℕ)
  seal_for_recipient draw id input none = none
  seal_for_recipient draw id input (some r) =
      seal_payload draw id input r (encode_payload U (payload_of input))

  -- createAndSeal up to the upload: the ciphertext for a link id that was drawn. `none` is a throw, and
  -- nothing is uploaded then.
  unfoldable pub create_and_seal : ℕ → Text → CreateAndSealInput → Option (List ℕ)
  unfolding import_public_key encode_payload seal
  create_and_seal draw id input =
      seal_for_recipient draw id input (import_public_key H input.recipient_public_key_string)

  abbrev pub output_of : OpenMessageResponse → Payload → Option Text → Option FetchAndOpenOutput
  output_of response payload none = none
  output_of response payload (some fp) = some (record {
    text = payload.text;
    attachments = payload.attachments;
    recipient_fingerprint = fp;
    opens_count = response.opens_count;
    max_opens = response.max_opens;
    status = response.status;
  })

  abbrev decrypted :
      OpenMessageResponse → IdentityKeypair H → Option (List ℕ) → Option FetchAndOpenOutput
  decrypted response identity none = none
  decrypted response identity (some plaintext) =
      output_of response (decode_payload U plaintext)
        (fingerprint sha256 (export_public_key H identity))

  unfoldable pub decrypt_open_response :
      OpenMessageResponse → IdentityKeypair H → Text → Option FetchAndOpenOutput
  unfolding open_ciphertext decode_payload fingerprint export_public_key
  decrypt_open_response response identity id = decrypted response identity (
      open_ciphertext H U hash_recipient_pubkey response.ciphertext identity
        (read_context id (export_public_key H identity) response))

  -- What the server is meant to return of a link: the ciphertext, no creation time, and the expiry and
  -- the bound on opens as they were uploaded.
  abbrev pub returned : List ℕ → CreateAndSealInput → ℕ → LinkStatus → OpenMessageResponse
  returned ciphertext input opens_count status = record {
    ciphertext = ciphertext;
    created_at = none;
    expires_at = input.expires_at;
    max_opens = input.max_opens;
    opens_count = opens_count;
    status = status;
  }

  -- The attachment that the sender picked, as the reader is to have it.
  abbrev pub sent_attachments : Option PayloadAttachment → List PayloadAttachment
  sent_attachments none = []
  sent_attachments (some attachment) = attachment ∷ []

  attachments_of_lem : (o : Option PayloadAttachment) → attachments_of o ≡ sent_attachments o
  attachments_of_lem none = refl
  attachments_of_lem (some attachment) = refl

  -- A message that is sealed for the public key of a generated identity is read by that identity from
  -- what the server returns: its text, its attachment where it has one, and the counts and the status
  -- that the server gives, with the identity's own fingerprint, if UTF-8 carries its texts faithfully.
  pub decrypt_open_response-create_and_seal :
      (draw : ℕ) (id : Text) (input : CreateAndSealInput) (key : H.PrivateKey)
      (identity : IdentityKeypair H) (ciphertext : List ℕ) (opens_count : ℕ) (status : LinkStatus)
      (fp : Text)
      → generate_identity H key ≡ some identity
      → input.recipient_public_key_string ≡ export_public_key H identity
      → create_and_seal draw id input ≡ some ciphertext
      → fingerprint sha256 (export_public_key H identity) ≡ some fp
      → U.IsText input.message
      → All (AttachmentIsText U) (sent_attachments input.attachment)
      → decrypt_open_response (returned ciphertext input opens_count status) identity id
        ≡ some (record {
          text = input.message;
          attachments = sent_attachments input.attachment;
          recipient_fingerprint = fp;
          opens_count = opens_count;
          max_opens = input.max_opens;
          status = status;
        })
  unfolding create_and_seal decrypt_open_response
  decrypt_open_response-create_and_seal draw id input key identity ciphertext opens_count status fp
        made own sealed known text texts =
      elim (Option-cases (import_public_key H input.recipient_public_key_string)) [
        | inl i ↦ absurd (cc (rw i at sealed))
        | inr (r, i) ↦ elim (Option-cases (encode_payload U (payload_of input))) [
          | inl p ↦ absurd (cc (rw (i, p) at sealed))
          | inr (plaintext, p) ↦
              let k = import-generate_identity H key identity r made (rw own at i) in
              let opens =
                open_ciphertext-seal H U hash_recipient_pubkey draw plaintext r identity
                  (sent_context id input) ciphertext k (rw (i, p) at sealed) in
              let decodes =
                (decode-encode U (payload_of input) plaintext p text
                  (rw (attachments_of_lem input.attachment) texts)).0 in
              rw (← own, opens, decodes, own, known, attachments_of_lem input.attachment) refl
        ]
      ]
