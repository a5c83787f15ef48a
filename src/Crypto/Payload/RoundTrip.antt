-- ===== src/Crypto/Payload/RoundTrip.antt =====
-- encodePayload and decodePayload of packages/crypto/src/payload.ts, one after the other.
use aesmsg.Prelude.{
  ℕ, ◌+◌, ◌≤◌, ◌≡◌, refl, sym, ap, ◌∙◌, true, List, [], ◌∷◌, ◌++◌, Option, none, some, ltb, length,
  map, replicate, arith, append-nil, All, length-append, length-replicate, length-map, Bool-cases,
  inl, inr, if◌then◌else◌,
}
use aesmsg.Crypto.BigEndian.{
  write_be, take_bytes, read_uint, >>=-step, read_uint-write_be, take_bytes-append, length-write_be,
}
use aesmsg.Crypto.Pad.{target_padded_len}
use aesmsg.Crypto.Pad.Overhead.{target_padded_len_bounds}
use aesmsg.Crypto.Payload.{
  Utf8, Payload, PayloadAttachment, EncodedField, put_fields, put_payload, field_of, fields_of,
  fits, encode_payload, decode_payload, skip_pad, get_attachments, get_body, all_read, or_legacy,
  cons_field, min_len, pad_len, u16_max, u32_max, encode_fields,
}
use aesmsg.Crypto.Payload.Fields.{attachment_of, get_attachments-put_fields, length-put_fields}

length-put_payload :
    (text : List ℕ) (fields : List EncodedField) (pad : ℕ)
    → length (put_payload text fields pad) ≡ min_len text fields + pad
unfolding put_payload
length-put_payload text fields pad =
    simp (length-append, length-write_be, length-put_fields, length-replicate) (omega arith)

abbrev body_bytes : List ℕ → List EncodedField → ℕ → List ℕ
body_bytes text fields pad =
    write_be 4 (length text)
    ++ (text
        ++ (write_be 2 (length fields)
            ++ (put_fields fields ++ (write_be 4 pad ++ replicate pad 0))))

put_payload-version :
    (text : List ℕ) (fields : List EncodedField) (pad : ℕ)
    → put_payload text fields pad ≡ 2 ∷ body_bytes text fields pad
unfolding put_payload write_be
put_payload-version text fields pad = refl

pad_taken : (n : ℕ) → take_bytes n (replicate n 0) ≡ some (replicate n 0, [])
pad_taken n = rw (length-replicate, append-nil) at (take_bytes-append (replicate n 0) [])

guarded_some :
    (max n : ℕ) (o : Option (List ℕ)) (bytes : List ℕ)
    → (if ltb max n then none else o) ≡ some bytes
    → (n ≤ max) × (o ≡ some bytes)
guarded_some max n o bytes e = ground arith

module _ (U : Utf8) where
  skip_pad-replicate :
      (pad : ℕ) → pad ≤ u32_max → skip_pad U (write_be 4 pad ++ replicate pad 0) ≡ some (tt, [])
  unfolding skip_pad
  skip_pad-replicate pad h =
      >>=-step (read_uint 4) _ _ (read_uint-write_be 4 pad (replicate pad 0) (omega arith))
      ∙ >>=-step (take_bytes pad) _ _ (pad_taken pad)

  abbrev payload_of : List ℕ → List EncodedField → Payload
  payload_of text fields = record {
    text = U.decode text;
    attachments = map (attachment_of U) fields;
  }

  get_body-body_bytes :
      (text : List ℕ) (fields : List EncodedField) (pad : ℕ)
      → length text ≤ u32_max
      → length fields ≤ u16_max
      → pad ≤ u32_max
      → All (λ f. fits U f ≡ true) fields
      → get_body U true (body_bytes text fields pad) ≡ some (payload_of text fields, [])
  get_body-body_bytes text fields pad ht hf hp ok =
      >>=-step (read_uint 4) _ _ (read_uint-write_be 4 (length text) _ (omega arith))
      ∙ >>=-step (take_bytes (length text)) _ _ (take_bytes-append text _)
      ∙ >>=-step (read_uint 2) _ _ (read_uint-write_be 2 (length fields) _ (omega arith))
      ∙ >>=-step (get_attachments U (length fields)) _ _
          (get_attachments-put_fields U fields (write_be 4 pad ++ replicate pad 0) ok)
      ∙ >>=-step (skip_pad U) _ _ (skip_pad-replicate pad hp)

  decode-put_payload :
      (text : List ℕ) (fields : List EncodedField) (pad : ℕ)
      → length text ≤ u32_max
      → length fields ≤ u16_max
      → pad ≤ u32_max
      → All (λ f. fits U f ≡ true) fields
      → decode_payload U (put_payload text fields pad) ≡ payload_of text fields
  unfolding decode_payload
  decode-put_payload text fields pad ht hf hp ok =
      ap (decode_payload U) (put_payload-version text fields pad)
      ∙ ap (λ o. or_legacy U (2 ∷ body_bytes text fields pad) (all_read U o))
          (get_body-body_bytes text fields pad ht hf hp ok)

  cons_field-some :
      (f : EncodedField) (o : Option (List EncodedField)) (fs : List EncodedField)
      → cons_field U f o ≡ some fs
      → (rest : List EncodedField) × (o ≡ some rest) × (fits U f ≡ true) × (f ∷ rest ≡ fs)
  cons_field-some f none fs e = absurd (cc)
  cons_field-some f (some rest) fs e = elim (Bool-cases (fits U f)) [
    | inl ok ↦ (rest, refl, ok, ground (arith, e, ok))
    | inr bad ↦ absurd (cc (rw bad at e))
  ]

  fields_of-All :
      (atts : List PayloadAttachment) (fs : List EncodedField)
      → fields_of U atts ≡ some fs
      → All (λ f. fits U f ≡ true) fs × (fs ≡ map (field_of U) atts)
  unfolding fields_of
  fields_of-All [] fs e = let e' : [] ≡ fs = cc in rw (← e') (tt, refl)
  fields_of-All (att ∷ atts) fs e =
      let (rest, e1, ok, e2) = cons_field-some (field_of U att) (fields_of U atts) fs e in
      let (all_ok, same) = fields_of-All atts rest e1 in
      rw (← e2) ((ok, all_ok), ap (λ t. field_of U att ∷ t) same)

  abbrev pub AttachmentIsText : PayloadAttachment → Type 0
  AttachmentIsText att = U.IsText att.filename × U.IsText att.mimetype

  decoded_attachments :
      (atts : List PayloadAttachment)
      → All AttachmentIsText atts
      → map (attachment_of U) (map (field_of U) atts) ≡ atts
  decoded_attachments [] h = refl
  decoded_attachments (att ∷ atts) h =
      rw
        (
          U.decode-encode att.filename h.0.0,
          U.decode-encode att.mimetype h.0.1,
          decoded_attachments atts h.1,
        )
        refl

  put_payload-decoded :
      (payload : Payload) (fields : List EncodedField)
      → length (U.encode payload.text) ≤ u32_max
      → length payload.attachments ≤ u16_max
      → fields_of U payload.attachments ≡ some fields
      → pad_len (U.encode payload.text) fields ≤ u32_max
      → U.IsText payload.text
      → All AttachmentIsText payload.attachments
      → decode_payload U
          (put_payload (U.encode payload.text) fields (pad_len (U.encode payload.text) fields))
        ≡ payload
  put_payload-decoded payload fields ht hf e hp is_text are_texts =
      let (ok, same) = fields_of-All payload.attachments fields e in
      let count : length fields ≤ u16_max =
        omega (arith, ap length same, length-map (field_of U) payload.attachments) in
      decode-put_payload (U.encode payload.text) fields (pad_len (U.encode payload.text) fields) ht
        count hp ok
      ∙ λ i. record {
        text = U.decode-encode payload.text is_text i;
        attachments =
            (ap (map (attachment_of U)) same ∙ decoded_attachments payload.attachments are_texts) i;
      }

  length-padded :
      (text : List ℕ) (fields : List EncodedField)
      → length (put_payload text fields (pad_len text fields))
        ≡ target_padded_len (min_len text fields)
  length-padded text fields = omega (
    arith,
    length-put_payload text fields (pad_len text fields),
    (target_padded_len_bounds (min_len text fields)).0,
  )

  encode_fields-some :
      (text : List ℕ) (fields : List EncodedField) (bytes : List ℕ)
      → encode_fields U text (some fields) ≡ some bytes
      → (pad_len text fields ≤ u32_max) × (put_payload text fields (pad_len text fields) ≡ bytes)
  encode_fields-some text fields bytes e = elim (Bool-cases (ltb u32_max (pad_len text fields))) [
    | inl bad ↦ absurd (cc (rw bad at e))
    | inr ok ↦ (ground (arith, ok), ground (arith, ok, e))
  ]

  fields_some :
      (payload : Payload) (o : Option (List EncodedField)) (bytes : List ℕ)
      → length (U.encode payload.text) ≤ u32_max
      → length payload.attachments ≤ u16_max
      → fields_of U payload.attachments ≡ o
      → encode_fields U (U.encode payload.text) o ≡ some bytes
      → (fields : List EncodedField) × (length (U.encode payload.text) ≤ u32_max)
        × (length payload.attachments ≤ u16_max)
        × (fields_of U payload.attachments ≡ some fields)
        × (encode_fields U (U.encode payload.text) (some fields) ≡ some bytes)
  fields_some payload none bytes ht hf e eb = absurd (cc)
  fields_some payload (some fields) bytes ht hf e eb = (fields, ht, hf, e, eb)

  encode_payload-some :
      (payload : Payload) (bytes : List ℕ)
      → encode_payload U payload ≡ some bytes
      → (fields : List EncodedField) × (length (U.encode payload.text) ≤ u32_max)
        × (length payload.attachments ≤ u16_max)
        × (fields_of U payload.attachments ≡ some fields)
        × (encode_fields U (U.encode payload.text) (some fields) ≡ some bytes)
  unfolding encode_payload
  encode_payload-some payload bytes e =
      let (ht, e1) = guarded_some u32_max (length (U.encode payload.text)) _ bytes e in
      let (hf, e2) = guarded_some u16_max (length payload.attachments) _ bytes e1 in
      fields_some payload (fields_of U payload.attachments) bytes ht hf refl e2

  -- Whatever payload encodes, if UTF-8 carries its texts faithfully, decodes to itself, and the length
  -- of its encoding is the padded length of what it needs, so the length tells only that.
  pub decode-encode :
      (payload : Payload) (bytes : List ℕ)
      → encode_payload U payload ≡ some bytes
      → U.IsText payload.text
      → All AttachmentIsText payload.attachments
      → (decode_payload U bytes ≡ payload)
        × (length bytes
            ≡ target_padded_len
                (min_len (U.encode payload.text) (map (field_of U) payload.attachments)))
  decode-encode payload bytes e is_text are_texts =
      let (fields, ht, hf, ef, eb) = encode_payload-some payload bytes e in
      let (hp, same_bytes) = encode_fields-some (U.encode payload.text) fields bytes eb in
      (
        ap (decode_payload U) (sym same_bytes)
            ∙ put_payload-decoded payload fields ht hf ef hp is_text are_texts,
        ap length (sym same_bytes)
            ∙ length-padded (U.encode payload.text) fields
            ∙ ap (λ fs. target_padded_len (min_len (U.encode payload.text) fs))
                (fields_of-All payload.attachments fields ef).1,
      )
