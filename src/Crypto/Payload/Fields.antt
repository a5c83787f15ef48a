-- ===== src/Crypto/Payload/Fields.antt =====
-- The attachments of an envelope of packages/crypto/src/payload.ts, read back.
use aesmsg.Prelude.{
  ℕ, suc, ◌≡◌, refl, ap, ◌∙◌, true, List, [], ◌∷◌, ◌++◌, some, length, map, arith, append_assoc,
  All, length-append,
}
use aesmsg.Crypto.BigEndian.{
  write_be, take_bytes, read_uint, >>=-step, read_uint-write_be, take_bytes-append, length-write_be,
}
use aesmsg.Crypto.Payload.{
  Utf8, PayloadAttachment, EncodedField, put_field, put_fields, field_len, fields_len, fits,
  get_attachment, get_attachments,
}

put_field-append :
    (f : EncodedField) (rest : List ℕ)
    → put_field f ++ rest
      ≡ write_be 2 (length f.name_bytes)
        ++ (f.name_bytes
            ++ (write_be 2 (length f.mime_bytes)
                ++ (f.mime_bytes ++ (write_be 4 (length f.content) ++ (f.content ++ rest)))))
unfolding put_field
put_field-append f rest = simp append_assoc

pub length-put_field : (f : EncodedField) → length (put_field f) ≡ field_len f
unfolding put_field
length-put_field f = simp (length-append, length-write_be) (omega arith)

pub length-put_fields : (fs : List EncodedField) → length (put_fields fs) ≡ fields_len fs
unfolding put_fields
length-put_fields [] = refl
length-put_fields (f ∷ fs) =
    omega
      (arith, length-append (put_field f) (put_fields fs), length-put_field f, length-put_fields fs)

module _ (U : Utf8) where
  abbrev pub attachment_of : EncodedField → PayloadAttachment
  attachment_of f = record {
    filename = U.decode f.name_bytes;
    mimetype = U.decode f.mime_bytes;
    bytes = f.content;
  }

  pub get_attachment-put_field :
      (f : EncodedField) (rest : List ℕ)
      → fits U f ≡ true
      → get_attachment U (put_field f ++ rest) ≡ some (attachment_of f, rest)
  unfolding get_attachment
  get_attachment-put_field f rest h =
      ap (get_attachment U) (put_field-append f rest)
      ∙ >>=-step (read_uint 2) _ _ (read_uint-write_be 2 (length f.name_bytes) _ (ground arith))
      ∙ >>=-step (take_bytes (length f.name_bytes)) _ _ (take_bytes-append f.name_bytes _)
      ∙ >>=-step (read_uint 2) _ _ (read_uint-write_be 2 (length f.mime_bytes) _ (ground arith))
      ∙ >>=-step (take_bytes (length f.mime_bytes)) _ _ (take_bytes-append f.mime_bytes _)
      ∙ >>=-step (read_uint 4) _ _ (read_uint-write_be 4 (length f.content) _ (ground arith))
      ∙ >>=-step (take_bytes (length f.content)) _ _ (take_bytes-append f.content rest)

  pub get_attachments-put_fields :
      (fs : List EncodedField) (rest : List ℕ)
      → All (λ f. fits U f ≡ true) fs
      → get_attachments U (length fs) (put_fields fs ++ rest) ≡ some (map attachment_of fs, rest)
  unfolding get_attachments put_fields
  get_attachments-put_fields [] rest h = refl
  get_attachments-put_fields (f ∷ fs) rest h =
      ap (get_attachments U (suc (length fs))) (append_assoc (put_field f) (put_fields fs) rest)
      ∙ >>=-step (get_attachment U) _ _ (get_attachment-put_field f (put_fields fs ++ rest) h.0)
      ∙ >>=-step (get_attachments U (length fs)) _ _ (get_attachments-put_fields fs rest h.1)
