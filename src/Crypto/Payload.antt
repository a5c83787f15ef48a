-- ===== src/Crypto/Payload.antt =====
-- packages/crypto/src/payload.ts: the plaintext envelope of a message. The code writes into one buffer
-- at a running offset; here the fields are concatenated, and reading goes on with the bytes that are
-- left. A failed bounds check or length check throws: `none`.
pub mod Fields
pub mod RoundTrip
use aesmsg.Prelude.{
  ℕ, zero, suc, ◌+◌, ◌-◌, ◌*◌, ◌^◌, ◌<◌, ◌≤◌, ◌≡◌, Bool, true, false, ◌||◌, ◌&&◌, List, [], ◌∷◌,
  ◌++◌, Option, none, some, Text, leb, ltb, ◌==◌, if◌then◌else◌, length, replicate, map,
}
use aesmsg.Crypto.BigEndian.{write_be, Parser, ◌>>=◌, pure, take_bytes, read_uint}
use aesmsg.Crypto.Pad.{target_padded_len}

-- `TextEncoder` and `TextDecoder`. `IsText` stands for the texts that UTF-8 carries faithfully: no
-- lone surrogate, and no leading byte order mark, which `TextDecoder` drops.
pub record Utf8 : Type 1 where
  pub encode : Text → List ℕ
  pub decode : List ℕ → Text
  pub IsText : Text → Type 0
  pub decode-encode : (s : Text) → IsText s → decode (encode s) ≡ s

pub record PayloadAttachment : Type 0 where
  pub filename : Text
  pub mimetype : Text
  pub bytes : List ℕ

pub record Payload : Type 0 where
  pub text : Text
  pub attachments : List PayloadAttachment

abbrev pub payload_version : ℕ
payload_version = 2

abbrev pub payload_version_v1 : ℕ
payload_version_v1 = 1

abbrev pub u16_max : ℕ
u16_max = 0xffff

abbrev pub u32_max : ℕ
u32_max = 0xffffffff

abbrev pub pad_len_field_bytes : ℕ
pad_len_field_bytes = 4

pub record EncodedField : Type 0 where
  pub name_bytes : List ℕ
  pub mime_bytes : List ℕ
  pub content : List ℕ

unfoldable pub put_field : EncodedField → List ℕ
put_field f =
    write_be 2 (length f.name_bytes)
    ++ (f.name_bytes
        ++ (write_be 2 (length f.mime_bytes)
            ++ (f.mime_bytes ++ (write_be 4 (length f.content) ++ f.content))))

unfoldable pub put_fields : List EncodedField → List ℕ
put_fields [] = []
put_fields (f ∷ fs) = put_field f ++ put_fields fs

abbrev pub field_len : EncodedField → ℕ
field_len f = 2 + length f.name_bytes + 2 + length f.mime_bytes + 4 + length f.content

abbrev pub fields_len : List EncodedField → ℕ
fields_len [] = 0
fields_len (f ∷ fs) = field_len f + fields_len fs

abbrev pub body_len : List ℕ → List EncodedField → ℕ
body_len text_bytes fields = 1 + 4 + length text_bytes + 2 + fields_len fields

abbrev pub min_len : List ℕ → List EncodedField → ℕ
min_len text_bytes fields = body_len text_bytes fields + pad_len_field_bytes

-- The length of the pad; `targetPaddedLen` never falls short of its argument.
abbrev pub pad_len : List ℕ → List EncodedField → ℕ
pad_len text_bytes fields =
    target_padded_len (min_len text_bytes fields) - min_len text_bytes fields

unfoldable pub put_payload : List ℕ → List EncodedField → ℕ → List ℕ
unfolding put_fields put_field
put_payload text_bytes fields pad =
    write_be 1 payload_version
    ++ (write_be 4 (length text_bytes)
        ++ (text_bytes
            ++ (write_be 2 (length fields)
                ++ (put_fields fields ++ (write_be 4 pad ++ replicate pad 0)))))

module _ (U : Utf8) where
  abbrev pub fits : EncodedField → Bool
  fits f =
      leb (length f.name_bytes) u16_max
      && leb (length f.mime_bytes) u16_max
      && leb (length f.content) u32_max

  abbrev pub field_of : PayloadAttachment → EncodedField
  field_of att = record {
    name_bytes = U.encode att.filename;
    mime_bytes = U.encode att.mimetype;
    content = att.bytes;
  }

  abbrev pub cons_field : EncodedField → Option (List EncodedField) → Option (List EncodedField)
  cons_field f none = none
  cons_field f (some fs) = if fits f then some (f ∷ fs) else none

  unfoldable pub fields_of : List PayloadAttachment → Option (List EncodedField)
  fields_of [] = some []
  fields_of (att ∷ atts) = cons_field (field_of att) (fields_of atts)

  abbrev pub encode_fields : List ℕ → Option (List EncodedField) → Option (List ℕ)
  encode_fields text_bytes none = none
  encode_fields text_bytes (some fields) =
      if ltb u32_max (pad_len text_bytes fields)
      then none
      else some (put_payload text_bytes fields (pad_len text_bytes fields))

  unfoldable pub encode_payload : Payload → Option (List ℕ)
  encode_payload payload =
      if ltb u32_max (length (U.encode payload.text))
      then none
      else if ltb u16_max (length payload.attachments)
      then none
      else encode_fields (U.encode payload.text) (fields_of payload.attachments)

  unfoldable pub get_attachment : Parser PayloadAttachment
  get_attachment = do
    name_len ← read_uint 2
    name ← take_bytes name_len
    mime_len ← read_uint 2
    mime ← take_bytes mime_len
    content_len ← read_uint 4
    content ← take_bytes content_len
    pure (record { filename = U.decode name; mimetype = U.decode mime; bytes = content })

  -- The loop over `attCount`.
  unfoldable pub get_attachments : ℕ → Parser (List PayloadAttachment)
  unfolding get_attachment
  get_attachments zero = pure []
  get_attachments (suc n) = do att ← get_attachment; atts ← get_attachments n; pure (att ∷ atts)

  unfoldable pub skip_pad : Parser (Unit {0})
  skip_pad = do pad ← read_uint 4; _ ← take_bytes pad; pure tt

  abbrev pub get_body : Bool → Parser Payload
  get_body has_pad_trailer = do
    text_len ← read_uint 4
    text ← take_bytes text_len
    att_count ← read_uint 2
    attachments ← get_attachments att_count
    _ ← (if has_pad_trailer then skip_pad else pure tt)
    pure (record { text = U.decode text; attachments = attachments })

  -- `off !== bytes.length`
  abbrev pub all_read : Option (Payload × List ℕ) → Option Payload
  all_read none = none
  all_read (some (payload, [])) = some payload
  all_read (some (payload, b ∷ rest)) = none

  unfoldable pub decode_strict : List ℕ → Option Payload
  unfolding get_attachments skip_pad
  decode_strict [] = none
  decode_strict (version ∷ rest) =
      if version == payload_version
      then all_read (get_body true rest)
      else if version == payload_version_v1
      then all_read (get_body false rest)
      else none

  abbrev pub legacy : List ℕ → Payload
  legacy bytes = record { text = U.decode bytes; attachments = [] }

  abbrev pub or_legacy : List ℕ → Option Payload → Payload
  or_legacy bytes none = legacy bytes
  or_legacy bytes (some payload) = payload

  unfoldable pub decode_payload : List ℕ → Payload
  unfolding decode_strict
  decode_payload bytes = or_legacy bytes (decode_strict bytes)
