-- ===== src/Tests/Codecs.antt =====
-- The theorems on the message's encodings, on a small payload.
use aesmsg.Prelude.{
  zero, suc, arith, Option, All, ◌++◌, Text, replicate, ℕ, ◌*◌, ◌≤◌, ◌<◌, ◌≡◌, ◌⊎◌, refl, map, some,
  List, [], ◌∷◌, codes, length,
}
use aesmsg.Link.{pos, negsuc}
use aesmsg.Crypto.Aad.{MessageBindingContext, integer, put_aad, encode_aad}
use aesmsg.Crypto.Aad.Binding.{encode_aad-binds}
use aesmsg.Crypto.Wire.{
  base64url_encode, base64url_decode, pubkey_prefix, encode_pubkey, encode_ciphertext_blob,
  decode_ciphertext_blob,
}
use aesmsg.Crypto.Wire.RoundTrip.{base64url_decode-encode}
use aesmsg.Crypto.BigEndian.{IsByte}
use aesmsg.Crypto.Pad.{target_padded_len}
use aesmsg.Crypto.Pad.Overhead.{target_padded_len_bounds}
use aesmsg.Crypto.Payload.{
  Utf8, Payload, PayloadAttachment, encode_payload, decode_payload, fields_of, field_of, min_len,
  put_payload,
}
use aesmsg.Crypto.Payload.RoundTrip.{decode-encode}

target_padded_len_bounds_example :
    (5000 ≤ target_padded_len 5000)
    × ((target_padded_len 5000 ≡ 256)
        ⊎ ((target_padded_len 5000 ≡ 1024)
            ⊎ ((target_padded_len 5000 ≡ 4096)
                ⊎ ((4096 < 5000) × (16 * target_padded_len 5000 ≤ 17 * 5000)))))
target_padded_len_bounds_example = target_padded_len_bounds 5000

-- On ASCII, UTF-8 writes every character as its own byte.
abbrev pub ascii : Utf8
ascii = record {
  encode = λ s. s;
  decode = λ s. s;
  IsText = λ s. Unit {0};
  decode-encode = λ s h. refl;
}

abbrev attachment : PayloadAttachment
attachment = record { filename = codes "a"; mimetype = codes "b"; bytes = 1 ∷ 2 ∷ [] }

abbrev payload : Payload
payload = record { text = codes "hi"; attachments = attachment ∷ [] }

abbrev encoded : List ℕ
encoded = put_payload (codes "hi") (field_of ascii attachment ∷ []) 231

encoded_lem : encode_payload ascii payload ≡ some encoded
unfolding encode_payload fields_of target_padded_len
encoded_lem = refl

decode-encode_example :
    (decode_payload ascii encoded ≡ payload)
    × (length encoded
        ≡ target_padded_len
            (min_len (ascii.encode payload.text) (map (field_of ascii) payload.attachments)))
decode-encode_example = decode-encode ascii payload encoded encoded_lem tt ((tt, tt), tt)

abbrev context : MessageBindingContext
context = record {
  link_id = codes "AAAAAAAAAAAAAAAA";
  recipient_public_key = codes "amk1:";
  created_at_ms = some (integer (pos 5));
  expires_at_ms = integer (pos 1000);
  max_opens = integer (negsuc 0);
}

abbrev hash_key : Text → Option (List ℕ)
hash_key key = some (replicate 32 9)

abbrev bound_bytes : List ℕ
bound_bytes = put_aad (some 5, 1000) (negsuc 0) context.link_id (replicate 32 9)

context_lem : encode_aad ascii hash_key context ≡ some bound_bytes
unfolding encode_aad
context_lem = refl

encode_aad-binds_example :
    (context.link_id ≡ context.link_id)
    × (hash_key context.recipient_public_key ≡ hash_key context.recipient_public_key)
    × (context.created_at_ms ≡ context.created_at_ms)
    × (context.expires_at_ms ≡ context.expires_at_ms)
    × (context.max_opens ≡ context.max_opens)
encode_aad-binds_example =
    encode_aad-binds ascii hash_key context context bound_bytes context_lem context_lem tt tt tt tt

base64url_decode-encode_example :
    base64url_decode (base64url_encode (1 ∷ 200 ∷ 3 ∷ 255 ∷ [])) ≡ some (1 ∷ 200 ∷ 3 ∷ 255 ∷ [])
base64url_decode-encode_example =
    base64url_decode-encode (1 ∷ 200 ∷ 3 ∷ 255 ∷ [])
      (omega arith, (omega arith, (omega arith, (omega arith, tt))))

abbrev raw_key : List ℕ
raw_key = replicate 32 7

abbrev key_text : Text
key_text = pubkey_prefix ++ base64url_encode (1 ∷ 1 ∷ raw_key)

key_text_lem : encode_pubkey raw_key ≡ some key_text
unfolding encode_pubkey
key_text_lem = refl

bytes_of_seven : (n : ℕ) → All IsByte (replicate n 7)
bytes_of_seven zero = tt
bytes_of_seven (suc n) = (omega arith, bytes_of_seven n)

abbrev test_blob : List ℕ
test_blob = 1 ∷ 1 ∷ (raw_key ++ (5 ∷ 6 ∷ []))

test_blob_encoded : encode_ciphertext_blob raw_key (5 ∷ 6 ∷ []) ≡ some test_blob
unfolding encode_ciphertext_blob
test_blob_encoded = refl

test_blob_decoded : decode_ciphertext_blob test_blob ≡ some (raw_key, 5 ∷ 6 ∷ [])
unfolding decode_ciphertext_blob
test_blob_decoded = refl
