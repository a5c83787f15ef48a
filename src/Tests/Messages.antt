-- ===== src/Tests/Messages.antt =====
-- The theorems on sealed messages, with a key that is public and an AEAD that hides nothing.
use aesmsg.Prelude.{
  ap, ℕ, zero, suc, Bool, false, ◌≡◌, refl, sym, inl, inr, true, Bool-cases, Option, none, some,
  List, [], ◌∷◌, ◌++◌, Text, codes, text_eq, text_eq_iff, text_eq_refl, take, drop, take-append,
  drop-append, length, replicate, arith, All,
}
use aesmsg.Link.{pos, active}
use aesmsg.Crypto.BigEndian.{IsByte, write_be}
use aesmsg.Crypto.Aad.{integer, encode_aad, put_aad, MessageBindingContext}
use aesmsg.Crypto.Wire.{
  encode_pubkey, decode_pubkey, symbol_at, encode_ciphertext_blob, decode_ciphertext_blob,
}
use aesmsg.Crypto.Payload.{fields_of}
use aesmsg.Crypto.Pad.{target_padded_len}
use aesmsg.Crypto.Seal.Binding.{open_ciphertext-binds}
use aesmsg.Crypto.Seal.{
  Hpke, Recipient, IdentityKeypair, keypair_of, generate_identity, export_public_key, seal,
  open_ciphertext,
}
use aesmsg.Api.{JsonRuntime}
use aesmsg.Crypto.Wrap.{
  WrapPrimitives, Parsed, mobile_kdf_params, envelope_json, derive_wrap_key, needs_rewrap,
  read_wrap_kdf_params, wrap_private_key, unwrap_private_key, ok,
}
use aesmsg.Crypto.Wrap.RoundTrip.{unwrap-wrap_private_key, needs_rewrap-wrap_private_key}
use aesmsg.Crypto.Fingerprint.{fingerprint}
use aesmsg.Mobile.Message.{
  CreateAndSealInput, create_and_seal, hash_recipient_pubkey, decrypt_open_response,
  decrypt_open_response-create_and_seal, returned, sent_attachments, sent_context,
}
use aesmsg.Tests.{id_a}
use aesmsg.Tests.Codecs.{ascii}

abbrev opened : Bool → List ℕ → Option (List ℕ)
opened true plaintext = some plaintext
opened false plaintext = none

abbrev open_output : List ℕ → List ℕ → Option (List ℕ)
open_output [] aad = none
open_output (n ∷ rest) aad = opened (text_eq (take n rest) aad) (drop n rest)

seals :
    (plaintext aad : List ℕ) → open_output (length aad ∷ (aad ++ plaintext)) aad ≡ some plaintext
seals plaintext aad =
    rw (take-append aad plaintext, drop-append aad plaintext, text_eq_refl aad) refl

binds :
    (plaintext aad other result : List ℕ)
    → open_output (length aad ∷ (aad ++ plaintext)) other ≡ some result
    → (other ≡ aad) × (result ≡ plaintext)
binds plaintext aad other result e = elim (Bool-cases (text_eq aad other)) [
  | inl t ↦ (
    sym ((text_eq_iff aad other).0 t),
    cc (rw (take-append aad plaintext, drop-append aad plaintext, t) at e),
  )
  | inr t ↦ absurd (cc (rw (take-append aad plaintext, drop-append aad plaintext, t) at e))
]

sevens-IsByte : (n : ℕ) → All IsByte (replicate n 7)
sevens-IsByte zero = tt
sevens-IsByte (suc n) = (omega arith, sevens-IsByte n)

abbrev hpke : Hpke
hpke = record {
  PublicKey = Unit {0};
  PrivateKey = Unit {0};
  public_of = λ key. key;
  serialize_public_key = λ key. replicate 32 7;
  deserialize_public_key = λ raw. some tt;
  deserialize-serialize = λ key. refl;
  serialize-IsByte = λ key. sevens-IsByte 32;
  serialize_private_key = λ key. replicate 32 7;
  deserialize_private_key = λ raw. some tt;
  deserialize-serialize_private_key = λ key. refl;
  length-serialize_private_key = λ key. refl;
  serialize_private_key-IsByte = λ key. sevens-IsByte 32;
  seal_hpke = λ draw key plaintext aad. (replicate 32 1, length aad ∷ (aad ++ plaintext));
  open_hpke = λ key enc output aad. open_output output aad;
  open-seal_hpke = λ draw key plaintext aad. seals plaintext aad;
  seal_hpke-binds = λ draw key plaintext aad other result e. binds plaintext aad other result e;
  length-seal_hpke = λ draw key plaintext aad. refl;
}

abbrev sha256 : List ℕ → List ℕ
sha256 bytes = replicate 32 9

abbrev some_text : Option (List ℕ) → List ℕ
some_text none = []
some_text (some s) = s

abbrev key_string : Text
key_string = some_text (encode_pubkey (replicate 32 7))

abbrev identity : IdentityKeypair hpke
identity = keypair_of hpke tt key_string

identity-generate : generate_identity hpke tt ≡ some identity
unfolding generate_identity encode_pubkey
identity-generate = refl

abbrev input : CreateAndSealInput
input = record {
  recipient_public_key_string = key_string;
  message = codes "hi";
  expires_at = integer (pos 5000);
  max_opens = integer (pos 1);
  attachment =
      some (record { filename = codes "a.txt"; mimetype = codes "text/plain"; bytes = 1 ∷ 2 ∷ [] });
}

abbrev ciphertext : List ℕ
ciphertext = some_text (create_and_seal hpke ascii sha256 0 id_a input)

ciphertext-seal : create_and_seal hpke ascii sha256 0 id_a input ≡ some ciphertext
unfolding create_and_seal decode_pubkey text_eq encode_pubkey symbol_at fields_of target_padded_len
    encode_aad hash_recipient_pubkey encode_ciphertext_blob
ciphertext-seal = refl

abbrev fp : Text
fp = some_text (fingerprint sha256 key_string)

fp-fingerprint : fingerprint sha256 (export_public_key hpke identity) ≡ some fp
unfolding fingerprint export_public_key text_eq encode_pubkey
fp-fingerprint = refl

decrypt_open_response-create_and_seal_example :
    decrypt_open_response hpke ascii sha256
      (returned hpke ascii sha256 ciphertext input 1 active)
      identity
      id_a
    ≡ some (record {
      text = input.message;
      attachments = sent_attachments hpke ascii sha256 input.attachment;
      recipient_fingerprint = fp;
      opens_count = 1;
      max_opens = input.max_opens;
      status = active;
    })
unfolding export_public_key encode_pubkey
decrypt_open_response-create_and_seal_example =
    decrypt_open_response-create_and_seal hpke ascii sha256 0 id_a input tt identity ciphertext 1
      active fp identity-generate refl ciphertext-seal fp-fingerprint tt ((tt, tt), tt)

abbrev hash_key : Text → Option (List ℕ)
hash_key pk = some (replicate 32 9)

abbrev recipient : Recipient hpke
recipient = record { crypto_key = tt; raw_key = replicate 32 7 }

abbrev context : MessageBindingContext
context = sent_context id_a input

abbrev sealed : List ℕ
sealed = some_text (seal hpke ascii hash_key 0 (codes "hi") recipient context)

sealed-seal : seal hpke ascii hash_key 0 (codes "hi") recipient context ≡ some sealed
unfolding seal decode_pubkey text_eq encode_pubkey symbol_at encode_aad encode_ciphertext_blob
sealed-seal = refl

sealed-open : open_ciphertext hpke ascii hash_key sealed identity context ≡ some (codes "hi")
unfolding open_ciphertext seal decode_pubkey text_eq encode_pubkey symbol_at encode_aad
    encode_ciphertext_blob decode_ciphertext_blob put_aad write_be
sealed-open = refl

open_ciphertext-binds_example :
    (codes "hi" ≡ codes "hi")
    × (context.link_id ≡ context.link_id)
    × (hash_key context.recipient_public_key ≡ hash_key context.recipient_public_key)
    × (context.created_at_ms ≡ context.created_at_ms)
    × (context.expires_at_ms ≡ context.expires_at_ms)
    × (context.max_opens ≡ context.max_opens)
open_ciphertext-binds_example =
    open_ciphertext-binds hpke ascii hash_key 0 (codes "hi") recipient identity context context
      sealed (codes "hi") refl sealed-seal sealed-open tt tt (omega arith) (omega arith)

zeros-IsByte : (n : ℕ) (bytes : List ℕ) → All IsByte bytes → All IsByte (replicate n 0 ++ bytes)
zeros-IsByte zero bytes h = h
zeros-IsByte (suc n) bytes h = (omega arith, zeros-IsByte n bytes h)

abbrev primitives : WrapPrimitives
primitives = record {
  argon2id = λ passphrase salt m_kib t. some (replicate 32 5);
  aes_gcm_encrypt = λ key iv plaintext. replicate 16 0 ++ plaintext;
  aes_gcm_decrypt = λ key iv ct. some (drop 16 ct);
  decrypt-encrypt = λ key iv plaintext h. refl;
  length-encrypt = λ key iv plaintext. omega arith;
  encrypt-IsByte = λ key iv plaintext h. zeros-IsByte 16 plaintext h;
  fraction_exceeds = λ bound. false;
}

abbrev salt : List ℕ
salt = replicate 16 7

abbrev iv : List ℕ
iv = replicate 12 7

abbrev envelope : Parsed
envelope = record {
  salt = salt;
  iv = iv;
  ct = replicate 16 0 ++ replicate 32 7;
  public_key = replicate 32 7;
  params = mobile_kdf_params;
}

abbrev json : JsonRuntime
json = record {
  parse = λ raw. elim raw [ [] ↦ none | c ∷ cs ↦ some (envelope_json envelope) ];
  stringify = λ x. codes "{}";
  IsPlain = λ x. x ≡ envelope_json envelope;
  parse-stringify = λ x h. ap some (sym h);
  parse_nil = refl;
  is_finite = λ x. true;
}

identity-wrap :
    wrap_private_key json primitives hpke salt iv identity (codes "pass") mobile_kdf_params
    ≡ some (codes "{}")
unfolding wrap_private_key derive_wrap_key
identity-wrap = refl

unwrap-wrap_private_key_example :
    (unwrap_private_key json primitives hpke (codes "{}") (codes "pass") ≡ ok identity)
    × (read_wrap_kdf_params json (codes "{}") ≡ some mobile_kdf_params)
unwrap-wrap_private_key_example =
    unwrap-wrap_private_key json primitives hpke salt iv tt identity (codes "pass")
      mobile_kdf_params (codes "{}") (refl, sevens-IsByte 16) (refl, sevens-IsByte 12)
      identity-generate (λ wrap_key. refl) identity-wrap

needs_rewrap-wrap_private_key_example : needs_rewrap primitives json (codes "{}") ≡ some false
needs_rewrap-wrap_private_key_example =
    needs_rewrap-wrap_private_key json primitives hpke salt iv tt identity (codes "pass")
      (codes "{}") (refl, sevens-IsByte 16) (refl, sevens-IsByte 12) identity-generate
      (λ wrap_key. refl) identity-wrap
