-- ===== src/Crypto/Wire.antt =====
-- packages/crypto/src/wire.ts: base64url, lower-case base32 and upper-case hex, public keys and
-- ciphertext blobs. A throw is `none`. `value` is an int32 in the source; `%` keeps its bits. The
-- arithmetic shift and the mask read bits that are the same in the unsigned reading.
pub mod Base64
pub mod RoundTrip
pub mod Keys
use aesmsg.Prelude.{
  ℕ, zero, suc, ◌+◌, ◌-◌, ◌*◌, ◌/◌, ◌%◌, ◌^◌, Bool, true, false, ◌&&◌, not, List, [], ◌∷◌, ◌++◌,
  Option, none, some, Text, leb, ltb, ◌==◌, if◌then◌else◌, length, take, drop, codes, text_eq,
}

abbrev pub base64url_alphabet : Text
base64url_alphabet = codes "ABCDEFGHIJKLMNOPQRSTUVWXYZabcdefghijklmnopqrstuvwxyz0123456789-_"

abbrev pub base32_alphabet : Text
base32_alphabet = codes "abcdefghijklmnopqrstuvwxyz234567"

-- `ALPHABET[i]`
unfoldable pub symbol_at : Text → ℕ → ℕ
symbol_at [] i = 0
symbol_at (c ∷ cs) zero = c
symbol_at (c ∷ cs) (suc i) = symbol_at cs i

abbrev next_index : Option ℕ → Option ℕ
next_index none = none
next_index (some i) = some (suc i)

-- `TABLE[ch]`, of the table that maps each symbol to its index.
unfoldable pub index_of : Text → ℕ → Option ℕ
index_of [] ch = none
index_of (c ∷ cs) ch = if c == ch then some 0 else next_index (index_of cs ch)

-- The symbols of the inner loop, and the bits that it leaves. Fewer than `w` bits are pending before
-- the 8 bits of a byte, and `w` is at least 5, so two rounds are enough.
abbrev pub emit : ℕ → ℕ → Text → ℕ → ℕ → Text × ℕ
emit zero w alphabet bits value = ([], bits)
emit (suc rounds) w alphabet bits value =
    let (rest, left) = emit rounds w alphabet (bits - w) value in
    if leb w bits
    then (symbol_at alphabet (value / 2 ^ (bits - w) % 2 ^ w) ∷ rest, left)
    else ([], bits)

-- The loop over the bytes, and the last symbol, of `w` bits a symbol.
unfoldable pub encode_from : ℕ → Text → ℕ → ℕ → List ℕ → Text
encode_from w alphabet bits value [] =
    if ltb 0 bits then symbol_at alphabet (value * 2 ^ (w - bits) % 2 ^ 32 % 2 ^ w) ∷ [] else []
encode_from w alphabet bits value (b ∷ bs) =
    let next = (value * 256 + b) % 2 ^ 32 in
    let (out, left) = emit 2 w alphabet (bits + 8) next in
    out ++ encode_from w alphabet left next bs

unfoldable pub base64url_encode : List ℕ → Text
unfolding encode_from
base64url_encode bytes = encode_from 6 base64url_alphabet 0 0 bytes

unfoldable pub base32_encode_lower : List ℕ → Text
unfolding encode_from
base32_encode_lower bytes = encode_from 5 base32_alphabet 0 0 bytes

abbrev pub cons_byte : Bool → ℕ → Option (List ℕ) → Option (List ℕ)
cons_byte is_full b none = none
cons_byte is_full b (some bs) = if is_full then some (b ∷ bs) else some bs

-- The rest of a round, after its symbol's index is known.
abbrev pub bits_after : ℕ → ℕ
bits_after bits = if leb 8 bits then bits - 8 else bits

unfoldable pub decode_from : ℕ → ℕ → Text → Option (List ℕ)
unfolding index_of
decode_from bits value [] = some []
decode_from bits value (ch ∷ s) = elim (index_of base64url_alphabet ch) [
  | none ↦ none
  | some v ↦
      let next = (value * 64 + v) % 2 ^ 32 in
      cons_byte (leb 8 (bits + 6)) (next / 2 ^ (bits + 6 - 8) % 256)
        (decode_from (bits_after (bits + 6)) next s)
]

unfoldable pub base64url_decode : Text → Option (List ℕ)
unfolding decode_from
base64url_decode s = decode_from 0 0 s

abbrev pub pubkey_prefix : Text
pubkey_prefix = codes "amk1:"

abbrev pub raw_x25519_pubkey_len : ℕ
raw_x25519_pubkey_len = 32

abbrev pub encapsulated_key_len : ℕ
encapsulated_key_len = 32

unfoldable pub encode_pubkey : List ℕ → Option Text
unfolding base64url_encode
encode_pubkey raw_key =
    if length raw_key == raw_x25519_pubkey_len
    then some (pubkey_prefix ++ base64url_encode (1 ∷ 1 ∷ raw_key))
    else none

-- The checks of the canonical bytes; the result is `rawKey` and `canonical`.
abbrev pub checked_key : List ℕ → Option (List ℕ × List ℕ)
checked_key (version ∷ suite ∷ raw_key) =
    if not (length raw_key == raw_x25519_pubkey_len)
    then none
    else if not (version == 1)
    then none
    else if not (suite == 1)
    then none
    else some (raw_key, version ∷ suite ∷ raw_key)
checked_key _ = none

abbrev pub key_of : Option (List ℕ) → Option (List ℕ × List ℕ)
key_of none = none
key_of (some canonical) = checked_key canonical

unfoldable pub decode_pubkey : Text → Option (List ℕ × List ℕ)
unfolding base64url_decode
decode_pubkey s =
    if text_eq (take (length pubkey_prefix) s) pubkey_prefix
    then key_of (base64url_decode (drop (length pubkey_prefix) s))
    else none

unfoldable pub encode_ciphertext_blob : List ℕ → List ℕ → Option (List ℕ)
encode_ciphertext_blob enc aead_output =
    if length enc == encapsulated_key_len then some (1 ∷ 1 ∷ (enc ++ aead_output)) else none

-- The result is `enc` and `aeadOutput`.
abbrev pub checked_blob : List ℕ → Option (List ℕ × List ℕ)
checked_blob (version ∷ suite ∷ rest) =
    if ltb (length rest) encapsulated_key_len
    then none
    else if not (version == 1)
    then none
    else if not (suite == 1)
    then none
    else some (take encapsulated_key_len rest, drop encapsulated_key_len rest)
checked_blob _ = none

unfoldable pub decode_ciphertext_blob : List ℕ → Option (List ℕ × List ℕ)
decode_ciphertext_blob blob = checked_blob blob

abbrev pub hex_chars : Text
hex_chars = codes "0123456789ABCDEF"

unfoldable pub bytes_to_upper_hex : List ℕ → Text
unfolding symbol_at
bytes_to_upper_hex [] = []
bytes_to_upper_hex (b ∷ bs) =
    symbol_at hex_chars (b / 16 % 16) ∷ symbol_at hex_chars (b % 16) ∷ bytes_to_upper_hex bs
