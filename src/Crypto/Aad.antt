-- ===== src/Crypto/Aad.antt =====
-- packages/crypto/src/aad.ts: the associated data that bind a ciphertext to its link. The SHA-256 of
-- the recipient's raw key, behind the import of the key, is a parameter.
pub mod Layout
pub mod Binding
use aesmsg.Prelude.{
  ℕ, ◌+◌, ◌-◌, ◌%◌, ◌^◌, Bool, true, false, ◌&&◌, not, Option, none, some, List, [], ◌∷◌, ◌++◌,
  Text, leb, ltb, ◌==◌, length, if◌then◌else◌,
}
use aesmsg.Link.{ℤ, pos, negsuc}
use aesmsg.Crypto.BigEndian.{write_be}
use aesmsg.Crypto.Payload.{Utf8}

-- A JavaScript number: an integer, or one that is none.
pub data Number : Type 0 where
  integer : ℤ → Number
  not_integer : Number

pub record MessageBindingContext : Type 0 where
  pub link_id : Text
  pub recipient_public_key : Text
  pub created_at_ms : Option Number
  pub expires_at_ms : Number
  pub max_opens : Number

abbrev pub aad_version : ℕ
aad_version = 1

abbrev pub aad_version_v2 : ℕ
aad_version_v2 = 2

abbrev pub wire_version : ℕ
wire_version = 1

abbrev pub suite_x25519_aes256gcm : ℕ
suite_x25519_aes256gcm = 1

abbrev pub recip_hash_len : ℕ
recip_hash_len = 32

abbrev pub link_id_bytes_exact : ℕ
link_id_bytes_exact = 16

-- `Number.isSafeInteger(n) && n >= 0`, with the number.
abbrev pub safe_nonnegative : Number → Option ℕ
safe_nonnegative not_integer = none
safe_nonnegative (integer (negsuc n)) = none
safe_nonnegative (integer (pos n)) = if ltb n (2 ^ 53) then some n else none

-- `Number.isInteger(n) && !(n <= 0 && n !== -1)`
abbrev pub checked_opens : Number → Option ℤ
checked_opens not_integer = none
checked_opens (integer (pos n)) = if ltb 0 n then some (pos n) else none
checked_opens (integer (negsuc n)) = if n == 0 then some (negsuc n) else none

-- The bits that `setInt32` stores: those of the two's complement, modulo 2 ^ 32.
abbrev pub int32_bits : ℤ → ℕ
int32_bits (pos n) = n % 2 ^ 32
int32_bits (negsuc n) = 2 ^ 32 - 1 - n % 2 ^ 32

-- The version byte and the times, once they are checked. `none` is a throw.
abbrev pub Times : Type 0
Times = Option ℕ × ℕ

abbrev pub checked_v1 : Option ℕ → Option ℕ → Option Times
checked_v1 none expires = none
checked_v1 (some created) none = none
checked_v1 (some created) (some expires) =
    if leb expires created then none else some (some created, expires)

abbrev pub checked_v2 : Option ℕ → Option Times
checked_v2 none = none
checked_v2 (some expires) = if leb expires 0 then none else some (none, expires)

abbrev pub checked_times : Option Number → Number → Option Times
checked_times none expires = checked_v2 (safe_nonnegative expires)
checked_times (some created) expires =
    checked_v1 (safe_nonnegative created) (safe_nonnegative expires)

abbrev pub version_of : Option ℕ → ℕ
version_of none = aad_version_v2
version_of (some created) = aad_version

abbrev pub put_created : Option ℕ → List ℕ
put_created none = []
put_created (some created) = write_be 8 created

-- The bytes, in the order of the writes.
unfoldable pub put_aad : Times → ℤ → List ℕ → List ℕ → List ℕ
put_aad (created, expires) max_opens link_id recip_hash =
    version_of created
    ∷ wire_version
    ∷ suite_x25519_aes256gcm
    ∷ (write_be 2 (length link_id)
        ++ (link_id
            ++ (recip_hash
                ++ (put_created created
                    ++ (write_be 8 expires ++ write_be 4 (int32_bits max_opens))))))

abbrev pub with_hash : Times → ℤ → List ℕ → Option (List ℕ) → Option (List ℕ)
with_hash times max_opens link_id none = none
with_hash times max_opens link_id (some recip_hash) =
    if length recip_hash == recip_hash_len
    then some (put_aad times max_opens link_id recip_hash)
    else none

abbrev pub with_link_id : Option Times → Option ℤ → List ℕ → Option (List ℕ) → Option (List ℕ)
with_link_id none max_opens link_id recip_hash = none
with_link_id (some times) none link_id recip_hash = none
with_link_id (some times) (some max_opens) link_id recip_hash =
    if length link_id == link_id_bytes_exact
    then with_hash times max_opens link_id recip_hash
    else none

module _ (U : Utf8) (hash_recipient_pubkey : Text → Option (List ℕ)) where
  unfoldable pub encode_aad : MessageBindingContext → Option (List ℕ)
  encode_aad ctx =
      with_link_id (checked_times ctx.created_at_ms ctx.expires_at_ms) (checked_opens ctx.max_opens)
        (U.encode ctx.link_id) (hash_recipient_pubkey ctx.recipient_public_key)
