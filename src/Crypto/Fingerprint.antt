-- ===== src/Crypto/Fingerprint.antt =====
-- packages/crypto/src/fingerprint.ts: fingerprint and truncateFingerprint. `sha256` is a parameter, and
-- `groups` is a whole number.
pub mod Groups
use aesmsg.Prelude.{
  ℕ, zero, suc, ◌||◌, not, List, [], ◌∷◌, ◌++◌, Option, none, some, Text, ltb, ◌==◌, take, drop,
  length, codes, if◌then◌else◌,
}
use aesmsg.Crypto.Wire.{decode_pubkey, bytes_to_upper_hex}

abbrev pub fingerprint_bytes : ℕ
fingerprint_bytes = 16

abbrev pub hex_group_size : ℕ
hex_group_size = 4

abbrev pub hex_group_count : ℕ
hex_group_count = 8

abbrev pub fingerprint_prefix : Text
fingerprint_prefix = codes "AM-"

-- The loop that cuts the text into groups.
unfoldable pub groups_of : ℕ → Text → List Text
groups_of zero s = []
groups_of (suc n) s = take hex_group_size s ∷ groups_of n (drop hex_group_size s)

-- `groups.join(separator)`, of a separator of one character.
unfoldable pub join : ℕ → List Text → Text
join separator [] = []
join separator (g ∷ []) = g
join separator (g ∷ h ∷ gs) = g ++ (separator ∷ join separator (h ∷ gs))

-- `s.replace(/-/g, "")`
unfoldable pub remove_char : ℕ → Text → Text
remove_char c [] = []
remove_char c (x ∷ xs) = let rest = remove_char c xs in if x == c then rest else x ∷ rest

abbrev pub fingerprint_of : List ℕ → Text
fingerprint_of digest =
    fingerprint_prefix
    ++ join b'-' (groups_of hex_group_count (bytes_to_upper_hex (take fingerprint_bytes digest)))

abbrev pub of_key : (List ℕ → List ℕ) → Option (List ℕ × List ℕ) → Option Text
of_key sha256 none = none
of_key sha256 (some (raw_key, canonical)) = some (fingerprint_of (sha256 canonical))

unfoldable pub fingerprint : (List ℕ → List ℕ) → Text → Option Text
unfolding decode_pubkey bytes_to_upper_hex groups_of join
fingerprint sha256 pk = of_key sha256 (decode_pubkey pk)

unfoldable pub truncate_fingerprint : Text → ℕ → Option Text
unfolding groups_of join remove_char
truncate_fingerprint fp groups =
    if ltb groups 1 || ltb hex_group_count groups
    then none
    else some
        (join b' ' (groups_of groups (remove_char b'-' (drop (length fingerprint_prefix) fp))))
