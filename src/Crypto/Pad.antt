-- ===== src/Crypto/Pad.antt =====
-- packages/crypto/src/pad.ts. `Math.floor(Math.log2(n))` is exact on the lengths of payloads, which
-- stay far below 2 ^ 47.
pub mod Overhead
use aesmsg.Prelude.{
  ℕ, zero, suc, ◌+◌, ◌-◌, ◌*◌, ◌/◌, ◌^◌, ◌<◌, ◌≤◌, Bool, List, [], ◌∷◌, leb, ltb, if◌then◌else◌,
  ◌==◌,
}

-- PAD_BUCKETS
abbrev pub pad_buckets : List ℕ
pad_buckets = 256 ∷ 1024 ∷ 4096 ∷ []

abbrev pub log2_fuel : ℕ → ℕ → ℕ
log2_fuel zero n = 0
log2_fuel (suc f) n = let rest = log2_fuel f (n / 2) in if ltb n 2 then 0 else suc rest

-- Math.floor(Math.log2(n)); the halvings are fewer than n.
unfoldable pub floor_log2 : ℕ → ℕ
floor_log2 n = log2_fuel n n

unfoldable pub ceil_div : ℕ → ℕ → ℕ
ceil_div n d = (n + d - 1) / d

-- `lastBits`, or 0 where it would not be positive.
unfoldable pub last_bits : ℕ → ℕ
last_bits len = let exponent = floor_log2 len in exponent - (floor_log2 exponent + 1)

unfoldable pub padme : ℕ → ℕ
padme len = if last_bits len == 0 then len else ceil_div len (2 ^ last_bits len) * 2 ^ last_bits len

-- The first bucket that fits, else Padmé.
abbrev pub first_bucket : List ℕ → ℕ → ℕ
first_bucket [] raw_len = padme raw_len
first_bucket (bucket ∷ rest) raw_len =
    let more = first_bucket rest raw_len in if leb raw_len bucket then bucket else more

unfoldable pub target_padded_len : ℕ → ℕ
target_padded_len raw_len = first_bucket pad_buckets raw_len
