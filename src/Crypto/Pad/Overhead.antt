-- ===== src/Crypto/Pad/Overhead.antt =====
-- The lengths that packages/crypto/src/pad.ts gives.
use native.Mathlib.Nat.{pow-suc, one-le-pow, pow-le-pow_right, div-add-mod', mod-lt}
use native.Mathlib.Numerals.{towards_suc}
use aesmsg.Prelude.{
  ℕ, zero, suc, ◌+◌, ◌-◌, ◌*◌, ◌/◌, ◌^◌, ◌<◌, ◌≤◌, ◌≡◌, ltb, ◌==◌, arith, ◌≢◌, ◌⊎◌, inl, inr,
  Bool-cases,
}
use aesmsg.Crypto.Pad.{log2_fuel, floor_log2, ceil_div, last_bits, padme, target_padded_len}

-- 2 ^ floor_log2 n ≤ n, for n > 0.
log2_fuel-le : (f n : ℕ) → 0 < n → 2 ^ log2_fuel f n ≤ n
log2_fuel-le zero n h = omega arith
log2_fuel-le (suc f) n h = elim (Bool-cases (ltb n 2)) [
  | inl e ↦ rw e (omega arith)
  | inr e ↦
      rw e (omega (arith, pow-suc 2 (log2_fuel f (n / 2)), log2_fuel-le f (n / 2) (ground arith)))
]

-- From 2 ^ k ≤ n on, the logarithm is at least k.
log2_fuel-ge : (k f n : ℕ) → n ≤ f → 2 ^ k ≤ n → k ≤ log2_fuel f n
log2_fuel-ge zero f n h g = omega arith
log2_fuel-ge (suc k) zero n h g = absurd (omega (arith, pow-suc 2 k, one-le-pow k 2 (omega arith)))
log2_fuel-ge (suc k) (suc f) n h g =
    let two_le : 2 ≤ n = omega (arith, pow-suc 2 k, one-le-pow k 2 (omega arith)) in
    let ih : k ≤ log2_fuel f (n / 2) =
      log2_fuel-ge k f (n / 2) (omega arith) (omega (arith, pow-suc 2 k)) in
    ground (arith, two_le, ih)

pow-floor_log2-le : (n : ℕ) → 0 < n → 2 ^ floor_log2 n ≤ n
unfolding floor_log2
pow-floor_log2-le n h = log2_fuel-le n n h

floor_log2-ge : (k n : ℕ) → 2 ^ k ≤ n → k ≤ floor_log2 n
unfolding floor_log2
floor_log2-ge k n h = log2_fuel-ge k n n (omega arith) h

-- Rounding up to a multiple adds less than the block.
ceil_div_bounds : (n d : ℕ) → 0 < d → (n ≤ ceil_div n d * d) × (ceil_div n d * d < n + d)
unfolding ceil_div
ceil_div_bounds n d h = omega (arith, div-add-mod' (n + d - 1) d, mod-lt (n + d - 1) h)

pow_four : (k : ℕ) → 2 ^ (k + 4) ≡ 16 * 2 ^ k
pow_four k = simp towards_suc (
    omega (
      arith,
      pow-suc 2 k,
      pow-suc 2 (suc k),
      pow-suc 2 (suc (suc k)),
      pow-suc 2 (suc (suc (suc k))),
    ))

-- Past the largest bucket at least four bits of a length are kept.
last_bits-le : (len : ℕ) → 4096 < len → (last_bits len + 4 ≤ floor_log2 len) ⊎ (last_bits len ≡ 0)
unfolding last_bits
last_bits-le len h =
    let e12 : 12 ≤ floor_log2 len = floor_log2-ge 12 len (omega arith) in
    let m3 : 3 ≤ floor_log2 (floor_log2 len) = floor_log2-ge 3 (floor_log2 len) (omega arith) in
    ground (arith, e12, m3)

block-le : (len : ℕ) → 4096 < len → last_bits len ≢ 0 → 16 * 2 ^ last_bits len ≤ len
block-le len h n = elim (last_bits-le len h) [
  | inr zero_bits ↦ absurd (n zero_bits)
  | inl kept ↦ omega (
    arith,
    pow-floor_log2-le len (omega arith),
    pow-le-pow_right {n = 2} (omega arith) kept,
    pow_four (last_bits len),
  )
]

padme_bounds : (len : ℕ) → 4096 < len → (len ≤ padme len) × (16 * padme len ≤ 17 * len)
unfolding padme
padme_bounds len h = elim (Bool-cases (last_bits len == 0)) [
  | inl e ↦ rw e (omega arith)
  | inr e ↦ rw e (
      omega (
        arith,
        ceil_div_bounds len (2 ^ last_bits len) (one-le-pow (last_bits len) 2 (omega arith)),
        block-le len h (ground arith),
      ))
]

-- The padded length holds the raw one. It is one of three buckets, so it tells no more than which of
-- them; or the raw length is beyond 4096, and the padded one exceeds it by a sixteenth at most.
pub target_padded_len_bounds :
    (raw_len : ℕ)
    → (raw_len ≤ target_padded_len raw_len)
      × ((target_padded_len raw_len ≡ 256)
          ⊎ ((target_padded_len raw_len ≡ 1024)
              ⊎ ((target_padded_len raw_len ≡ 4096)
                  ⊎ ((4096 < raw_len) × (16 * target_padded_len raw_len ≤ 17 * raw_len)))))
unfolding target_padded_len
target_padded_len_bounds raw_len =
    (ground (arith, padme_bounds raw_len), ground (arith, padme_bounds raw_len))
