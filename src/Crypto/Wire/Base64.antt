-- ===== src/Crypto/Wire/Base64.antt =====
-- The symbols and the bit arithmetic of base64url in packages/crypto/src/wire.ts.
use aesmsg.Prelude.{
  ℕ, zero, suc, ◌+◌, ◌*◌, ◌/◌, ◌%◌, ◌^◌, ◌<◌, ◌≡◌, refl, List, Option, none, some, arith,
  Bool-cases, inl, inr, Bool, true, ◌&&◌, ltb, ◌==◌, ==_iff,
}
use aesmsg.Crypto.Wire.{base64url_alphabet, symbol_at, index_of, cons_byte}

abbrev is_index : Option ℕ → ℕ → Bool
is_index none d = ltb 1 0
is_index (some i) d = i == d

abbrev pub all_below : ℕ → (ℕ → Bool) → Bool
all_below zero p = true
all_below (suc n) p = p n && all_below n p

pub all_below_lem : (n : ℕ) (p : ℕ → Bool) → all_below n p ≡ true → (d : ℕ) → d < n → p d ≡ true
all_below_lem zero p h d l = absurd (omega (arith, l))
all_below_lem (suc n) p h d l = elim (Bool-cases (d == n)) [
  | inl e ↦ rw ((==_iff d n).0 e) (ground (arith, h))
  | inr e ↦ all_below_lem n p (ground (arith, h)) d (ground (arith, e))
]

is_index_lem : (o : Option ℕ) (d : ℕ) → is_index o d ≡ true → o ≡ some d
is_index_lem o d e = ground arith

found : ℕ → Bool
unfolding index_of symbol_at
found d = is_index (index_of base64url_alphabet (symbol_at base64url_alphabet d)) d

all_found : all_below 64 found ≡ true
unfolding found
all_found = refl

-- Each symbol stands for its index.
pub index_of-symbol_at :
    (d : ℕ) → d < 64 → index_of base64url_alphabet (symbol_at base64url_alphabet d) ≡ some d
unfolding found
index_of-symbol_at d l = is_index_lem _ d (all_below_lem 64 found all_found d l)

abbrev pub push_byte : ℕ → ℕ → ℕ
push_byte value b = (value * 256 + b) % 2 ^ 32

abbrev pub push_symbol : ℕ → ℕ → ℕ
push_symbol value d = (value * 64 + d) % 2 ^ 32

abbrev pub symbol : ℕ → ℕ
symbol d = symbol_at base64url_alphabet d

pub push_byte_low : (v a : ℕ) → a < 256 → push_byte v a % 256 ≡ a
push_byte_low v a h = omega (arith, h)

pub first_symbol : (v a : ℕ) → a < 256 → push_byte v a / 4 % 64 ≡ a / 4
first_symbol v a h = omega (arith, h)

pub second_symbol :
    (v a b : ℕ) → b < 256 → v % 256 ≡ a → push_byte v b / 16 % 64 ≡ a % 4 * 16 + b / 16
second_symbol v a b h e = omega (arith, h, e)

pub third_symbol :
    (v b c : ℕ) → c < 256 → v % 256 ≡ b → push_byte v c / 64 % 64 ≡ b % 16 * 4 + c / 64
third_symbol v b c h e = omega (arith, h, e)

pub fourth_symbol : (v c : ℕ) → c < 256 → push_byte v c / 1 % 64 ≡ c % 64
fourth_symbol v c h = omega (arith, h)

pub push_symbol_low : (u d : ℕ) → d < 64 → push_symbol u d % 64 ≡ d
push_symbol_low u d h = omega (arith, h)

pub first_byte : (u d e : ℕ) → e < 64 → u % 64 ≡ d → push_symbol u e / 16 % 256 ≡ d * 4 + e / 16
first_byte u d e h k = omega (arith, h, k)

pub second_byte :
    (u d e : ℕ) → e < 64 → u % 64 ≡ d → push_symbol u e / 4 % 256 ≡ d % 16 * 16 + e / 4
second_byte u d e h k = omega (arith, h, k)

pub third_byte : (u d e : ℕ) → e < 64 → u % 64 ≡ d → push_symbol u e / 1 % 256 ≡ d % 4 * 64 + e
third_byte u d e h k = omega (arith, h, k)

pub cons_byte-false : (b : ℕ) (o : Option (List ℕ)) → cons_byte (ltb 1 0) b o ≡ o
cons_byte-false b none = refl
cons_byte-false b (some bs) = refl
