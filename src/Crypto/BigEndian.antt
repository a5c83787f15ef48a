-- ===== src/Crypto/BigEndian.antt =====
-- `DataView.setUint16` and its kin with `littleEndian` false, and the reads that undo them; `TextEncoder`
-- and `TextDecoder` are a parameter of their users.
use native.Mathlib.Nat.{pow-suc}
use aesmsg.Prelude.{
  ℕ, zero, suc, ◌+◌, ◌*◌, ◌/◌, ◌%◌, ◌^◌, ◌<◌, ◌≡◌, refl, ap, ◌∙◌, List, [], ◌∷◌, ◌++◌, Option, none,
  some, arith, length, length-append, take, drop, ltb, take-append, drop-append, if◌then◌else◌,
}

abbrev pub IsByte : ℕ → Type 0
IsByte b = b < 256

-- The low `k` bytes of a number, the highest first.
unfoldable pub write_be : ℕ → ℕ → List ℕ
write_be zero n = []
write_be (suc k) n = write_be k (n / 256) ++ (n % 256 ∷ [])

-- The number that bytes write.
unfoldable pub read_be : ℕ → List ℕ → ℕ
read_be acc [] = acc
read_be acc (b ∷ bs) = read_be (acc * 256 + b) bs

pub length-write_be : (k n : ℕ) → length (write_be k n) ≡ k
unfolding write_be
length-write_be zero n = refl
length-write_be (suc k) n =
    omega (arith, length-append (write_be k (n / 256)) (n % 256 ∷ []), length-write_be k (n / 256))

pub read_be-append : (acc : ℕ) (s t : List ℕ) → read_be acc (s ++ t) ≡ read_be (read_be acc s) t
unfolding read_be
read_be-append acc [] t = refl
read_be-append acc (b ∷ s) t = read_be-append (acc * 256 + b) s t

-- What was written comes back, if it fits.
pub read_be-write_be : (k n : ℕ) → n < 256 ^ k → read_be 0 (write_be k n) ≡ n
unfolding write_be read_be
read_be-write_be zero n h = ground arith
read_be-write_be (suc k) n h =
    read_be-append 0 (write_be k (n / 256)) (n % 256 ∷ [])
    ∙ ap (λ (v : ℕ). v * 256 + n % 256)
        (read_be-write_be k (n / 256) (omega (arith, pow-suc 256 k)))
    ∙ omega arith

-- A parser takes a prefix of the bytes that are left, or fails as `need` does.
abbrev pub Parser {ℓ} : Type ℓ → Type ℓ
Parser A = List ℕ → Option (A × List ℕ)

infixl 5 ◌>>=◌
abbrev pub ◌>>=◌ {ℓ κ} : {A : Type ℓ} {B : Type κ} → Parser A → (A → Parser B) → Parser B
◌>>=◌ m f s = elim (m s) [ none ↦ none | some (a, rest) ↦ f a rest ]

abbrev pub pure {ℓ} : {A : Type ℓ} → A → Parser A
pure a s = some (a, s)

-- `need(n)`, and the slice of the next `n` bytes.
unfoldable pub take_bytes : ℕ → Parser (List ℕ)
take_bytes n s = if ltb (length s) n then none else some (take n s, drop n s)

-- `need(k)`, and a big-endian number of `k` bytes.
unfoldable pub read_uint : ℕ → Parser ℕ
read_uint k s = if ltb (length s) k then none else some (read_be 0 (take k s), drop k s)

pub take_bytes-append : (xs rest : List ℕ) → take_bytes (length xs) (xs ++ rest) ≡ some (xs, rest)
unfolding take_bytes
take_bytes-append xs rest =
    ground (arith, length-append xs rest, take-append xs rest, drop-append xs rest)

read_uint-append :
    (xs rest : List ℕ) → read_uint (length xs) (xs ++ rest) ≡ some (read_be 0 xs, rest)
unfolding read_uint
read_uint-append xs rest =
    ground (arith, length-append xs rest, take-append xs rest, drop-append xs rest)

pub read_uint-write_be :
    (k n : ℕ) (rest : List ℕ) → n < 256 ^ k → read_uint k (write_be k n ++ rest) ≡ some (n, rest)
read_uint-write_be k n rest h =
    let e = read_uint-append (write_be k n) rest in
    rw (length-write_be k n, read_be-write_be k n h) at e

-- One step of a `do` block whose first parser takes a prefix.
pub >>=-step {ℓ κ} :
    {A : Type ℓ} {B : Type κ} (m : Parser A) (f : A → Parser B) (s : List ℕ) {a : A} {rest : List ℕ}
    → m s ≡ some (a, rest)
    → (m >>= f) s ≡ f a rest
>>=-step m f s e = rw (e, ◌>>=◌) refl
