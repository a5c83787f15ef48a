-- ===== src/Crypto/Aad/Layout.antt =====
-- The checks and the fixed layout of encodeAad in packages/crypto/src/aad.ts.
use aesmsg.Prelude.{
  ℕ, ◌^◌, ◌<◌, ◌≡◌, refl, sym, ap, ◌∙◌, Option, none, some, List, [], ◌∷◌, ◌++◌, arith, length,
  drop,
}
use aesmsg.Link.{ℤ, pos, negsuc}
use aesmsg.Crypto.BigEndian.{write_be, read_be, read_be-write_be, length-write_be}
use aesmsg.Crypto.Aad.{
  Number, integer, not_integer, safe_nonnegative, checked_opens, int32_bits, Times, checked_v1,
  checked_v2, checked_times, version_of, put_created, put_aad,
}

-- Two concatenations agree part by part if their first parts are as long.
append_inj : (a b x y : List ℕ) → length a ≡ length b → a ++ x ≡ b ++ y → (a ≡ b) × (x ≡ y)
append_inj [] [] x y l e = (refl, e)
append_inj [] (c ∷ b) x y l e = absurd (omega (arith, l))
append_inj (c ∷ a) [] x y l e = absurd (omega (arith, l))
append_inj (c ∷ a) (d ∷ b) x y l e =
    let (h, t) = append_inj a b x y (omega (arith, l)) (ap (drop 1) e) in (cc (h, e), t)

-- The recipients' hashes, and the parts of an encoding, that a successful encoding has.
abbrev pub stored_created : Option ℕ → Option Number
stored_created none = none
stored_created (some created) = some (integer (pos created))

abbrev pub IsBelow : ℕ → Option ℕ → Type 0
IsBelow bound none = Unit {0}
IsBelow bound (some n) = n < bound

-- The bound on opens is -1, or is positive and fits an int32.
abbrev pub FitsInt32 : Number → Type 0
FitsInt32 not_integer = Unit {0}
FitsInt32 (integer (negsuc n)) = Unit {0}
FitsInt32 (integer (pos n)) = n < 2 ^ 31

safe_nonnegative_lem :
    (x : Number) (n : ℕ) → safe_nonnegative x ≡ some n → (x ≡ integer (pos n)) × (n < 2 ^ 53)
safe_nonnegative_lem x n e = ground arith

checked_v2_lem :
    (o : Option ℕ) (times : Times)
    → checked_v2 o ≡ some times
    → (o ≡ some times.1) × (times.0 ≡ none)
checked_v2_lem o times e = ground arith

checked_v1_lem :
    (c o : Option ℕ) (times : Times)
    → checked_v1 c o ≡ some times
    → (o ≡ some times.1) × (c ≡ times.0) × ((k : ℕ) × (c ≡ some k))
checked_v1_lem c o times e = ground arith

pub checked_times_lem :
    (created : Option Number) (expires : Number) (times : Times)
    → checked_times created expires ≡ some times
    → (expires ≡ integer (pos times.1))
      × (times.1 < 2 ^ 53)
      × (created ≡ stored_created times.0)
      × IsBelow (2 ^ 53) times.0
checked_times_lem none expires times e =
    let (o, none_created) = checked_v2_lem (safe_nonnegative expires) times e in
    let (same, below) = safe_nonnegative_lem expires times.1 o in
    rw none_created (same, below, refl, tt)
checked_times_lem (some created) expires times e =
    let (o, c, (k, known)) =
      checked_v1_lem (safe_nonnegative created) (safe_nonnegative expires) times e in
    let (same, below) = safe_nonnegative_lem expires times.1 o in
    let (same_created, created_below) = safe_nonnegative_lem created k known in
    rw (sym c ∙ known) (same, below, ap some same_created, created_below)

pub checked_opens_lem : (x : Number) (m : ℤ) → checked_opens x ≡ some m → x ≡ integer m
checked_opens_lem x m e = ground arith

pub int32_bits_inj :
    (x y : Number) (m n : ℤ)
    → checked_opens x ≡ some m
    → checked_opens y ≡ some n
    → FitsInt32 x
    → FitsInt32 y
    → int32_bits m ≡ int32_bits n
    → m ≡ n
int32_bits_inj x y m n ex ey fx fy e = ground arith

write_be_inj : (k m n : ℕ) → m < 256 ^ k → n < 256 ^ k → write_be k m ≡ write_be k n → m ≡ n
write_be_inj k m n hm hn e =
    sym (read_be-write_be k m hm) ∙ ap (read_be 0) e ∙ read_be-write_be k n hn

fixed_inj :
    (k m n : ℕ) (x y : List ℕ)
    → m < 256 ^ k
    → n < 256 ^ k
    → write_be k m ++ x ≡ write_be k n ++ y
    → (m ≡ n) × (x ≡ y)
fixed_inj k m n x y hm hn e =
    let (same, rest) =
      append_inj (write_be k m) (write_be k n) x y (length-write_be k m ∙ sym (length-write_be k n))
        e in
    (write_be_inj k m n hm hn same, rest)

-- The version byte tells whether a creation time follows.
created_inj :
    (c d : Option ℕ) (x y : List ℕ)
    → IsBelow (2 ^ 53) c
    → IsBelow (2 ^ 53) d
    → version_of c ≡ version_of d
    → put_created c ++ x ≡ put_created d ++ y
    → (c ≡ d) × (x ≡ y)
created_inj none none x y hc hd v e = (refl, e)
created_inj none (some n) x y hc hd v e = absurd (omega (arith, v))
created_inj (some m) none x y hc hd v e = absurd (omega (arith, v))
created_inj (some m) (some n) x y hc hd v e =
    let (same, rest) = fixed_inj 8 m n x y (omega (arith, hc)) (omega (arith, hd)) e in
    (ap some same, rest)

int32_bits_bound : (m : ℤ) → int32_bits m < 2 ^ 32
int32_bits_bound (pos n) = omega arith
int32_bits_bound (negsuc n) = omega arith

abbrev head_or_zero : List ℕ → ℕ
head_or_zero [] = 0
head_or_zero (x ∷ xs) = x

pub put_aad_inj :
    (t t' : Times) (m m' : ℤ) (id id' h h' : List ℕ)
    → t.1 < 2 ^ 53
    → t'.1 < 2 ^ 53
    → IsBelow (2 ^ 53) t.0
    → IsBelow (2 ^ 53) t'.0
    → length id ≡ length id'
    → length h ≡ length h'
    → put_aad t m id h ≡ put_aad t' m' id' h'
    → (t.0 ≡ t'.0) × (t.1 ≡ t'.1) × (id ≡ id') × (h ≡ h') × (int32_bits m ≡ int32_bits m')
unfolding put_aad
put_aad_inj t t' m m' id id' h h' b b' cb cb' lid lh e =
    let version = ap head_or_zero e in
    let (_, r1) =
      append_inj _ _ _ _ (length-write_be 2 (length id) ∙ sym (length-write_be 2 (length id')))
        (ap (drop 3) e) in
    let (same_id, r2) = append_inj id id' _ _ lid r1 in
    let (same_h, r3) = append_inj h h' _ _ lh r2 in
    let (same_created, r4) = created_inj t.0 t'.0 _ _ cb cb' version r3 in
    let (same_expires, r5) = fixed_inj 8 t.1 t'.1 _ _ (omega (arith, b)) (omega (arith, b')) r4 in
    (
      same_created,
      same_expires,
      same_id,
      same_h,
      write_be_inj 4 (int32_bits m) (int32_bits m') (int32_bits_bound m) (int32_bits_bound m') r5,
    )
