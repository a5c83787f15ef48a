-- ===== src/ConstantTime.antt =====
-- packages/server-store/src/constant-time.ts. `Buffer.from(s, "hex")` reads pairs of hex digits and
-- stops at the first pair that is none.
use aesmsg.Prelude.{
  ℕ, ◌+◌, ◌-◌, ◌*◌, ◌≡◌, Bool, true, false, ◌&&◌, ◌||◌, not, Option, none, some, List, [], ◌∷◌,
  Text, length, leb, ◌==◌, text_eq, if◌then◌else◌, arith, text_eq_iff, ◌↔◌, ◌≢◌, ap, ◌∙◌, sym,
  text_eq_refl, refl, ◌<◌,
}

-- The value of a hex digit, in either case.
abbrev pub hex_value : ℕ → Option ℕ
hex_value c =
    if leb b'0' c && leb c b'9'
    then some (c - b'0')
    else if leb b'a' c && leb c b'f'
    then some (c - b'a' + 10)
    else if leb b'A' c && leb c b'F'
    then some (c - b'A' + 10)
    else none

abbrev pair_value : Option ℕ → Option ℕ → Option ℕ
pair_value none _ = none
pair_value (some hi) none = none
pair_value (some hi) (some lo) = some (hi * 16 + lo)

unfoldable pub buffer_from_hex : Text → List ℕ
buffer_from_hex [] = []
buffer_from_hex (a ∷ []) = []
buffer_from_hex (a ∷ b ∷ rest) =
    let bytes = buffer_from_hex rest in
    elim (pair_value (hex_value a) (hex_value b)) [ none ↦ [] | some v ↦ v ∷ bytes ]

-- `timingSafeEqual` on buffers of one length is equality of their bytes.
unfoldable pub timing_safe_equal_hex : Text → Text → Bool
unfolding buffer_from_hex
timing_safe_equal_hex a b =
    let buf_a = buffer_from_hex a in
    let buf_b = buffer_from_hex b in
    if (length buf_a == 0) || not (length buf_a == length buf_b) then false else text_eq buf_a buf_b

abbrev pub is_lower_hex : ℕ → Bool
is_lower_hex c = (leb b'0' c && leb c b'9') || (leb b'a' c && leb c b'f')

-- A digest as `digest("hex")` prints it: lower-case hex digits, an even number of them.
abbrev pub IsHexDigest : Text → Type 0
IsHexDigest [] = Unit {0}
IsHexDigest (a ∷ []) = ⊥
IsHexDigest (a ∷ b ∷ rest) = (is_lower_hex a ≡ true) × (is_lower_hex b ≡ true) × IsHexDigest rest

-- The value of a lower-case digit.
abbrev lower_value : ℕ → ℕ
lower_value c = if leb c b'9' then c - b'0' else c - b'a' + 10

hex_value_lower :
    (c : ℕ) → is_lower_hex c ≡ true → (hex_value c ≡ some (lower_value c)) × (lower_value c < 16)
hex_value_lower c h = ground arith

lower_value_inj :
    (a b : ℕ)
    → is_lower_hex a ≡ true
    → is_lower_hex b ≡ true
    → lower_value a ≡ lower_value b
    → a ≡ b
lower_value_inj a b ha hb e = ground arith

buffer_from_hex_nil : buffer_from_hex [] ≡ []
unfolding buffer_from_hex
buffer_from_hex_nil = refl

-- A digest has a byte for each pair of digits, and the bytes determine the digits.
buffer_from_hex_cons :
    (a b : ℕ) (rest : Text)
    → is_lower_hex a ≡ true
    → is_lower_hex b ≡ true
    → buffer_from_hex (a ∷ b ∷ rest) ≡ (lower_value a * 16 + lower_value b) ∷ buffer_from_hex rest
unfolding buffer_from_hex
buffer_from_hex_cons a b rest ha hb =
    ground (arith, (hex_value_lower a ha).0, (hex_value_lower b hb).0)

buffer_from_hex_inj :
    (s t : Text) → IsHexDigest s → IsHexDigest t → buffer_from_hex s ≡ buffer_from_hex t → s ≡ t
buffer_from_hex_inj [] [] hs ht e = refl
buffer_from_hex_inj [] (c ∷ []) hs ht e = absurd ht
buffer_from_hex_inj [] (c ∷ d ∷ t) hs (hc, hd, ht) e =
    cc (e, buffer_from_hex_cons c d t hc hd, buffer_from_hex_nil)
buffer_from_hex_inj (a ∷ []) t hs ht e = absurd hs
buffer_from_hex_inj (a ∷ b ∷ s) [] (ha, hb, hs) ht e =
    cc (e, buffer_from_hex_cons a b s ha hb, buffer_from_hex_nil)
buffer_from_hex_inj (a ∷ b ∷ s) (c ∷ []) hs ht e = absurd ht
buffer_from_hex_inj (a ∷ b ∷ s) (c ∷ d ∷ t) (ha, hb, hs) (hc, hd, ht) e = ground (
  arith,
  e,
  buffer_from_hex_cons a b s ha hb,
  buffer_from_hex_cons c d t hc hd,
  hex_value_lower a ha,
  hex_value_lower b hb,
  hex_value_lower c hc,
  hex_value_lower d hd,
  lower_value_inj a c ha hc,
  lower_value_inj b d hb hd,
  buffer_from_hex_inj s t hs ht,
)

abbrev bytes_equal : List ℕ → List ℕ → Bool
bytes_equal x y = if (length x == 0) || not (length x == length y) then false else text_eq x y

bytes_equal_iff : (x y : List ℕ) → (bytes_equal x y ≡ true) ↔ ((x ≡ y) × (x ≢ []))
bytes_equal_iff [] y = (λ h. cc, λ h. absurd (h.1 refl))
bytes_equal_iff (a ∷ x) y = (
  λ h. ((text_eq_iff (a ∷ x) y).0 (ground arith), λ e. cc),
  λ h. rw (← h.0, text_eq_refl (a ∷ x)) (ground arith),
)

from_hex-nil_iff : (s : Text) → IsHexDigest s → buffer_from_hex s ≡ [] → s ≡ []
from_hex-nil_iff s h e = buffer_from_hex_inj s [] h tt (e ∙ sym buffer_from_hex_nil)

-- Two digests compare as equal exactly when they are the same text, and not empty.
pub timing_safe_equal_hex_iff :
    (s t : Text)
    → IsHexDigest s
    → IsHexDigest t
    → (timing_safe_equal_hex s t ≡ true) ↔ ((s ≡ t) × (s ≢ []))
unfolding timing_safe_equal_hex
timing_safe_equal_hex_iff s t hs ht =
    let (sound, complete) = bytes_equal_iff (buffer_from_hex s) (buffer_from_hex t) in
    (
      λ h. (
        buffer_from_hex_inj s t hs ht (sound h).0,
        λ e. (sound h).1 (ap buffer_from_hex e ∙ buffer_from_hex_nil),
      ),
      λ h. complete (ap buffer_from_hex h.0, λ e. h.1 (from_hex-nil_iff s hs e)),
    )

-- `provided !== null && timingSafeEqualHex(stored, provided)`
abbrev pub hash_matches : Option Text → Text → Bool
hash_matches none stored = false
hash_matches (some provided) stored = timing_safe_equal_hex stored provided
