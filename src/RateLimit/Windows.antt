-- ===== src/RateLimit/Windows.antt =====
-- packages/server-store/src/memory/rate-limit-store.ts over several calls.
use aesmsg.Prelude.{
  ℕ, zero, suc, ◌+◌, ◌-◌, ◌*◌, ◌/◌, ◌%◌, ◌<◌, ◌≡◌, ◌≢◌, ap, sym, ◌∙◌, false, Option, some, List, [],
  ◌∷◌, ◌++◌, refl, Text, ltb, arith, text_eq, text_eq_iff, Bool-cases, inl, inr, drop, text_eq_refl,
  true, ◌==◌, ==_iff, if◌then◌else◌,
}
use native.Mathlib.Nat.{mul-div_cancel}
use aesmsg.Dict
use aesmsg.Dict.{Dict, get-set}
use aesmsg.RateLimit.{
  decimal, decimal_fuel, window_floor, window_key, count_or_zero, increment_and_get,
}

-- The number that a text of digits writes.
value_from : ℕ → Text → ℕ
value_from acc [] = acc
value_from acc (c ∷ cs) = value_from (acc * 10 + (c - b'0')) cs

value_from-append :
    (acc : ℕ) (s t : Text) → value_from acc (s ++ t) ≡ value_from (value_from acc s) t
unfolding value_from
value_from-append acc [] t = refl
value_from-append acc (c ∷ s) t = value_from-append (acc * 10 + (c - b'0')) s t

value-decimal_fuel : (f n : ℕ) → n < f → value_from 0 (decimal_fuel f n) ≡ n
unfolding value_from
value-decimal_fuel zero n h = absurd (omega arith)
value-decimal_fuel (suc f) n h = elim (Bool-cases (ltb n 10)) [
  | inl e ↦ rw e (omega arith)
  | inr e ↦
      rw (e, value_from-append 0 (decimal_fuel f (n / 10)) ((b'0' + n % 10) ∷ []))
        (rw (value-decimal_fuel f (n / 10) (ground arith)) (omega arith))
]

-- Two numbers that print alike are equal.
decimal_inj : (m n : ℕ) → decimal m ≡ decimal n → m ≡ n
unfolding decimal
decimal_inj m n e =
    sym (value-decimal_fuel (suc m) m (omega arith))
    ∙ ap (value_from 0) e
    ∙ value-decimal_fuel (suc n) n (omega arith)

append_cancel : (s t u : Text) → s ++ t ≡ s ++ u → t ≡ u
append_cancel [] t u e = e
append_cancel (c ∷ s) t u e = append_cancel s t u (ap (drop 1) e)

window_key_inj : (key : Text) (m n : ℕ) → window_key key m ≡ window_key key n → m ≡ n
unfolding window_key
window_key_inj key m n e =
    decimal_inj m n (ap (drop 1) (append_cancel key (b':' ∷ decimal m) (b':' ∷ decimal n) e))

false-true : false ≡ true → ⊥
false-true e = cc

text_ne : (a b : Text) → a ≢ b → text_eq a b ≡ false
text_ne a b h = ground (arith, text_eq_iff a b)

-- The count that the limiter holds for a key at a time.
pub count_at : ℕ → ℕ → Text → Dict ℕ → ℕ
count_at window_seconds now key windows =
    count_or_zero (Dict.get (window_key key (window_floor now window_seconds)) windows)

-- A call returns one more than the count of its window and stores it; after it, a reading at any time
-- sees the new count if it falls in the same window, and what it would have seen before if not.
pub increment_and_get-count :
    (w now later : ℕ) (key : Text) (windows : Dict ℕ)
    → ((increment_and_get now key w windows).0 ≡ some (count_at w now key windows + 1))
      × (count_at w later key (increment_and_get now key w windows).1 ≡ (
          if window_floor now w == window_floor later w
          then count_at w now key windows + 1
          else count_at w later key windows))
unfolding increment_and_get count_at
increment_and_get-count w now later key windows =
    let window = window_key key (window_floor now w) in
    let other = window_key key (window_floor later w) in
    let next = count_or_zero (Dict.get window windows) + 1 in
    (
      refl,
      elim (Bool-cases (window_floor now w == window_floor later w)) [
        | inl e ↦
            let same : window_floor now w ≡ window_floor later w = (==_iff _ _).0 e in
            rw (e, get-set window other next windows, ← same, text_eq_refl window) refl
        | inr e ↦
            rw
              (
                e,
                get-set window other next windows,
                text_ne window other
                    (λ k. false-true (sym e ∙ (==_iff _ _).1 (window_key_inj key _ _ k))),
              )
              refl
      ],
    )

-- The results of calls with one key at the given times.
pub results : ℕ → Text → List ℕ → Dict ℕ → List (Option ℕ)
results w key [] windows = []
results w key (t ∷ ts) windows =
    let (count, windows') = increment_and_get t key w windows in count ∷ results w key ts windows'

-- The earlier times that fall in the same window of `w` seconds, counted from 1970, as `t`.
abbrev pub in_same_window : ℕ → ℕ → List ℕ → ℕ
in_same_window w t [] = 0
in_same_window w t (e ∷ earlier) =
    (if e / 1000 / w == t / 1000 / w then 1 else 0) + in_same_window w t earlier

-- The number of each call within its window.
abbrev pub numbered : ℕ → List ℕ → List ℕ → List (Option ℕ)
numbered w earlier [] = []
numbered w earlier (t ∷ ts) = some (in_same_window w t earlier + 1) ∷ numbered w (t ∷ earlier) ts

mul_right_inj : (a b w : ℕ) → 0 < w → a * w ≡ b * w → a ≡ b
mul_right_inj a b w h e = sym (mul-div_cancel a h) ∙ ap (λ (n : ℕ). n / w) e ∙ mul-div_cancel b h

window_floor_inj :
    (w now later : ℕ)
    → 0 < w
    → (window_floor now w == window_floor later w) ≡ (now / 1000 / w == later / 1000 / w)
unfolding window_floor
window_floor_inj w now later h = elim (Bool-cases (now / 1000 / w == later / 1000 / w)) [
  | inl e ↦
      let same : now / 1000 / w ≡ later / 1000 / w = (==_iff _ _).0 e in
      (==_iff _ _).1 (ap (λ (n : ℕ). n * w) same) ∙ sym e
  | inr e ↦ elim (Bool-cases (now / 1000 / w * w == later / 1000 / w * w)) [
    | inl f ↦ absurd (
        false-true (
          sym e
          ∙ (==_iff _ _).1
              (mul_right_inj (now / 1000 / w) (later / 1000 / w) w h ((==_iff _ _).0 f))))
    | inr f ↦ f ∙ sym e
  ]
]

-- What the limiter holds of a key is how many calls with it fell in each window.
Counts : ℕ → Text → List ℕ → Dict ℕ → Type 0
Counts w key earlier windows = (t : ℕ) → count_at w t key windows ≡ in_same_window w t earlier

in_same_window-eq :
    (w t later : ℕ) (earlier : List ℕ)
    → t / 1000 / w ≡ later / 1000 / w
    → in_same_window w t earlier ≡ in_same_window w later earlier
in_same_window-eq w t later [] e = refl
in_same_window-eq w t later (x ∷ earlier) e = rw (e, in_same_window-eq w t later earlier e) refl

Counts-increment_and_get :
    (w t : ℕ) (key : Text) (earlier : List ℕ) (windows : Dict ℕ)
    → 0 < w
    → Counts w key earlier windows
    → Counts w key (t ∷ earlier) (increment_and_get t key w windows).1
unfolding Counts
Counts-increment_and_get w t key earlier windows pos h later =
    let (_, after) = increment_and_get-count w t later key windows in
    let same = window_floor_inj w t later pos in
    rw (after, same)
      (elim (Bool-cases (t / 1000 / w == later / 1000 / w)) [
        | inl e ↦
            let moved = in_same_window-eq w t later earlier ((==_iff _ _).0 e) in
            rw e (omega (arith, h t, moved))
        | inr e ↦ rw e (omega (arith, h later))
      ])

results-Counts :
    (w : ℕ) (key : Text) (earlier ts : List ℕ) (windows : Dict ℕ)
    → 0 < w
    → Counts w key earlier windows
    → results w key ts windows ≡ numbered w earlier ts
unfolding results Counts
results-Counts w key earlier [] windows pos h = refl
results-Counts w key earlier (t ∷ ts) windows pos h =
    let (first, _) = increment_and_get-count w t t key windows in
    let rest =
      results-Counts w key (t ∷ earlier) ts (increment_and_get t key w windows).1 pos
        (Counts-increment_and_get w t key earlier windows pos h) in
    cc (first, rest, h t)

-- With a positive number of seconds, calls with one key at any times on an empty limiter get, each, one
-- more than the number of the calls before it that fell in the same window of that many seconds, so
-- that the count starts again in every window.
pub results-numbered :
    (w : ℕ) (key : Text) (ts : List ℕ) → 0 < w → results w key ts [] ≡ numbered w [] ts
unfolding count_at Counts Dict.get
results-numbered w key ts pos = results-Counts w key [] ts [] pos (λ t. refl)
