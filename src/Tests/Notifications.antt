-- ===== src/Tests/Notifications.antt =====
-- Quiet hours from 22:00 to 07:00, at a clock that shows 23:30.
use aesmsg.Prelude.{
  ℕ, ◌*◌, ◌+◌, ◌≡◌, refl, Bool, true, false, none, some, codes, ltb, leb, ◌<◌, ◌==◌, ◌&&◌, ◌||◌,
  if◌then◌else◌, Text, [], ◌∷◌, arith,
}
use aesmsg.Mobile.QuietHours.{
  should_suppress_for_quiet_hours, should_suppress-minutes_after, minutes_after, window_length,
  clock_text, is_within_quiet_hours, parse_time_to_minutes, local_minute_of_day, match_time,
  minutes_of, is_digit, in_window,
}

-- The ASCII spaces and U+00A0 that `trim` removes.
abbrev is_space : ℕ → Bool
is_space c = (leb 9 c && leb c 13) || c == 32 || c == 160

unfoldable trim_start : Text → Text
trim_start [] = []
trim_start (c ∷ cs) = let rest = trim_start cs in if is_space c then rest else c ∷ cs

unfoldable trim_end : Text → Text
trim_end [] = []
trim_end (c ∷ cs) =
    let rest = trim_end cs in
    elim rest [ [] ↦ if is_space c then [] else c ∷ [] | x ∷ xs ↦ c ∷ x ∷ xs ]

abbrev trim : Text → Text
trim raw = trim_end (trim_start raw)

trim-clock_text : (a b : ℕ) → a < 24 → b < 60 → trim (clock_text a b) ≡ clock_text a b
unfolding trim_start trim_end clock_text
trim-clock_text a b ha hb = ground (arith, ha, hb)

abbrev suppressed_at : ℕ × ℕ → Bool
suppressed_at now =
    should_suppress_for_quiet_hours trim (λ ms. now) 1000
      (record { enabled = true; from = clock_text 22 0; to = clock_text 7 0 })

around_the_window :
    (suppressed_at (21, 59) ≡ false)
    × (suppressed_at (22, 0) ≡ true)
    × (suppressed_at (6, 59) ≡ true)
    × (suppressed_at (7, 0) ≡ false)
unfolding should_suppress_for_quiet_hours is_within_quiet_hours parse_time_to_minutes
    local_minute_of_day match_time minutes_of is_digit in_window clock_text trim_start trim_end
around_the_window = (refl, refl, refl, refl)

minutes_to_half_past_eleven : (minutes_after 1320 1410 ≡ 90) × (window_length 1320 420 ≡ 540)
unfolding minutes_after window_length
minutes_to_half_past_eleven = (refl, refl)

malformed :
    (parse_time_to_minutes (λ raw. raw) (codes "24:00") ≡ none)
    × (parse_time_to_minutes (λ raw. raw) (codes "7pm") ≡ none)
    × (parse_time_to_minutes (λ raw. raw) (codes "7:05") ≡ some 425)
unfolding parse_time_to_minutes match_time minutes_of is_digit
malformed = (refl, refl, refl)

should_suppress-minutes_after_example :
    should_suppress_for_quiet_hours trim
      (λ ms. (23, 30))
      1000
      (record { enabled = true; from = clock_text 22 0; to = clock_text 7 0 })
    ≡ ltb (minutes_after (22 * 60 + 0) (23 * 60 + 30)) (window_length (22 * 60 + 0) (7 * 60 + 0))
should_suppress-minutes_after_example =
    should_suppress-minutes_after trim (λ ms. (23, 30)) 1000 23 30 22 0 7 0
      (λ a b ha hb. trim-clock_text a b ha hb) refl (omega arith) (omega arith) (omega arith)
      (omega arith) (omega arith) (omega arith)
