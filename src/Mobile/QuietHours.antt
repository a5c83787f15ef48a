-- ===== src/Mobile/QuietHours.antt =====
-- apps/mobile/src/notifications/quiet-hours.ts: when a reminder falls into the quiet window.
-- `String.trim` and the device's local clock, which gives hours and minutes, are parameters.
use aesmsg.Prelude.{
  ℕ, ◌+◌, ◌-◌, ◌*◌, ◌/◌, ◌%◌, ◌<◌, ◌≡◌, Bool, true, false, ◌&&◌, ◌||◌, Option, none, some, [], ◌∷◌,
  Text, ltb, leb, ◌==◌, if◌then◌else◌, arith,
}

pub record QuietHoursConfig : Type 0 where
  pub enabled : Bool
  pub from : Text
  pub to : Text

abbrev pub minutes_per_day : ℕ
minutes_per_day = 24 * 60

-- `\d` of a regular expression.
unfoldable pub is_digit : ℕ → Bool
is_digit c = leb 48 c && leb c 57

-- The guard on the numbers that the expression has matched.
unfoldable pub minutes_of : ℕ → ℕ → Option ℕ
minutes_of h min = if ltb 23 h || ltb 59 min then none else some (h * 60 + min)

-- `/^(\d{1,2}):(\d{2})$/` on the code units, and the numbers of its groups.
unfoldable pub match_time : Text → Option ℕ
match_time (a ∷ s ∷ c ∷ d ∷ []) =
    if is_digit a && (s == 58) && is_digit c && is_digit d
    then minutes_of (a - 48) ((c - 48) * 10 + (d - 48))
    else none
match_time (a ∷ b ∷ s ∷ c ∷ d ∷ []) =
    if is_digit a && is_digit b && (s == 58) && is_digit c && is_digit d
    then minutes_of ((a - 48) * 10 + (b - 48)) ((c - 48) * 10 + (d - 48))
    else none
match_time other = none

unfoldable pub parse_time_to_minutes : (Text → Text) → Text → Option ℕ
parse_time_to_minutes trim hhmm = match_time (trim hhmm)

unfoldable pub local_minute_of_day : (ℕ → ℕ × ℕ) → ℕ → ℕ
local_minute_of_day local ms = let (hours, minutes) = local ms in hours * 60 + minutes

-- The window test, once both bounds are parsed.
unfoldable pub in_window : ℕ → Option ℕ → Option ℕ → Bool
in_window minute_of_day none to = false
in_window minute_of_day (some from) none = false
in_window minute_of_day (some from) (some to) =
    let m = (minute_of_day % minutes_per_day + minutes_per_day) % minutes_per_day in
    if from == to
    then true
    else (if ltb from to then leb from m && ltb m to else leb from m || ltb m to)

unfoldable pub is_within_quiet_hours : (Text → Text) → ℕ → QuietHoursConfig → Bool
is_within_quiet_hours trim minute_of_day quiet =
    if quiet.enabled
    then in_window minute_of_day (parse_time_to_minutes trim quiet.from)
        (parse_time_to_minutes trim quiet.to)
    else false

unfoldable pub should_suppress_for_quiet_hours :
    (Text → Text) → (ℕ → ℕ × ℕ) → ℕ → QuietHoursConfig → Bool
should_suppress_for_quiet_hours trim local fire_at_ms quiet =
    is_within_quiet_hours trim (local_minute_of_day local fire_at_ms) quiet

-- A time of the day as the settings write it, two digits, a colon and two digits.
unfoldable pub clock_text : ℕ → ℕ → Text
clock_text h min = (48 + h / 10) ∷ (48 + h % 10) ∷ 58 ∷ (48 + min / 10) ∷ (48 + min % 10) ∷ []

match_time-clock_text :
    (h min : ℕ) → h < 24 → min < 60 → match_time (clock_text h min) ≡ some (h * 60 + min)
unfolding match_time clock_text minutes_of is_digit
match_time-clock_text h min hh hm = ground (arith, hh, hm)

-- How many minutes after `from` the clock next shows `m`.
unfoldable pub minutes_after : ℕ → ℕ → ℕ
minutes_after from m = (m + (minutes_per_day - from)) % minutes_per_day

-- How long a window is: one from a time to itself lasts the whole day.
unfoldable pub window_length : ℕ → ℕ → ℕ
window_length from to = if from == to then minutes_per_day else minutes_after from to

in_window-minutes_after :
    (m from to : ℕ)
    → m < minutes_per_day
    → from < minutes_per_day
    → to < minutes_per_day
    → in_window m (some from) (some to) ≡ ltb (minutes_after from m) (window_length from to)
unfolding in_window minutes_after window_length
in_window-minutes_after m from to hm hf ht = ground (arith, hm, hf, ht)

-- Let both bounds of an enabled window be times as the settings write them, which `trim` leaves as they
-- are, and let the local clock give an hour and a minute. A reminder is suppressed exactly if the
-- clock's minutes after the opening time, counted round the day, are fewer than the minutes that the
-- window lasts, where a window from a time to the same time lasts the whole day.
pub should_suppress-minutes_after :
    (trim : Text → Text) (local : ℕ → ℕ × ℕ) (ms h min from_h from_min to_h to_min : ℕ)
    → ((a b : ℕ) → a < 24 → b < 60 → trim (clock_text a b) ≡ clock_text a b)
    → local ms ≡ (h, min)
    → h < 24
    → min < 60
    → from_h < 24
    → from_min < 60
    → to_h < 24
    → to_min < 60
    → should_suppress_for_quiet_hours trim local ms
        (record { enabled = true; from = clock_text from_h from_min; to = clock_text to_h to_min })
      ≡ ltb
          (minutes_after (from_h * 60 + from_min) (h * 60 + min))
          (window_length (from_h * 60 + from_min) (to_h * 60 + to_min))
unfolding should_suppress_for_quiet_hours is_within_quiet_hours parse_time_to_minutes
    local_minute_of_day
should_suppress-minutes_after trim local ms h min from_h from_min to_h to_min trims clock hh hm hfh
      hfm hth htm =
    rw
      (
        clock,
        trims from_h from_min hfh hfm,
        trims to_h to_min hth htm,
        match_time-clock_text from_h from_min hfh hfm,
        match_time-clock_text to_h to_min hth htm,
      )
      (in_window-minutes_after (h * 60 + min) (from_h * 60 + from_min) (to_h * 60 + to_min)
        (omega (arith, hh, hm)) (omega (arith, hfh, hfm)) (omega (arith, hth, htm)))
