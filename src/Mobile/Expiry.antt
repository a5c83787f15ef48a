-- ===== src/Mobile/Expiry.antt =====
-- apps/mobile/src/create/expiry.ts and apps/mobile/src/pro/custom-expiry.ts: the expiry of a link that
-- the sender picks. A date is its milliseconds, `none` if it is invalid; no clock stands before 1970.
use aesmsg.Prelude.{ℕ, ◌+◌, ◌*◌, ◌≤◌, ◌<◌, ◌≡◌, Option, none, some, ltb, if◌then◌else◌, arith}
use aesmsg.Link.{pos}
use aesmsg.Api.Create.{expiry_of, default_max_retention_ms, retention_grace_ms}

pub data ExpiryChoice : Type 0 where
  ten_minutes one_hour one_day seven_days one_year : ExpiryChoice

abbrev pub max_link_lifetime_ms : ℕ
max_link_lifetime_ms = 365 * 24 * 60 * 60 * 1000

unfoldable pub expiry_to_date : ExpiryChoice → ℕ → ℕ
expiry_to_date ten_minutes now = now + 10 * 60 * 1000
expiry_to_date one_hour now = now + 60 * 60 * 1000
expiry_to_date one_day now = now + 24 * 60 * 60 * 1000
expiry_to_date seven_days now = now + 7 * 24 * 60 * 60 * 1000
expiry_to_date one_year now = now + max_link_lifetime_ms

abbrev pub custom_expiry_min_ms : ℕ
custom_expiry_min_ms = 5 * 60 * 1000

abbrev pub custom_expiry_max_ms : ℕ
custom_expiry_max_ms = max_link_lifetime_ms

pub data CustomExpiryCheck : Type 0 where
  ok too_soon too_far : CustomExpiryCheck

-- `delta < MIN` and `delta > MAX`, for the difference of the date and now.
unfoldable pub validate_custom_expiry : Option ℕ → ℕ → CustomExpiryCheck
validate_custom_expiry none now = too_soon
validate_custom_expiry (some date) now =
    if ltb date (now + custom_expiry_min_ms)
    then too_soon
    else (if ltb (now + custom_expiry_max_ms) date then too_far else ok)

unfoldable pub custom_expiry_default : ℕ → ℕ
custom_expiry_default now = now + 3 * (24 * 60 * 60 * 1000)

-- A date that the sender can pick at a time: a preset, or a custom date that passes the check.
pub data Picked (now : ℕ) : ℕ → Type 0 where
  preset : (choice : ExpiryChoice) → Picked now (expiry_to_date choice now)
  custom : (date : ℕ) → validate_custom_expiry (some date) now ≡ ok → Picked now date

-- What is picked lies between five minutes and a year ahead.
Picked-bounds :
    {now date : ℕ}
    → Picked now date
    → (now + custom_expiry_min_ms ≤ date) × (date ≤ now + max_link_lifetime_ms)
unfolding expiry_to_date validate_custom_expiry
Picked-bounds (preset ten_minutes) = (omega arith, omega arith)
Picked-bounds (preset one_hour) = (omega arith, omega arith)
Picked-bounds (preset one_day) = (omega arith, omega arith)
Picked-bounds (preset seven_days) = (omega arith, omega arith)
Picked-bounds (preset one_year) = (omega arith, omega arith)
Picked-bounds (custom date h) = ground (arith, h)

expiry_of-within :
    (server_now max_retention date : ℕ)
    → server_now < date
    → date ≤ server_now + (max_retention + retention_grace_ms)
    → expiry_of server_now max_retention (some (pos date)) ≡ some date
expiry_of-within server_now max_retention date after within = ground (arith, after, within)

-- The server takes every expiry that a sender can pick, under its default retention, if the request
-- arrives within five minutes of the pick on the server's clock and the device's clock is at most the
-- grace ahead of it.
pub expiry_of-Picked :
    (now server_now date : ℕ)
    → Picked now date
    → server_now < now + custom_expiry_min_ms
    → now ≤ server_now + retention_grace_ms
    → expiry_of server_now default_max_retention_ms (some (pos date)) ≡ some date
expiry_of-Picked now server_now date picked soon skew =
    let (low, high) = Picked-bounds picked in
    expiry_of-within server_now default_max_retention_ms date (omega (arith, low, soon))
      (omega (arith, high, skew))
