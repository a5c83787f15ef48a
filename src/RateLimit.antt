-- ===== src/RateLimit.antt =====
-- packages/server-store/src/memory/rate-limit-store.ts and redis/rate-limit-store.ts: counters of
-- fixed windows. `now` is the clock in milliseconds.
pub mod Windows
use aesmsg.Prelude.{
  ℕ, zero, suc, ◌+◌, ◌*◌, ◌/◌, ◌%◌, ◌<◌, ◌≡◌, Bool, true, false, Option, none, some, List, [], ◌∷◌,
  ◌++◌, Text, ltb, if◌then◌else◌, codes,
}
use aesmsg.Dict
use aesmsg.Dict.{Dict}

-- RateLimitStore of interfaces.ts. `none` is a throw.
pub record RateLimitStore : Type 1 where
  pub State : Type 0
  pub increment_and_get : ℕ → Text → ℕ → State → Option ℕ × State

-- A number as `${n}` prints it; the fuel n + 1 is more than its digits.
abbrev pub decimal_fuel : ℕ → ℕ → Text
decimal_fuel zero n = []
decimal_fuel (suc f) n =
    let front = decimal_fuel f (n / 10) in
    if ltb n 10 then (b'0' + n) ∷ [] else front ++ ((b'0' + n % 10) ∷ [])

unfoldable pub decimal : ℕ → Text
decimal n = decimal_fuel (suc n) n

-- Math.floor(Date.now() / 1000 / windowSeconds) * windowSeconds
unfoldable pub window_floor : ℕ → ℕ → ℕ
window_floor now window_seconds = now / 1000 / window_seconds * window_seconds

unfoldable pub window_key : Text → ℕ → Text
window_key key floor = key ++ (b':' ∷ decimal floor)

abbrev pub count_or_zero : Option ℕ → ℕ
count_or_zero none = 0
count_or_zero (some n) = n

unfoldable pub increment_and_get : ℕ → Text → ℕ → Dict ℕ → Option ℕ × Dict ℕ
increment_and_get now key window_seconds windows =
    let window = window_key key (window_floor now window_seconds) in
    let next = count_or_zero (Dict.get window windows) + 1 in
    (some next, Dict.set window next windows)

abbrev pub memory_rate_limit : RateLimitStore
memory_rate_limit = record { State = Dict ℕ; increment_and_get = increment_and_get }

-- The reply to INCR: an error, or a number.
pub data Reply : Type 0 where
  failed : Reply
  number : ℕ → Reply

-- What `tx.exec()` gives: a rejection, null, or the replies.
pub data Exec : Type 0 where
  rejected null_replies : Exec
  replies : List Reply → Exec

-- Every failure is rethrown as RateLimitUnavailableError: `none`.
unfoldable pub count_of_replies : Exec → Option ℕ
count_of_replies rejected = none
count_of_replies null_replies = none
count_of_replies (replies []) = none
count_of_replies (replies (failed ∷ rest)) = none
count_of_replies (replies (number n ∷ rest)) = some n

-- `exec` runs INCR and EXPIRE NX of the key with the window's length on the Redis server.
unfoldable pub redis_increment_and_get :
    {R : Type 0} → (Text → ℕ → R → Exec × R) → ℕ → Text → ℕ → R → Option ℕ × R
unfolding count_of_replies
redis_increment_and_get exec now key window_seconds redis =
    let (reply, redis') =
      exec (codes "ratelimit:" ++ window_key key (window_floor now window_seconds)) window_seconds
        redis in
    (count_of_replies reply, redis')

abbrev pub redis_rate_limit : {R : Type 0} → (Text → ℕ → R → Exec × R) → RateLimitStore
redis_rate_limit {R} exec = record { State = R; increment_and_get = redis_increment_and_get exec }
