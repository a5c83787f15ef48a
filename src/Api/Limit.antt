-- ===== src/Api/Limit.antt =====
-- The head of every message handler: the client's rate limit.
use aesmsg.Prelude.{ℕ, Option, none, some, Text, ◌++◌}
use aesmsg.RateLimit.{RateLimitStore}
use aesmsg.Api.{
  Platform, Request, Verdict, throws, verdict_of, hash_ip, get_client_ip, rate_limit_window_seconds,
}

module _ (R : RateLimitStore) where
  abbrev counted : ℕ → Option ℕ × R.State → Verdict × R.State
  counted max (count, windows) = (verdict_of max count, windows)

  abbrev limit_key : ℕ → Text → ℕ → Option Text → R.State → Verdict × R.State
  limit_key now prefix max none windows = (throws, windows)
  limit_key now prefix max (some ip) windows =
      counted max (R.increment_and_get now (prefix ++ ip) rate_limit_window_seconds windows)

  -- `hashIp(getClientIp(request))`, `incrementAndGet` and the test against the maximum.
  unfoldable pub limit : Platform → ℕ → Text → ℕ → Request → R.State → Verdict × R.State
  unfolding hash_ip get_client_ip
  limit p now prefix max request windows =
      limit_key now prefix max (hash_ip p (get_client_ip request)) windows
