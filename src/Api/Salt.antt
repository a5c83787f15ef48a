-- ===== src/Api/Salt.antt =====
-- The boot check of apps/api/src/lib/hash-ip.ts.
use aesmsg.Prelude.{
  ◌≡◌, Bool, true, ◌||◌, not, Option, none, some, [], Text, codes, ltb, text_eq, text_eq_iff,
  if◌then◌else◌, arith, Option-cases, inl, inr,
}
use aesmsg.Link.{is_some}
use aesmsg.Api.{Platform, hash_ip}

abbrev salt_message : Text
salt_message =
    codes
      "RATE_LIMIT_IP_SALT must be set to at least 32 bytes in production (refusing to hash client IPs with a weak/empty salt)"

abbrev weak : Platform → Option Text → Bool
weak p none = true
weak p (some salt) = text_eq salt [] || ltb (p.byte_length salt) 32

-- `saltConfigError` of the salt and the environment: `none` is null.
unfoldable pub salt_config_error : Platform → Option Text
salt_config_error p =
    if not p.production then none else if weak p p.salt then some salt_message else none

-- The boot check finds no fault exactly if the hash of a client's address, whatever the address, does
-- not throw. An empty text has no bytes.
pub hash_ip-salt_config_error :
    (p : Platform) (ip : Text)
    → p.byte_length [] ≡ 0
    → is_some (hash_ip p ip) ≡ not (is_some (salt_config_error p))
unfolding hash_ip salt_config_error
hash_ip-salt_config_error p ip h = elim (Option-cases p.salt) [
  | inl e ↦ ground (arith, h, e)
  | inr (salt, e) ↦ ground (arith, h, e, text_eq_iff salt [])
]
