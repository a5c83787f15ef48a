-- ===== src/Api/Revoke.antt =====
-- POST /api/messages/:id/revoke: `createRevokeMessageHandler` of
-- apps/api/src/handlers/messages-handler.ts.
pub mod Authority
use aesmsg.Prelude.{
  ℕ, Bool, true, false, not, Option, none, some, List, [], ◌∷◌, Text, codes, if◌then◌else◌,
}
use aesmsg.Link.Interface.{LinkStore}
use aesmsg.RateLimit.{RateLimitStore}
use aesmsg.Api.{
  Platform, Request, Response, revoked_ok, thrown, bad_request, rate_limited, is_link_id,
  is_empty_body, rate_limit_max, throws, over, pass,
}
use aesmsg.Api.Limit.{limit}

-- `tokenHeader ? hashRevocationToken(tokenHeader) : null`: an empty header is as none.
unfoldable pub provided_hash : Platform → Option Text → Option Text
provided_hash p none = none
provided_hash p (some []) = none
provided_hash p (some (c ∷ rest)) = some (p.sha256_hex (c ∷ rest))

module _ (S : LinkStore) (R : RateLimitStore) (p : Platform) where
  unfoldable pub revoke_message :
      ℕ → ℕ → Text → Request → S.State → R.State → Response × S.State × R.State
  unfolding is_empty_body
  revoke_message limit_now now id request s windows =
      if not (is_link_id id)
      then (bad_request, s, windows)
      else if not (is_empty_body request.body)
      then (bad_request, s, windows)
      else (let (verdict, windows') =
            limit R p limit_now (codes "messages:revoke:") rate_limit_max request windows in
          elim verdict [
            | throws ↦ (thrown, s, windows')
            | over ↦ (rate_limited, s, windows')
            | pass ↦ (
              revoked_ok id,
              S.revoke now id (provided_hash p request.revocation_token_header) s,
              windows',
            )
          ])
