-- ===== src/Api/Open.antt =====
-- POST /api/messages/:id/open: `createOpenMessageHandler` of
-- apps/api/src/handlers/messages-handler.ts.
pub mod Delivery
use aesmsg.Prelude.{ℕ, Bool, true, false, not, Option, none, some, Text, codes, if◌then◌else◌}
use aesmsg.Link.{Bytes, LinkMetadata}
use aesmsg.Link.Interface.{LinkStore}
use aesmsg.RateLimit.{RateLimitStore}
use aesmsg.Api.{
  Platform, Request, Response, opened, thrown, bad_request, rate_limited, no_longer_available,
  is_link_id, is_empty_body, rate_limit_max, throws, over, pass,
}
use aesmsg.Api.Limit.{limit}

abbrev iso_or_null : Platform → Option ℕ → Option Text
iso_or_null p none = none
iso_or_null p (some t) = some (p.to_iso_string t)

-- The answer from the blob that was read before the open and the row that the open returned.
abbrev pub delivery : Platform → Option Bytes → Option LinkMetadata → Response
delivery p blob none = no_longer_available
delivery p none (some row) = no_longer_available
delivery p (some blob) (some row) =
    opened (p.btoa blob) (iso_or_null p row.created_at) (p.to_iso_string row.expires_at)
      row.opens_count row.max_opens row.status

module _ (S : LinkStore) (R : RateLimitStore) (p : Platform) where
  -- The ciphertext is read first, since the last open purges it.
  unfoldable pub open_link : ℕ → Text → S.State → Response × S.State
  open_link now id s =
      let blob = S.get_blob id s in
      let (row, s') = S.increment_opens now id s in (delivery p blob row, s')

  unfoldable pub open_message :
      ℕ → ℕ → Text → Request → S.State → R.State → Response × S.State × R.State
  unfolding is_empty_body
  open_message limit_now now id request s windows =
      if not (is_link_id id)
      then (bad_request, s, windows)
      else if not (is_empty_body request.body)
      then (bad_request, s, windows)
      else (let (verdict, windows') =
            limit R p limit_now (codes "messages:open:") rate_limit_max request windows in
          elim verdict [
            | throws ↦ (thrown, s, windows')
            | over ↦ (rate_limited, s, windows')
            | pass ↦ let (response, s') = open_link now id s in (response, s', windows')
          ])
