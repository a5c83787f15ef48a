-- ===== src/Mobile/Links.antt =====
-- apps/mobile/src/links: the links that the device tracks, against the server's answer.
-- link-reconciliation.ts, link-display.ts (deriveLinkStatus), expiring-window.ts, link-status.ts and
-- links-filter.ts.
pub mod Status
pub mod Sent
use aesmsg.Prelude.{
  ℕ, ◌<◌, ◌≡◌, Bool, true, false, ◌&&◌, ◌||◌, not, Option, none, some, List, [], ◌∷◌, Text, ltb,
  if◌then◌else◌, map,
}
use aesmsg.Dict.{Dict, get, set}
use aesmsg.Link.{ℤ}

-- The numbers of JavaScript, doubles with an infinity and NaN, as the code uses them, and
-- `new Date(text).getTime()`.
pub record Numbers : Type 1 where
  pub Num : Type 0
  pub lt : Num → Num → Bool
  pub le : Num → Num → Bool
  pub sub : Num → Num → Num
  pub mul : Num → Num → Num
  pub of_nat : ℕ → Num
  -- The literal 0.2.
  pub one_fifth : Num
  pub get_time : Text → Num

pub record SentLinkRecord : Type 0 where
  pub id : Text
  pub recipient_fingerprint : Text
  pub created_at : Text
  pub expires_at : Text
  pub max_opens : ℤ
  pub label : Option Text
  pub revocation_token : Option Text
  pub reminder_notification_id : Option Text

-- A result of POST /api/messages/list.
pub data ListMessageResult : Type 0 where
  gone : ListMessageResult
  active : Text → ℤ → ℕ → ListMessageResult

pub data ServerStatus : Type 0 where
  confirmed_active confirmed_gone unknown : ServerStatus

pub record ReconciledLink : Type 0 where
  pub record_of : SentLinkRecord
  pub server_status : ServerStatus
  pub opens_count : Option ℕ
  pub max_opens : ℤ
  pub expires_at : Text

-- The `Map` of the results: the last one of an id is found.
unfoldable pub by_id :
    List (Text × ListMessageResult) → Dict ListMessageResult → Dict ListMessageResult
by_id [] m = m
by_id (r ∷ rs) m = by_id rs (set r.0 r.1 m)

-- The values of the record, with a status.
abbrev pub local_link : SentLinkRecord → ServerStatus → ReconciledLink
local_link r status = record {
  record_of = r;
  server_status = status;
  opens_count = none;
  max_opens = r.max_opens;
  expires_at = r.expires_at;
}

abbrev pub server_link : SentLinkRecord → Option ListMessageResult → ReconciledLink
server_link r none = local_link r unknown
server_link r (some gone) = local_link r confirmed_gone
server_link r (some (active expires_at max_opens opens_count)) = record {
  record_of = r;
  server_status = confirmed_active;
  opens_count = some opens_count;
  max_opens = max_opens;
  expires_at = expires_at;
}

pub data LinkStatus : Type 0 where
  available opened expiring revoked expired status_unknown : LinkStatus

pub data LinkFilter : Type 0 where
  all_links active_links expired_links : LinkFilter

unfoldable pub is_dimmed_status : LinkStatus → Bool
is_dimmed_status revoked = true
is_dimmed_status expired = true
is_dimmed_status _ = false

-- The sets ACTIVE and EXPIRED.
abbrev is_active_status : LinkStatus → Bool
is_active_status available = true
is_active_status opened = true
is_active_status expiring = true
is_active_status status_unknown = true
is_active_status _ = false

abbrev is_expired_status : LinkStatus → Bool
is_expired_status expired = true
is_expired_status revoked = true
is_expired_status _ = false

unfoldable pub matches_filter : LinkStatus → LinkFilter → Bool
matches_filter status all_links = true
matches_filter status active_links = is_active_status status
matches_filter status expired_links = is_expired_status status

abbrev minute_ms : ℕ
minute_ms = 60000

abbrev day_ms : ℕ
day_ms = 86400000

module _ (N : Numbers) where
  abbrev pub locally_expired : SentLinkRecord → N.Num → Bool
  locally_expired r now = N.le (N.get_time r.expires_at) now

  abbrev reconcile_link :
      Option (List (Text × ListMessageResult)) → N.Num → SentLinkRecord → ReconciledLink
  reconcile_link none now r =
      local_link r (if locally_expired r now then confirmed_gone else unknown)
  reconcile_link (some results) now r =
      if locally_expired r now
      then local_link r confirmed_gone
      else server_link r (get r.id (by_id results []))

  -- The response is `none` where the call failed.
  unfoldable pub reconcile_sent_links :
      List SentLinkRecord → Option (List (Text × ListMessageResult)) → N.Num → List ReconciledLink
  unfolding by_id get set
  reconcile_sent_links [] response now = []
  reconcile_sent_links (r ∷ rs) response now =
      reconcile_link response now r ∷ reconcile_sent_links rs response now

  unfoldable pub expiring_window_ms : N.Num → N.Num
  expiring_window_ms lifetime =
      let raw = N.mul lifetime N.one_fifth in
      if not (N.lt (N.of_nat minute_ms) raw)
      then N.of_nat minute_ms
      else (if N.lt (N.of_nat day_ms) raw then N.of_nat day_ms else raw)

  unfoldable pub is_expiring_soon : N.Num → N.Num → N.Num → Bool
  unfolding expiring_window_ms
  is_expiring_soon created_at expires_at now =
      let remaining = N.sub expires_at now in
      if N.le remaining (N.of_nat 0)
      then false
      else N.le remaining (expiring_window_ms (N.sub expires_at created_at))

  abbrev is_opened : Option ℕ → Bool
  is_opened none = false
  is_opened (some n) = ltb 0 n

  abbrev status_of : ServerStatus → ReconciledLink → N.Num → LinkStatus
  status_of unknown link now = status_unknown
  status_of confirmed_gone link now =
      if N.le (N.get_time link.expires_at) now then expired else revoked
  status_of confirmed_active link now =
      if is_opened link.opens_count
      then opened
      else (if is_expiring_soon (N.get_time link.record_of.created_at) (N.get_time link.expires_at)
            now
          then expiring
          else available)

  unfoldable pub derive_link_status : ReconciledLink → N.Num → LinkStatus
  unfolding is_expiring_soon
  derive_link_status link now = status_of link.server_status link now
