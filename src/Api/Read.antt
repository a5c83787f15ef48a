-- ===== src/Api/Read.antt =====
-- GET /api/messages/:id and POST /api/messages/list: `createGetMessageHandler` and
-- `createListMessagesHandler` of apps/api/src/handlers/messages-handler.ts.
pub mod Opaque
use aesmsg.Prelude.{
  ℕ, suc, Bool, true, false, ◌&&◌, ◌||◌, not, Option, none, some, List, [], ◌∷◌, Text, leb, ltb,
  ◌==◌, length, codes, if◌then◌else◌, map,
}
use aesmsg.Link.{LinkMetadata, is_active}
use aesmsg.Link.Interface.{LinkStore}
use aesmsg.RateLimit.{RateLimitStore}
use aesmsg.Api.{
  Platform, Request, Response, Entry, gone, present, preview, listed, thrown, bad_request,
  rate_limited, not_found, Json, null, bool, num, str, arr, obj, Items, nil, cons, field_at,
  is_link_id, get_rate_limit_max, throws, over, pass,
}
use aesmsg.Api.Limit.{limit}

abbrev pub list_max_ids : ℕ
list_max_ids = 100

abbrev pub list_rate_limit_max : ℕ
list_rate_limit_max = 60

abbrev pub preview_of : Platform → ℕ → Option LinkMetadata → Response
preview_of p now none = not_found
preview_of p now (some row) =
    if not (is_active row.status)
    then not_found
    else if leb row.expires_at now
    then not_found
    else preview row.status (p.to_iso_string row.expires_at) row.max_opens row.opens_count

-- The ids of the array, if each is a link id.
abbrev pub id_of : Json → Option Text
id_of (str s) = if is_link_id s then some s else none
id_of _ = none

abbrev pub cons_id : Option Text → Option (List Text) → Option (List Text)
cons_id none ids = none
cons_id (some id) none = none
cons_id (some id) (some ids) = some (id ∷ ids)

unfoldable pub ids_of : Items → Option (List Text)
ids_of nil = some []
ids_of (cons j rest) = cons_id (id_of j) (ids_of rest)

unfoldable pub count_items : Items → ℕ
count_items nil = 0
count_items (cons j rest) = suc (count_items rest)

abbrev pub ids_within : Items → Option (List Text)
ids_within items =
    if (count_items items == 0) || ltb list_max_ids (count_items items) then none else ids_of items

abbrev pub ids_of_field : Option Json → Option (List Text)
ids_of_field (some (arr items)) = ids_within items
ids_of_field _ = none

abbrev pub list_of_json : Option Json → Option (List Text)
list_of_json (some (obj fields)) = ids_of_field (field_at (codes "ids") fields)
list_of_json _ = none

unfoldable pub parse_list_body : Platform → Text → Option (List Text)
parse_list_body p raw = list_of_json (p.json_parse raw)

-- The answer for one id of the list.
abbrev pub entry_of : Platform → ℕ → Text → Option LinkMetadata → Entry
entry_of p now id none = gone id
entry_of p now id (some row) =
    if not (is_active row.status) || leb row.expires_at now
    then gone id
    else present id row.status (p.to_iso_string row.expires_at) row.max_opens row.opens_count

module _ (S : LinkStore) (R : RateLimitStore) (p : Platform) where
  -- The clock is read once for the limiter and once for the expiry.
  unfoldable pub get_message : ℕ → ℕ → Text → Request → S.State → R.State → Response × R.State
  get_message limit_now now id request s windows =
      if not (is_link_id id)
      then (bad_request, windows)
      else (let (verdict, windows') =
            limit R p limit_now (codes "messages:get:") get_rate_limit_max request windows in
          elim verdict [
            | throws ↦ (thrown, windows')
            | over ↦ (rate_limited, windows')
            | pass ↦ (preview_of p now (S.get id s), windows')
          ])

  abbrev list_answer : ℕ → Option (List Text) → S.State → Response
  list_answer now none s = bad_request
  list_answer now (some ids) s = listed (map (λ id. entry_of p now id (S.get id s)) ids)

  unfoldable pub list_messages : ℕ → ℕ → Request → S.State → R.State → Response × R.State
  list_messages limit_now now request s windows =
      let (verdict, windows') =
        limit R p limit_now (codes "messages:list:") list_rate_limit_max request windows in
      elim verdict [
        | throws ↦ (thrown, windows')
        | over ↦ (rate_limited, windows')
        | pass ↦ (list_answer now (parse_list_body p request.body) s, windows')
      ]
