-- ===== src/Api/Read/Opaque.antt =====
-- The reading handlers of apps/api/src/handlers/messages-handler.ts: what they tell of a link.
use aesmsg.Prelude.{
  ℕ, ◌≡◌, refl, ap, sym, ◌∙◌, true, false, Option, none, some, Text, codes, arith, Bool-cases, inl,
  inr, List, [], ◌∷◌, length, ◌≤◌, ltb, All, suc, ◌==◌, ◌||◌,
}
use aesmsg.Link.{LinkMetadata}
use aesmsg.Link.Cell
use aesmsg.Link.Interface.{LinkStore}
use aesmsg.RateLimit.{RateLimitStore}
use aesmsg.Api.{
  Platform, Request, preview, not_found, is_link_id, Json, Items, nil, cons, arr, obj, field_at,
}
use aesmsg.Api.Read.{
  preview_of, get_message, parse_list_body, list_max_ids, ids_of, count_items, id_of, cons_id,
  list_of_json, ids_within, ids_of_field,
}

-- A link that cannot be opened shows nothing: the answers for it are those for an id that was never
-- used.
abbrev Hidden : ℕ → Option LinkMetadata → Type 0
Hidden now none = Unit {0}
Hidden now (some row) = Cell.is_live now row ≡ false

preview-Hidden :
    (p : Platform) (now : ℕ) (row : Option LinkMetadata)
    → Hidden now row
    → preview_of p now row ≡ not_found
preview-Hidden p now row h = ground arith

preview_live :
    (p : Platform) (now : ℕ) (row : LinkMetadata)
    → Cell.is_live now row ≡ true
    → preview_of p now (some row)
      ≡ preview row.status (p.to_iso_string row.expires_at) row.max_opens row.opens_count
preview_live p now row h = ground (arith, h)

module _ (S : LinkStore) (R : RateLimitStore) (p : Platform) where
  -- GET of a link that is revoked, exhausted or past its expiry gives the answer, and leaves the
  -- limiter, as GET in a store where the id is unknown.
  pub get_message_opaque :
      (limit_now now : ℕ) (id : Text) (request : Request) (s t : S.State) (windows : R.State)
      → Hidden now (S.cell s id).row
      → (S.cell t id).row ≡ none
      → get_message S R p limit_now now id request s windows
        ≡ get_message S R p limit_now now id request t windows
  unfolding get_message
  get_message_opaque limit_now now id request s t windows h e =
      let same : preview_of p now (S.get id s) ≡ preview_of p now (S.get id t) =
        ap (preview_of p now) (S.get_lem id s)
        ∙ preview-Hidden p now (S.cell s id).row h
        ∙ sym (ap (preview_of p now) (S.get_lem id t ∙ e)) in
      ground (arith, same)

id_of_lem : (j : Json) (id : Text) → id_of j ≡ some id → is_link_id id ≡ true
id_of_lem j id e = ground (arith, e)

cons_id_lem :
    (a : Option Text) (o : Option (List Text)) (ids : List Text)
    → cons_id a o ≡ some ids
    → (id : Text) × (rest : List Text) × (ids ≡ id ∷ rest) × (a ≡ some id) × (o ≡ some rest)
cons_id_lem none o ids e = absurd (cc)
cons_id_lem (some id) none ids e = absurd (cc)
cons_id_lem (some id) (some rest) ids e = (id, rest, cc, refl, refl)

abbrev pub AreIds : ℕ → List Text → Type 0
AreIds n ids = (length ids ≡ n) × All (λ id. is_link_id id ≡ true) ids

ids_of-AreIds :
    (items : Items) (ids : List Text) → ids_of items ≡ some ids → AreIds (count_items items) ids
unfolding ids_of count_items
ids_of-AreIds nil ids e = let e' : [] ≡ ids = cc in rw (← e') (refl, tt)
ids_of-AreIds (cons j more) ids e =
    let (id, rest, e1, e2, e3) = cons_id_lem (id_of j) (ids_of more) ids e in
    let (len, valid) = ids_of-AreIds more rest e3 in rw e1 (ap suc len, (id_of_lem j id e2, valid))

abbrev pub AreBounded : List Text → Type 0
AreBounded ids =
    (1 ≤ length ids) × (length ids ≤ list_max_ids) × All (λ id. is_link_id id ≡ true) ids

ids_within_lem : (items : Items) (ids : List Text) → ids_within items ≡ some ids → AreBounded ids
ids_within_lem items ids e =
    elim (Bool-cases ((count_items items == 0) || ltb list_max_ids (count_items items))) [
      | inl bad ↦ absurd (cc (rw bad at e))
      | inr ok ↦
          let (len, valid) = ids_of-AreIds items ids (rw ok at e) in
          (ground (arith, len, ok), ground (arith, len, ok), valid)
    ]

ids_of_field_lem : (o : Option Json) (ids : List Text) → ids_of_field o ≡ some ids → AreBounded ids
ids_of_field_lem (some (arr items)) ids e = ids_within_lem items ids e
ids_of_field_lem _ ids e = absurd (cc)

list_of_json_lem : (o : Option Json) (ids : List Text) → list_of_json o ≡ some ids → AreBounded ids
list_of_json_lem (some (obj fields)) ids e = ids_of_field_lem (field_at (codes "ids") fields) ids e
list_of_json_lem _ ids e = absurd (cc)

-- A list request that is read asks for 1 to 100 ids, and each of them is a link id.
pub parse_list_body_bounds :
    (p : Platform) (raw : Text) (ids : List Text)
    → parse_list_body p raw ≡ some ids
    → AreBounded ids
unfolding parse_list_body
parse_list_body_bounds p raw ids e = list_of_json_lem (p.json_parse raw) ids e
