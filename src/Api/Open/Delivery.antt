-- ===== src/Api/Open/Delivery.antt =====
-- What POST /api/messages/:id/open hands out, and what it does to the store.
use aesmsg.Prelude.{
  ℕ, ◌+◌, ◌≡◌, refl, ap, ◌∙◌, ◌⊎◌, Bool, true, false, none, some, Text, codes, arith, if◌then◌else◌,
  Option-cases, Bool-cases, inl, inr, text_eq, text_eq_iff,
}
use aesmsg.Link.{Bytes, LinkMetadata, active, expired}
use aesmsg.Link.Cell
use aesmsg.Link.Cell.{Cell}
use aesmsg.Link.Sound.{IsSound}
use aesmsg.Link.Interface.{LinkStore, open_result}
use aesmsg.RateLimit.{RateLimitStore}
use aesmsg.Api.{
  Platform, Request, Response, opened, is_link_id, is_empty_body, rate_limit_max, verdict_cases,
}
use aesmsg.Api.Limit.{limit}
use aesmsg.Api.Open.{delivery, open_link, open_message}

abbrev pub is_opened : Response → Bool
is_opened (opened a b c d e f) = true
is_opened _ = false

-- A link that is not live loses nothing by an open.
not_live_kept : (now : ℕ) (c : Cell) → open_result now c.row ≡ none → Cell.open_step now c ≡ c
not_live_kept now c e = ground arith

dead_result :
    (now : ℕ) (row : LinkMetadata)
    → Cell.is_live now row ≡ false
    → open_result now (some row) ≡ none
dead_result now row e = ground (arith, e)

-- A live link has its ciphertext.
live_blob :
    (id : Text) (now : ℕ) (c : Cell) (row : LinkMetadata)
    → IsSound id c
    → c.row ≡ some row
    → Cell.is_live now row ≡ true
    → (blob : Bytes) × (c.blob ≡ some blob)
live_blob id now c row h e l = ground arith

module _ (S : LinkStore) (R : RateLimitStore) (p : Platform) where
  -- The answer that hands out a ciphertext, with the times of its link, its counts after one more open,
  -- and the status expired if that open is the last one.
  abbrev pub handed_out : LinkMetadata → Bytes → Response
  handed_out row blob =
      opened (p.btoa blob) (elim row.created_at [ none ↦ none | some t ↦ some (p.to_iso_string t) ])
        (p.to_iso_string row.expires_at) (row.opens_count + 1) row.max_opens
        (if Cell.is_last_open row then expired else active)

  delivery-handed_out :
      (now : ℕ) (row : LinkMetadata) (blob : Bytes)
      → Cell.is_live now row ≡ true
      → delivery p (some blob) (open_result now (some row)) ≡ handed_out row blob
  delivery-handed_out now row blob live = ground (arith, live)

  -- The answer hands out the stored ciphertext of a live link, and that link is opened once; or it
  -- hands out nothing and no link changes.
  abbrev pub Delivered : ℕ → Text → S.State → Response → S.State → Type 0
  Delivered now id s response s' =
      ((is_opened response ≡ false) × ((j : Text) → S.cell s' j ≡ S.cell s j))
      ⊎ ((row : LinkMetadata) × (blob : Bytes) × ((S.cell s id).row ≡ some row)
          × (Cell.is_live now row ≡ true)
          × ((S.cell s id).blob ≡ some blob)
          × (response ≡ handed_out row blob)
          × ((j : Text)
              → S.cell s' j
                ≡ (if text_eq id j then Cell.open_step now (S.cell s j) else S.cell s j)))

  unchanged_if :
      (now : ℕ) (id j : Text) (s : S.State)
      → open_result now (S.cell s id).row ≡ none
      → (if text_eq id j then Cell.open_step now (S.cell s j) else S.cell s j) ≡ S.cell s j
  unchanged_if now id j s e = elim (Bool-cases (text_eq id j)) [
    | inl same ↦ rw same (not_live_kept now (S.cell s j) (rw ((text_eq_iff id j).0 same) at e))
    | inr other ↦ rw other refl
  ]

  open_live :
      (now : ℕ) (id : Text) (s : S.State) (row : LinkMetadata) (blob : Bytes)
      → (S.cell s id).row ≡ some row
      → (S.cell s id).blob ≡ some blob
      → (open_link S R p now id s).0 ≡ delivery p (some blob) (open_result now (some row))
  unfolding open_link
  open_live now id s row blob er eb =
      rw (S.get_blob_lem id s, eb, S.increment_opens_lem now id s, er) refl

  open_dead :
      (now : ℕ) (id : Text) (s : S.State)
      → open_result now (S.cell s id).row ≡ none
      → (is_opened (open_link S R p now id s).0 ≡ false)
        × ((j : Text) → S.cell (open_link S R p now id s).1 j ≡ S.cell s j)
  unfolding open_link
  open_dead now id s e = (
    rw (S.increment_opens_lem now id s, e) refl,
    λ j. S.cell-increment_opens now id j s ∙ unchanged_if now id j s e,
  )

  cell-open_link :
      (now : ℕ) (id j : Text) (s : S.State)
      → S.cell (open_link S R p now id s).1 j
        ≡ (if text_eq id j then Cell.open_step now (S.cell s j) else S.cell s j)
  unfolding open_link
  cell-open_link now id j s = S.cell-increment_opens now id j s

  open_link-Delivered :
      (now : ℕ) (id : Text) (s : S.State)
      → IsSound id (S.cell s id)
      → Delivered now id s (open_link S R p now id s).0 (open_link S R p now id s).1
  open_link-Delivered now id s h = elim (Option-cases (S.cell s id).row) [
    | inl er ↦ inl (open_dead now id s (ap (open_result now) er))
    | inr (row, er) ↦ elim (Bool-cases (Cell.is_live now row)) [
      | inr dead ↦ inl (open_dead now id s (ap (open_result now) er ∙ dead_result now row dead))
      | inl live ↦
          let (blob, eb) = live_blob id now (S.cell s id) row h er live in
          inr (
            row,
            blob,
            er,
            live,
            eb,
            open_live now id s row blob er eb ∙ delivery-handed_out now row blob live,
            λ j. cell-open_link now id j s,
          )
    ]
  ]

  -- On every request the open either hands out nothing and leaves every link as it was, or hands out
  -- the ciphertext that is stored for an active, unexpired link, with the times of that link, its counts
  -- after one more open and the status expired if that open is the last one, and takes exactly that open in the store.
  pub open_message-Delivered :
      (limit_now now : ℕ) (id : Text) (request : Request) (s : S.State) (windows : R.State)
      → IsSound id (S.cell s id)
      → Delivered now id s
          (open_message S R p limit_now now id request s windows).0
          (open_message S R p limit_now now id request s windows).1
  unfolding open_message
  open_message-Delivered limit_now now id request s windows h = elim (Bool-cases (is_link_id id)) [
    | inr bad ↦ rw (bad, open_message) (inl (refl, λ j. refl))
    | inl good ↦ elim (Bool-cases (is_empty_body request.body)) [
      | inr bad ↦ rw (good, bad, open_message) (inl (refl, λ j. refl))
      | inl no_body ↦
          elim (verdict_cases
            (limit R p limit_now (codes "messages:open:") rate_limit_max request windows).0) [
              | inl e ↦ rw (good, no_body, e, open_message) (inl (refl, λ j. refl))
              | inr (inl e) ↦ rw (good, no_body, e, open_message) (inl (refl, λ j. refl))
              | inr (inr e) ↦ rw (good, no_body, e, open_message) (open_link-Delivered now id s h)
            ]
    ]
  ]
