-- ===== src/Api/Create/Outcome.antt =====
-- What POST /api/messages does to the store, on every branch.
use aesmsg.Prelude.{
  ℕ, ◌*◌, ◌≡◌, refl, sym, ◌∙◌, ◌⊎◌, Bool, true, false, Option, none, some, ◌++◌, Text, codes,
  if◌then◌else◌, arith, Option-cases, inl, inr, text_eq,
}
use aesmsg.Link.{CreateLinkRecord}
use aesmsg.Link.Cell
use aesmsg.Link.Cell.{Cell}
use aesmsg.Link.Interface.{LinkStore}
use aesmsg.RateLimit.{RateLimitStore}
use aesmsg.Api.{error, Platform, Request, Response, created, verdict_cases, rate_limit_max}
use aesmsg.Api.Limit.{limit}
use aesmsg.Api.Create.Guards.{IsAccepted, IsRequested, accept-IsAccepted, accept-IsRequested}
use aesmsg.Api.Create.{
  Accepted, Settings, accept, retention_of, record_of, store_link, create_accepted, create_body,
  create_message,
}

abbrev pub is_created : Response → Bool
is_created (created id url token) = true
is_created _ = false

-- The status of an error, and 0 for any other answer.
abbrev pub error_status : Response → ℕ
error_status (error status code) = status
error_status _ = 0

module _ (S : LinkStore) (R : RateLimitStore) (p : Platform) (settings : Settings) where
  -- The row to create, with the hash of the token and not the token.
  abbrev pub requested : Text → Accepted → CreateLinkRecord
  requested token a = record {
    id = a.id;
    expires_at = a.expires_at;
    max_opens = a.max_opens;
    revocation_token_hash = some (p.sha256_hex token);
  }

  -- The link that the request asked for stands in the store, and all others are as they were.
  abbrev pub Stored : Text → Accepted → S.State → S.State → Type 0
  Stored token a s s' =
      (j : Text)
      → S.cell s' j ≡ (
          if text_eq a.id j
          then Cell.create_step (requested token a) a.blob (S.cell s j)
          else S.cell s j)

  abbrev pub Unchanged : S.State → S.State → Type 0
  Unchanged s s' = (j : Text) → S.cell s' j ≡ S.cell s j

  -- The ceiling on retention: the configured one, else a year.
  abbrev ceiling : ℕ
  ceiling = elim settings.max_retention_ms [ none ↦ 365 * 24 * 60 * 60 * 1000 | some ms ↦ ms ]

  -- What the body asks for, within the bounds.
  abbrev pub Asked : ℕ → Text → Accepted → Type 0
  Asked now raw a = IsAccepted now ceiling raw a × IsRequested p raw a

  accept-Asked :
      (now : ℕ) (raw : Text) (a : Accepted)
      → accept p now (retention_of settings) raw ≡ some a
      → Asked now raw a
  accept-Asked now raw a e =
      (accept-IsAccepted p now ceiling raw a e, accept-IsRequested p now ceiling raw a e)

  -- What a store operation answers, and what it did.
  abbrev pub Answered : ℕ → Text → Text → S.State → Response → S.State → Type 0
  Answered now token raw s response s' =
      ((is_created response ≡ false)
        × Unchanged s s'
        × (error_status response ≡ 500
            → (a : Accepted) × Asked now raw a × ((S.cell s a.id).row ≡ none)))
      ⊎ ((a : Accepted) × Asked now raw a
          × (response ≡ created a.id (settings.public_link_origin ++ (codes "/l/" ++ a.id)) token)
          × ((S.cell s a.id).row ≡ none)
          × Stored token a s s')

  store_link-Answered :
      (now : ℕ) (token raw : Text) (a : Accepted) (s : S.State)
      → S.IsState s
      → accept p now (retention_of settings) raw ≡ some a
      → S.get a.id s ≡ none
      → Answered now token raw s
          (store_link S R p settings token a s).0
          (store_link S R p settings token a s).1
  store_link-Answered now token raw a s h e free =
      elim (Option-cases (S.create_with_ciphertext (record_of p token a) a.blob s).0) [
        | inl failed ↦ inl (
          rw failed refl,
          (λ j. S.cell-create (record_of p token a) a.blob s j h ∙ rw failed refl),
          λ r. (a, accept-Asked now raw a e, sym (S.get_lem a.id s) ∙ free),
        )
        | inr (meta, stored) ↦ inr (
          a,
          accept-Asked now raw a e,
          rw stored refl,
          sym (S.get_lem a.id s) ∙ free,
          λ j. S.cell-create (record_of p token a) a.blob s j h ∙ rw stored refl,
        )
      ]

  create_accepted-Answered :
      (now : ℕ) (token raw : Text) (o : Option Accepted) (s : S.State)
      → S.IsState s
      → accept p now (retention_of settings) raw ≡ o
      → Answered now token raw s
          (create_accepted S R p settings token o s).0
          (create_accepted S R p settings token o s).1
  create_accepted-Answered now token raw none s h e =
      inl (refl, (λ j. refl), λ r. absurd (omega (arith, r)))
  create_accepted-Answered now token raw (some a) s h e = elim (Option-cases (S.get a.id s)) [
    | inl free ↦ rw free (store_link-Answered now token raw a s h e free)
    | inr (row, taken) ↦ rw taken (inl (refl, (λ j. refl), λ r. absurd (omega (arith, r))))
  ]

  create_body-Answered :
      (now : ℕ) (token : Text) (request : Request) (s : S.State)
      → S.IsState s
      → Answered now token request.body s
          (create_body S R p settings now token request s).0
          (create_body S R p settings now token request s).1
  unfolding create_body
  create_body-Answered now token request s h =
      create_accepted-Answered now token request.body
        (accept p now (retention_of settings) request.body) s h refl

  -- On every request POST /api/messages either answers something else than 201 and no link changes, and
  -- it is a 500 only if the body asks for a link within the bounds whose id is free; or it answers 201
  -- with the id of the body and the drawn token: then the fields of the body ask for a link within the
  -- bounds, the id was free, the link is stored with the expiry, bound on opens and ciphertext of the
  -- body and with the hash of the token, and no other link changes.
  pub create_message-Answered :
      (limit_now now : ℕ) (token : Text) (request : Request) (s : S.State) (windows : R.State)
      → S.IsState s
      → Answered now token request.body s
          (create_message S R p settings limit_now now token request s windows).0
          (create_message S R p settings limit_now now token request s windows).1
  unfolding create_message
  create_message-Answered limit_now now token request s windows h =
      elim (verdict_cases
        (limit R p limit_now (codes "messages:") rate_limit_max request windows).0) [
          | inl e ↦ rw (e, create_message) (inl (refl, (λ j. refl), λ r. absurd (omega (arith, r))))
          | inr (inl e) ↦
              rw (e, create_message) (inl (refl, (λ j. refl), λ r. absurd (omega (arith, r))))
          | inr (inr e) ↦ rw (e, create_message) (create_body-Answered now token request s h)
        ]
