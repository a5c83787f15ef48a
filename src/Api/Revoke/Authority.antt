-- ===== src/Api/Revoke/Authority.antt =====
-- createRevokeMessageHandler of apps/api/src/handlers/messages-handler.ts: who may revoke a link, and
-- what the answer tells.
use aesmsg.Prelude.{
  ℕ, ◌≡◌, ◌≢◌, refl, sym, ap, ◌∙◌, Bool, true, false, Option, none, some, Text, codes, arith,
  if◌then◌else◌, Bool-cases, inl, inr, text_eq, text_eq_iff, [],
}
use aesmsg.Link.{LinkMetadata, active, revoked}
use aesmsg.Link.Cell
use aesmsg.Link.Cell.{Cell}
use aesmsg.Link.Interface.{LinkStore}
use aesmsg.ConstantTime.{
  IsHexDigest, hash_matches, timing_safe_equal_hex, timing_safe_equal_hex_iff,
}
use aesmsg.RateLimit.{RateLimitStore}
use aesmsg.Api.{Platform, Request, is_link_id, is_empty_body, rate_limit_max, pass, revoked_ok}
use aesmsg.Api.Limit.{limit}
use aesmsg.Api.Revoke.{provided_hash, revoke_message}

unauthorized :
    (authorized : Option (Option Text) → Bool) (now : ℕ) (c : Cell)
    → authorized c.hash ≡ false
    → Cell.revoke_step authorized now c ≡ c
unauthorized authorized now c e = ground (arith, e)

authorized_active :
    (authorized : Option (Option Text) → Bool) (now : ℕ) (c : Cell) (row : LinkMetadata)
    → authorized c.hash ≡ true
    → c.row ≡ some row
    → row.status ≡ active
    → Cell.revoke_step authorized now c ≡ Cell.retire revoked now row c
authorized_active authorized now c row e er ea = ground (arith, e)

module _ (S : LinkStore) (R : RateLimitStore) (p : Platform) where
  -- The answer and the limiter's state depend on the id, the body and the client, and neither on what
  -- the store holds nor on the token that is presented.
  pub revoke_message_opaque :
      (limit_now now now' : ℕ) (id : Text) (request : Request) (token : Option Text) (s t : S.State)
      (windows : R.State)
      → let other = record request { revocation_token_header = token } in
        ((revoke_message S R p limit_now now id request s windows).0
          ≡ (revoke_message S R p limit_now now' id other t windows).0)
        × ((revoke_message S R p limit_now now id request s windows).2
            ≡ (revoke_message S R p limit_now now' id other t windows).2)
  unfolding revoke_message limit
  revoke_message_opaque limit_now now now' id request token s t windows =
      (ground arith, ground arith)

  revoke_unmatched :
      (now : ℕ) (id stored : Text) (provided : Option Text) (s : S.State)
      → (S.cell s id).hash ≡ some (some stored)
      → hash_matches provided stored ≡ false
      → (j : Text) → S.cell (S.revoke now id provided s) j ≡ S.cell s j
  revoke_unmatched now id stored provided s e m j =
      S.cell-revoke now id j s provided
      ∙ ground (
        arith,
        text_eq_iff id j,
        unauthorized (S.is_authorized provided) now (S.cell s id)
            (ap (S.is_authorized provided) e ∙ S.authorized_tokened provided stored ∙ m),
      )

  mismatched :
      (provided : Option Text) (stored : Text)
      → IsHexDigest stored
      → ((t : Text) → provided ≡ some t → IsHexDigest t × (t ≢ stored))
      → hash_matches provided stored ≡ false
  mismatched none stored h k = refl
  mismatched (some t) stored h k =
      let (digest, other) = k t refl in
      elim (Bool-cases (timing_safe_equal_hex stored t)) [
        | inl e ↦ absurd (other (sym ((timing_safe_equal_hex_iff stored t h digest).0 e).0))
        | inr e ↦ e
      ]

  -- Without the hash that the link was created with, a revocation changes no link: whatever the
  -- request, where the link has the hash `stored` and the request presents no token, or one whose
  -- hash is another.
  pub revoke_message-refused :
      (limit_now now : ℕ) (id stored : Text) (request : Request) (s : S.State) (windows : R.State)
      → (S.cell s id).hash ≡ some (some stored)
      → IsHexDigest stored
      → ((t : Text)
          → provided_hash p request.revocation_token_header ≡ some t
          → IsHexDigest t × (t ≢ stored))
      → (j : Text)
      → S.cell (revoke_message S R p limit_now now id request s windows).1 j ≡ S.cell s j
  unfolding revoke_message
  revoke_message-refused limit_now now id stored request s windows e h k j = ground (
    arith,
    revoke_unmatched now id stored (provided_hash p request.revocation_token_header) s e
        (mismatched (provided_hash p request.revocation_token_header) stored h k) j,
  )

  revoke_matched :
      (now : ℕ) (id stored : Text) (s : S.State) (row : LinkMetadata)
      → (S.cell s id).row ≡ some row
      → row.status ≡ active
      → (S.cell s id).hash ≡ some (some stored)
      → IsHexDigest stored
      → stored ≢ []
      → (j : Text)
      → S.cell (S.revoke now id (some stored) s) j
        ≡ (if text_eq id j then Cell.retire revoked now row (S.cell s j) else S.cell s j)
  revoke_matched now id stored s row er ea e h n j =
      S.cell-revoke now id j s (some stored)
      ∙ ground (
        arith,
        text_eq_iff id j,
        authorized_active (S.is_authorized (some stored)) now (S.cell s id) row
            (ap (S.is_authorized (some stored)) e
              ∙ S.authorized_tokened (some stored) stored
              ∙ (timing_safe_equal_hex_iff stored stored h h).1 (refl, n))
            er ea,
      )

  -- The creator's token revokes: on a request that the limiter lets pass, with a link id, no body and
  -- a token whose hash is the active link's, the link is retired as revoked, stamped and without its
  -- ciphertext, and no other link changes.
  pub revoke_message-accepted :
      (limit_now now : ℕ) (id stored : Text) (request : Request) (s : S.State) (windows : R.State)
      (row : LinkMetadata)
      → is_link_id id ≡ true
      → is_empty_body request.body ≡ true
      → (limit R p limit_now (codes "messages:revoke:") rate_limit_max request windows).0 ≡ pass
      → provided_hash p request.revocation_token_header ≡ some stored
      → (S.cell s id).row ≡ some row
      → row.status ≡ active
      → (S.cell s id).hash ≡ some (some stored)
      → IsHexDigest stored
      → stored ≢ []
      → ((revoke_message S R p limit_now now id request s windows).0 ≡ revoked_ok id)
        × ((j : Text)
            → S.cell (revoke_message S R p limit_now now id request s windows).1 j
              ≡ (if text_eq id j then Cell.retire revoked now row (S.cell s j) else S.cell s j))
  unfolding revoke_message
  revoke_message-accepted limit_now now id stored request s windows row ok empty v t er ea e h n = (
    rw (ok, empty, v, revoke_message) refl,
    rw (ok, empty, v, t, revoke_message) (revoke_matched now id stored s row er ea e h n),
  )
