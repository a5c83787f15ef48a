-- ===== src/Mobile/Links/Status.antt =====
-- When apps/mobile/src/links shows a tracked link as revoked, expired or unknown.
use aesmsg.Prelude.{
  ◌≡◌, refl, ◌↔◌, inl, inr, Bool, true, false, Option, none, some, List, [], ◌∷◌, Text, text_eq,
  All, Bool-cases, Option-cases, if◌then◌else◌, map, ltb,
}
use aesmsg.Dict.{Dict, get, set, get-set}
use aesmsg.Mobile.Links.{
  Numbers, SentLinkRecord, ListMessageResult, gone, active, ServerStatus, confirmed_active,
  confirmed_gone, unknown, ReconciledLink, by_id, local_link, server_link, opened, expiring,
  available, revoked, locally_expired, reconcile_link, reconcile_sent_links, derive_link_status,
  is_expiring_soon,
}

-- The last result of an identifier.
abbrev pub last_result : Text → List (Text × ListMessageResult) → Option ListMessageResult
last_result id [] = none
last_result id (r ∷ rs) = elim (last_result id rs) [
  | some x ↦ some x
  | none ↦ if text_eq r.0 id then some r.1 else none
]

-- What the server said of an identifier; nothing where the call failed.
abbrev pub answered : Option (List (Text × ListMessageResult)) → Text → Option ListMessageResult
answered none id = none
answered (some results) id = last_result id results

abbrev or_else {ℓ} : {A : Type ℓ} → Option A → Option A → Option A
or_else (some x) y = some x
or_else none y = y

get-by_id :
    (id : Text) (rs : List (Text × ListMessageResult)) (m : Dict ListMessageResult)
    → get id (by_id rs m) ≡ or_else (last_result id rs) (get id m)
unfolding by_id
get-by_id id [] m = refl
get-by_id id (r ∷ rs) m = elim (Option-cases (last_result id rs)) [
  | inl e ↦ elim (Bool-cases (text_eq r.0 id)) [
    | inl t ↦ rw (get-by_id id rs (set r.0 r.1 m), e, get-set r.0 id r.1 m, t) refl
    | inr t ↦ rw (get-by_id id rs (set r.0 r.1 m), e, get-set r.0 id r.1 m, t) refl
  ]
  | inr (x, e) ↦ rw (get-by_id id rs (set r.0 r.1 m), e) refl
]

-- The status that the local expiry and the server's word give.
abbrev pub verdict : Bool → Option ListMessageResult → ServerStatus
verdict true said = confirmed_gone
verdict false none = unknown
verdict false (some gone) = confirmed_gone
verdict false (some (active expires_at max_opens opens_count)) = confirmed_active

live_status :
    (is_opened soon : Bool)
    → (if is_opened then opened else (if soon then expiring else available)) ≡ revoked
    → ⊥
live_status true soon h = cc h
live_status false true h = cc h
live_status false false h = cc h

module _ (N : Numbers) where
  -- What one link becomes: the record it came from, and the status.
  abbrev pub IsReconciled :
      Option (List (Text × ListMessageResult)) → N.Num → ReconciledLink → Type 0
  IsReconciled response now link =
      link.server_status
      ≡ verdict (locally_expired N link.record_of now) (answered response link.record_of.id)

  -- The four ways in which a link is reconciled.
  reconcile_link-cases :
      (response : Option (List (Text × ListMessageResult))) (now : N.Num) (r : SentLinkRecord)
      → (reconcile_link N response now r ≡ (
          if locally_expired N r now
          then local_link r confirmed_gone
          else server_link r (answered response r.id)))
  unfolding get
  reconcile_link-cases none now r = elim (Bool-cases (locally_expired N r now)) [
    | inl e ↦ rw e refl
    | inr e ↦ rw e refl
  ]
  reconcile_link-cases (some rs) now r = elim (Option-cases (last_result r.id rs)) [
    | inl e ↦ rw (get-by_id r.id rs [], e) refl
    | inr (x, e) ↦ rw (get-by_id r.id rs [], e) refl
  ]

  -- A statement on a link holds of the list of links where it holds of the two forms of a link.
  reconcile-All {ℓ} :
      (P : ReconciledLink → Type ℓ) (response : Option (List (Text × ListMessageResult)))
      (now : N.Num)
      → ((r : SentLinkRecord) → locally_expired N r now ≡ true → P (local_link r confirmed_gone))
      → ((r : SentLinkRecord)
          → locally_expired N r now ≡ false
          → P (server_link r (answered response r.id)))
      → (records : List SentLinkRecord) → All P (reconcile_sent_links N records response now)
  unfolding reconcile_sent_links
  reconcile-All P response now dead alive [] = tt
  reconcile-All P response now dead alive (r ∷ rs) = (
    rw (reconcile_link-cases response now r) (elim (Bool-cases (locally_expired N r now)) [
      | inl e ↦ rw e (dead r e)
      | inr e ↦ rw e (alive r e)
    ]),
    reconcile-All P response now dead alive rs,
  )

  server_link-IsReconciled :
      (response : Option (List (Text × ListMessageResult))) (now : N.Num) (r : SentLinkRecord)
      (said : Option ListMessageResult)
      → answered response r.id ≡ said
      → locally_expired N r now ≡ false
      → IsReconciled response now (server_link r said)
  server_link-IsReconciled response now r none said e = rw (e, said) refl
  server_link-IsReconciled response now r (some gone) said e = rw (e, said) refl
  server_link-IsReconciled response now r (some (active x m n)) said e = rw (e, said) refl

  -- A tracked link is taken as gone where its own expiry has passed or where the server said so of its
  -- identifier, as active only where the server said that and it has not expired, and else, as when
  -- the call failed or left the link out, as unknown. The last result of an identifier counts.
  pub reconcile_sent_links-IsReconciled :
      (records : List SentLinkRecord) (response : Option (List (Text × ListMessageResult)))
      (now : N.Num)
      → All (IsReconciled response now) (reconcile_sent_links N records response now)
  reconcile_sent_links-IsReconciled records response now =
      reconcile-All (IsReconciled response now) response now (λ r e. rw e refl)
        (λ r e. server_link-IsReconciled response now r (answered response r.id) refl e) records

  -- The red status: exactly where the server itself said that the link is gone before its expiry.
  abbrev pub IsRevokedTruly :
      Option (List (Text × ListMessageResult)) → N.Num → ReconciledLink → Type 0
  IsRevokedTruly response now link = (derive_link_status N link now ≡ revoked) ↔ (
      (answered response link.record_of.id ≡ some gone)
      × (locally_expired N link.record_of now ≡ false))

  server_link-IsRevokedTruly :
      (response : Option (List (Text × ListMessageResult))) (now : N.Num) (r : SentLinkRecord)
      (said : Option ListMessageResult)
      → answered response r.id ≡ said
      → locally_expired N r now ≡ false
      → IsRevokedTruly response now (server_link r said)
  unfolding derive_link_status
  server_link-IsRevokedTruly response now r none said e =
      ((λ h. absurd (cc h)), λ h. absurd (cc (said, h.0)))
  server_link-IsRevokedTruly response now r (some gone) said e =
      rw e ((λ h. (said, refl)), λ h. refl)
  server_link-IsRevokedTruly response now r (some (active x m n)) said e = (
    (λ h. absurd (
        live_status (ltb 0 n) (is_expiring_soon N (N.get_time r.created_at) (N.get_time x) now) h)),
    λ h. absurd (cc (said, h.0)),
  )

  -- A tracked link is shown as revoked exactly where the server said that it is gone and its own
  -- expiry has not passed; never because a call failed or left the link out.
  pub derive_link_status-reconcile :
      (records : List SentLinkRecord) (response : Option (List (Text × ListMessageResult)))
      (now : N.Num)
      → All (IsRevokedTruly response now) (reconcile_sent_links N records response now)
  unfolding derive_link_status
  derive_link_status-reconcile records response now =
      reconcile-All (IsRevokedTruly response now) response now
        (λ r e. rw e ((λ h. absurd (cc h)), λ h. absurd (cc h.1)))
        (λ r e. server_link-IsRevokedTruly response now r (answered response r.id) refl e) records

  record_of-server_link :
      (r : SentLinkRecord) (said : Option ListMessageResult) → (server_link r said).record_of ≡ r
  record_of-server_link r none = refl
  record_of-server_link r (some gone) = refl
  record_of-server_link r (some (active x m n)) = refl

  record_of-reconcile_link :
      (response : Option (List (Text × ListMessageResult))) (now : N.Num) (r : SentLinkRecord)
      → (reconcile_link N response now r).record_of ≡ r
  record_of-reconcile_link response now r =
      rw (reconcile_link-cases response now r) (elim (Bool-cases (locally_expired N r now)) [
        | inl e ↦ rw e refl
        | inr e ↦ rw e (record_of-server_link r (answered response r.id))
      ])

  -- The tracked links are shown one by one, in their order.
  pub reconcile_sent_links-map :
      (records : List SentLinkRecord) (response : Option (List (Text × ListMessageResult)))
      (now : N.Num)
      → map (λ link. link.record_of) (reconcile_sent_links N records response now) ≡ records
  unfolding reconcile_sent_links
  reconcile_sent_links-map [] response now = refl
  reconcile_sent_links-map (r ∷ rs) response now =
      rw (record_of-reconcile_link response now r, reconcile_sent_links-map rs response now) refl
