-- ===== src/Mobile/Wipe/Sequence.antt =====
-- The order of the calls of apps/mobile/src/settings/wipe-orchestration.ts, and what it reports.
use aesmsg.Prelude.{
  ℕ, suc, none, ◌==◌, ◌+◌, ◌≡◌, refl, inl, inr, Bool, true, false, some, List, [], ◌∷◌, ◌++◌,
  if◌then◌else◌, length, length-append, arith, append_assoc, append-nil, Bool-cases, Option-cases,
}
use aesmsg.Mobile.Wipe.{
  RevokeError, WipeLinkRef, Revoked, resolves, rejects, RevokeFailure, Call, revokes, progresses,
  confirms, wipes, RevokeThenWipeDeps, RevokeThenWipeResult, is_already_gone_revoke_error, Progress,
  settle, called, revoke_from, wipe_after, finish_with, begun, revoke_all_then_wipe,
}

module _ (D : RevokeThenWipeDeps) where
  -- The links whose revoke fails for good, from the index `i` on: a rejection with the status 404 or
  -- 410 says that the link is gone already, and any other, or one with no status, is a failure.
  abbrev failure : WipeLinkRef → Revoked → List RevokeFailure
  failure link resolves = []
  failure link (rejects none) = record { link = link; error = none } ∷ []
  failure link (rejects (some status)) =
      if status == 404
      then []
      else (if status == 410 then [] else record { link = link; error = some status } ∷ [])

  failure_lem :
      (link : WipeLinkRef) (e : RevokeError)
      → failure link (rejects e)
        ≡ (if is_already_gone_revoke_error e then [] else record { link = link; error = e } ∷ [])
  unfolding is_already_gone_revoke_error
  failure_lem link none = refl
  failure_lem link (some status) = ground arith

  abbrev pub stranded : ℕ → List WipeLinkRef → List RevokeFailure
  stranded i [] = []
  stranded i (link ∷ links) = failure link (D.revoke i link.id) ++ stranded (suc i) links

  -- Every link revoked once, in order, with the progress after each.
  abbrev pub revokes_all : ℕ → ℕ → List WipeLinkRef → List Call
  revokes_all i total [] = []
  revokes_all i total (link ∷ links) =
      revokes link.id ∷ progresses (suc i) total ∷ revokes_all (suc i) total links

  settle-failures :
      (link : WipeLinkRef) (r : Revoked) (p : Progress)
      → (settle D link r p).failures ≡ p.failures ++ failure link r
  settle-failures link resolves p = rw (append-nil p.failures) refl
  settle-failures link (rejects e) p = elim (Bool-cases (is_already_gone_revoke_error e)) [
    | inl g ↦ rw (failure_lem link e, g, append-nil p.failures) refl
    | inr g ↦ rw (failure_lem link e, g) refl
  ]

  settle-calls :
      (link : WipeLinkRef) (r : Revoked) (p : Progress) → (settle D link r p).calls ≡ p.calls
  settle-calls link resolves p = refl
  settle-calls link (rejects e) p = elim (Bool-cases (is_already_gone_revoke_error e)) [
    | inl g ↦ rw g refl
    | inr g ↦ rw g refl
  ]

  settle-revoked_count :
      (link : WipeLinkRef) (r : Revoked) (p : Progress)
      → (settle D link r p).revoked_count + length (failure link r) ≡ suc p.revoked_count
  settle-revoked_count link resolves p = omega arith
  settle-revoked_count link (rejects e) p = elim (Bool-cases (is_already_gone_revoke_error e)) [
    | inl g ↦ rw (failure_lem link e, g) (omega arith)
    | inr g ↦ rw (failure_lem link e, g) (omega arith)
  ]

  revoke_from-calls :
      (i total : ℕ) (links : List WipeLinkRef) (p : Progress)
      → (revoke_from D i total links p).calls ≡ p.calls ++ revokes_all i total links
  unfolding revoke_from
  revoke_from-calls i total [] p = rw (append-nil p.calls) refl
  revoke_from-calls i total (link ∷ links) p =
      let q = settle D link (D.revoke i link.id) p in
      rw
        (
          revoke_from-calls (suc i) total links (called D i total link q),
          settle-calls link (D.revoke i link.id) p,
        )
        (append_assoc p.calls _ _)

  revoke_from-failures :
      (i total : ℕ) (links : List WipeLinkRef) (p : Progress)
      → (revoke_from D i total links p).failures ≡ p.failures ++ stranded i links
  unfolding revoke_from
  revoke_from-failures i total [] p = rw (append-nil p.failures) refl
  revoke_from-failures i total (link ∷ links) p =
      let q = settle D link (D.revoke i link.id) p in
      rw
        (
          revoke_from-failures (suc i) total links (called D i total link q),
          settle-failures link (D.revoke i link.id) p,
        )
        (append_assoc p.failures _ _)

  revoke_from-revoked_count :
      (i total : ℕ) (links : List WipeLinkRef) (p : Progress)
      → (revoke_from D i total links p).revoked_count + length (stranded i links)
        ≡ p.revoked_count + length links
  unfolding revoke_from
  revoke_from-revoked_count i total [] p = refl
  revoke_from-revoked_count i total (link ∷ links) p =
      let r = D.revoke i link.id in
      let q = settle D link r p in
      let rest = revoke_from-revoked_count (suc i) total links (called D i total link q) in
      omega (
        arith,
        rest,
        settle-revoked_count link r p,
        length-append (failure link r) (stranded (suc i) links),
      )

  -- What comes after the revokes: the wipe where nothing failed, else the question, and the wipe only
  -- where the answer is to go on.
  abbrev pub last_calls : List RevokeFailure → List Call
  last_calls [] = wipes ∷ []
  last_calls (f ∷ fs) =
      confirms (f ∷ fs) ∷ (elim (D.confirm (f ∷ fs)) [ some true ↦ wipes ∷ [] | _ ↦ [] ])

  finish_with-calls :
      (p : Progress) (fs : List RevokeFailure)
      → (finish_with D p fs).calls ≡ p.calls ++ last_calls fs
  finish_with-calls p [] = refl
  finish_with-calls p (f ∷ fs) = elim (Option-cases (D.confirm (f ∷ fs))) [
    | inl e ↦ rw e refl
    | inr (true, e) ↦ rw e refl
    | inr (false, e) ↦ rw e refl
  ]

  -- Whether the run goes on to the wipe.
  abbrev pub proceeds : List RevokeFailure → Bool
  proceeds [] = true
  proceeds (f ∷ fs) = elim (D.confirm (f ∷ fs)) [ some true ↦ true | _ ↦ false ]

  abbrev result_of : Progress → Bool → RevokeThenWipeResult
  result_of p wiped = record {
    wiped = wiped;
    revoked_count = p.revoked_count;
    failures = p.failures;
  }

  wipe_after-result :
      (p : Progress) (asked : List Call) (r : RevokeThenWipeResult)
      → (wipe_after D p asked).result ≡ some r
      → result_of p true ≡ r
  wipe_after-result p asked r h = elim (Bool-cases D.wipe) [
    | inl e ↦ cc (rw e at h)
    | inr e ↦ absurd (cc (rw e at h))
  ]

  finish_with-result :
      (p : Progress) (fs : List RevokeFailure) (r : RevokeThenWipeResult)
      → (finish_with D p fs).result ≡ some r
      → result_of p (proceeds fs) ≡ r
  finish_with-result p [] r h = wipe_after-result p [] r h
  finish_with-result p (f ∷ fs) r h = elim (Option-cases (D.confirm (f ∷ fs))) [
    | inl e ↦ absurd (cc (rw e at h))
    | inr (true, e) ↦ rw (proceeds, e) (wipe_after-result p (confirms (f ∷ fs) ∷ []) r (rw e at h))
    | inr (false, e) ↦ rw (proceeds, e) (cc (rw e at h))
  ]

  -- A run revokes every link once and in order, whatever fails, and only then does it wipe: at once
  -- where no revoke failed other than with the status 404 or 410, and else only where the user goes on
  -- after being asked about exactly the links whose revoke failed otherwise.
  pub revoke_all_then_wipe-calls :
      (links : List WipeLinkRef)
      → D.links ≡ some links
      → (revoke_all_then_wipe D).calls
        ≡ revokes_all 0 (length links) links ++ last_calls (stranded 0 links)
  unfolding revoke_all_then_wipe
  revoke_all_then_wipe-calls links e =
      let p = revoke_from D 0 (length links) links (begun D) in
      let called = revoke_from-calls 0 (length links) links (begun D) in
      let failed = revoke_from-failures 0 (length links) links (begun D) in
      rw (e, finish_with-calls p p.failures, called, failed) refl

  -- The result of a run counts every link once: as revoked, or among the failures, which are the links
  -- whose revoke failed other than with the status 404 or 410, in their order; and it says that the
  -- identity was wiped where it was.
  pub revoke_all_then_wipe-result :
      (links : List WipeLinkRef) (r : RevokeThenWipeResult)
      → D.links ≡ some links
      → (revoke_all_then_wipe D).result ≡ some r
      → (r.failures ≡ stranded 0 links)
        × (r.revoked_count + length r.failures ≡ length links)
        × (r.wiped ≡ proceeds (stranded 0 links))
  unfolding revoke_all_then_wipe
  revoke_all_then_wipe-result links r e h =
      let p = revoke_from D 0 (length links) links (begun D) in
      let counted = revoke_from-revoked_count 0 (length links) links (begun D) in
      let failed = revoke_from-failures 0 (length links) links (begun D) in
      let made = finish_with-result p p.failures r (rw e at h) in
      rw (← made, failed) (refl, omega (arith, counted), refl)
