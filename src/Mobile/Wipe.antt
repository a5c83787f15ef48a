-- ===== src/Mobile/Wipe.antt =====
-- apps/mobile/src/settings/wipe-orchestration.ts: revoking the links that are still live, then wiping
-- the identity.
pub mod Sequence
use aesmsg.Prelude.{
  ℕ, suc, ◌+◌, ◌≡◌, refl, inl, inr, Bool, true, false, ◌||◌, Option, none, some, List, [], ◌∷◌,
  ◌++◌, Text, if◌then◌else◌, ◌==◌, length, length-append, arith, append_assoc, append-nil,
  Bool-cases, Option-cases,
}
use aesmsg.Mobile.Links.{Numbers}

pub record WipeLinkRef : Type 0 where
  pub id : Text
  pub label : Option Text

pub record TrackedLink : Type 0 where
  pub id : Text
  pub label : Option Text
  pub expires_at : Text

-- The value that a revoke rejects with: its numeric `status`, if it has one.
abbrev pub RevokeError : Type 0
RevokeError = Option ℕ

pub data Revoked : Type 0 where
  resolves : Revoked
  rejects : RevokeError → Revoked

pub record RevokeFailure : Type 0 where
  pub link : WipeLinkRef
  pub error : RevokeError

-- What the run calls, in order.
pub data Call : Type 0 where
  revokes : Text → Call
  progresses : ℕ → ℕ → Call
  confirms : List RevokeFailure → Call
  wipes : Call

-- What the calls answer: the links, or a rejection; the revoke of an identifier at an attempt; whether
-- to go on, or a rejection; whether the wipe resolves.
pub record RevokeThenWipeDeps : Type 0 where
  pub links : Option (List WipeLinkRef)
  pub revoke : ℕ → Text → Revoked
  pub confirm : List RevokeFailure → Option Bool
  pub wipe : Bool

pub record RevokeThenWipeResult : Type 0 where
  pub wiped : Bool
  pub revoked_count : ℕ
  pub failures : List RevokeFailure

-- A run: what it called, and its result, `none` where it rejects.
pub record Run : Type 0 where
  pub calls : List Call
  pub result : Option RevokeThenWipeResult

unfoldable pub select_live_tracked_links :
    (N : Numbers) → List TrackedLink → N.Num → List WipeLinkRef
select_live_tracked_links N [] now = []
select_live_tracked_links N (r ∷ rs) now =
    let rest = select_live_tracked_links N rs now in
    if N.lt now (N.get_time r.expires_at)
    then record { id = r.id; label = r.label } ∷ rest
    else rest

unfoldable pub is_already_gone_revoke_error : RevokeError → Bool
is_already_gone_revoke_error none = false
is_already_gone_revoke_error (some status) = (status == 404) || (status == 410)

-- The variables of the loop.
pub record Progress : Type 0 where
  pub revoked_count : ℕ
  pub failures : List RevokeFailure
  pub calls : List Call

module _ (D : RevokeThenWipeDeps) where
  abbrev settle : WipeLinkRef → Revoked → Progress → Progress
  settle link resolves p = record p { revoked_count = suc p.revoked_count }
  settle link (rejects e) p =
      if is_already_gone_revoke_error e
      then record p { revoked_count = suc p.revoked_count }
      else record p { failures = p.failures ++ (record { link = link; error = e } ∷ []) }

  abbrev called : ℕ → ℕ → WipeLinkRef → Progress → Progress
  called i total link p = record p {
    calls = p.calls ++ (revokes link.id ∷ progresses (suc i) total ∷ []);
  }

  -- The loop from the index `i`, with the links that are left.
  unfoldable pub revoke_from : ℕ → ℕ → List WipeLinkRef → Progress → Progress
  unfolding is_already_gone_revoke_error
  revoke_from i total [] p = p
  revoke_from i total (link ∷ links) p =
      revoke_from (suc i) total links (called i total link (settle link (D.revoke i link.id) p))

  abbrev wipe_after : Progress → List Call → Run
  wipe_after p asked = record {
    calls = p.calls ++ (asked ++ (wipes ∷ []));
    result =
        if D.wipe
        then some (record { wiped = true; revoked_count = p.revoked_count; failures = p.failures })
        else none;
  }

  abbrev confirmed : Progress → List Call → Option Bool → Run
  confirmed p asked none = record { calls = p.calls ++ asked; result = none }
  confirmed p asked (some false) = record {
    calls = p.calls ++ asked;
    result =
        some (record { wiped = false; revoked_count = p.revoked_count; failures = p.failures });
  }
  confirmed p asked (some true) = wipe_after p asked

  abbrev finish_with : Progress → List RevokeFailure → Run
  finish_with p [] = wipe_after p []
  finish_with p (f ∷ fs) = confirmed p (confirms (f ∷ fs) ∷ []) (D.confirm (f ∷ fs))

  abbrev begun : Progress
  begun = record { revoked_count = 0; failures = []; calls = [] }

  abbrev run_of : Option (List WipeLinkRef) → Run
  run_of none = record { calls = []; result = none }
  run_of (some links) = let p = revoke_from 0 (length links) links begun in finish_with p p.failures

  unfoldable pub revoke_all_then_wipe : Run
  unfolding revoke_from
  revoke_all_then_wipe = run_of D.links
