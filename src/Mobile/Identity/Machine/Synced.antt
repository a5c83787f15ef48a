-- ===== src/Mobile/Identity/Machine/Synced.antt =====
-- What every step of the machine of apps/mobile/src/identity/identity-machine.ts keeps.
use aesmsg.Prelude.{
  ℕ, zero, suc, ◌≡◌, ◌≤◌, refl, false, none, some, List, [], Text, arith, take, leb, Option-cases,
  inl, inr,
}
use aesmsg.Mobile.Identity.Bundle.{JsonRuntime, retired_excluding_active}
use aesmsg.Mobile.Identity.Machine.{
  IdentityCrypto, Device, apply_all, IdentityState, loading, no_identity, locked, unlocked, Plan,
  init, setup_new, persist_and_unlock, unlock, unwrap_all, migrate, lock, wipe, Rotation, rotate,
  rotate_plan,
}
use aesmsg.Mobile.Identity.Machine.Unlock.{entries_of, Opens, Opens-unlock}
use aesmsg.Mobile.Identity.Machine.Crash.{rotate-crash}
use aesmsg.Mobile.Identity.Machine.Reachable.{
  World, Step, restarts, inits, sets_up, fails_to_set_up, unlocks, migrates, locks, wipes,
  fails_to_wipe, rotates, fails_to_rotate, Reachable, at_start, next, IsSynced, migrates_late,
  NoneStored, IsSafe, settled, completed, after_writes,
}

module _ (J : JsonRuntime) (C : IdentityCrypto) where
  init-IsSynced : (d : Device) → IsSynced J C d (init J C d).next
  unfolding init
  init-IsSynced d = elim (Option-cases d.wrapped_identity) [
    | inl e ↦ rw (e, init) refl
    | inr (w, e) ↦ rw (e, init) tt
  ]

  setup_new_lem :
      (draw : ℕ) (secret : Text) (key : C.Keypair) (s : IdentityState J C) (plan : Plan J C)
      → setup_new J C draw secret key s ≡ some plan
      → (s ≡ no_identity) × (persist_and_unlock J C draw secret key ≡ plan)
  unfolding setup_new
  setup_new_lem draw secret key no_identity plan e = (refl, cc)
  setup_new_lem draw secret key _ plan e = absurd (cc)

  setup_new-Opens :
      (draw : ℕ) (secret : Text) (key : C.Keypair) (d : Device)
      → unwrap_all J C secret
          (retired_excluding_active (entries_of J C d) (C.export_public_key key))
        ≡ []
      → Opens J C
          (apply_all (persist_and_unlock J C draw secret key).writes d)
          key
          (C.export_public_key key)
          []
  unfolding apply_all
  setup_new-Opens draw secret key d h = record {
    wrapped = C.wrap_private_key draw key secret;
    secret = secret;
    has_wrapped = refl;
    has_secret = refl;
    opens = C.unwrap-wrap draw key secret;
    is_public = refl;
    has_retired = h;
  }

  unlock-none : (d : Device) → unlock J C d ≡ some no_identity → d.wrapped_identity ≡ none
  unfolding unlock
  unlock-none d e = elim (Option-cases d.wrapped_identity) [
    | inl w ↦ w
    | inr (wrapped, w) ↦ elim (Option-cases d.device_secret) [
      | inl s ↦ absurd (cc (w, s, e))
      | inr (secret, s) ↦ elim (Option-cases (C.unwrap_private_key wrapped secret)) [
        | inl u ↦ absurd (cc (w, s, u, e))
        | inr (k, u) ↦ absurd (cc (w, s, u, e))
      ]
    ]
  ]

  unlock-IsSynced : (d : Device) (s : IdentityState J C) → unlock J C d ≡ some s → IsSynced J C d s
  unlock-IsSynced d loading e = tt
  unlock-IsSynced d locked e = tt
  unlock-IsSynced d no_identity e = unlock-none d e
  unlock-IsSynced d (unlocked key pk retired) e = e

  lock-IsSynced :
      (d : Device) (s : IdentityState J C) → IsSynced J C d s → IsSynced J C d (lock J C s)
  unfolding lock
  lock-IsSynced d (unlocked key pk retired) h = tt
  lock-IsSynced d loading h = h
  lock-IsSynced d locked h = h
  lock-IsSynced d no_identity h = h

  migrate-unlock :
      (draw : ℕ) (d : Device) (key : C.Keypair) (pk : Text) (retired : List C.Keypair)
      → (o : Opens J C d key pk retired)
      → unlock J C (apply_all (migrate J C draw o.wrapped o.secret key (unlocked key pk retired)) d)
        ≡ some (unlocked key pk retired)
  unfolding migrate apply_all
  migrate-unlock draw d key pk retired o =
      let same = Opens-unlock J C d key pk retired o in
      let rewrapped =
        Opens-unlock J C
          (record d { wrapped_identity = some (C.wrap_private_key draw key o.secret) }) key pk
          retired
          (record {
            wrapped = C.wrap_private_key draw key o.secret;
            secret = o.secret;
            has_wrapped = refl;
            has_secret = o.has_secret;
            opens = C.unwrap-wrap draw key o.secret;
            is_public = o.is_public;
            has_retired = o.has_retired;
          }) in
      ground (arith, same, rewrapped)

  pub rotate_lem :
      (r : Rotation J C) (d : Device) (old : C.Keypair) (pk secret : Text) (prior : List C.Keypair)
      (plan : Plan J C)
      → d.device_secret ≡ some secret
      → rotate J C r d (unlocked old pk prior) ≡ some plan
      → rotate_plan J C r d secret old pk prior ≡ plan
  unfolding rotate
  rotate_lem r d old pk secret prior plan s e = cc (s, e)

  equal-IsSynced :
      (d : Device) (s : IdentityState J C) (key : C.Keypair) (pk : Text) (retired : List C.Keypair)
      → s ≡ unlocked key pk retired
      → unlock J C d ≡ some (unlocked key pk retired)
      → IsSynced J C d s
  equal-IsSynced d s key pk retired e h = rw e h

  -- The first write of a setup leaves the wrapped identity alone.
  partial_setup :
      (d : Device) (plan : Plan J C) (draw : ℕ) (secret : Text) (key : C.Keypair) (k : ℕ)
      → k ≤ 1
      → persist_and_unlock J C draw secret key ≡ plan
      → d.wrapped_identity ≡ none
      → (apply_all (take k plan.writes) d).wrapped_identity ≡ none
  unfolding apply_all
  partial_setup d plan draw secret key zero h e n = n
  partial_setup d plan draw secret key (suc zero) h e n = rw (← e) n
  partial_setup d plan draw secret key (suc (suc k)) h e n = absurd (omega (arith, h))

  IsSynced-NoneStored : (d : Device) (s : IdentityState J C) → IsSynced J C d s → NoneStored J C d s
  IsSynced-NoneStored d no_identity h = h
  IsSynced-NoneStored d loading h = tt
  IsSynced-NoneStored d locked h = tt
  IsSynced-NoneStored d (unlocked key pk retired) h = tt

  synced-IsSafe : (w : World J C) → IsSynced J C w.device w.memory → IsSafe J C w
  synced-IsSafe w h = ((λ u. h), IsSynced-NoneStored w.device w.memory h)

  unlocked-NoneStored :
      (d : Device) (s : IdentityState J C) (key : C.Keypair) (pk : Text) (retired : List C.Keypair)
      → s ≡ unlocked key pk retired
      → NoneStored J C d s
  unlocked-NoneStored d s key pk retired e = rw e tt

  migrate-NoneStored :
      (d : Device) (draw : ℕ) (wrapped secret : Text) (key : C.Keypair) (s : IdentityState J C)
      → NoneStored J C d s
      → NoneStored J C (apply_all (migrate J C draw wrapped secret key s) d) s
  unfolding migrate apply_all
  migrate-NoneStored d draw wrapped secret key no_identity h = h
  migrate-NoneStored d draw wrapped secret key loading h = tt
  migrate-NoneStored d draw wrapped secret key locked h = tt
  migrate-NoneStored d draw wrapped secret key (unlocked k pk rs) h = tt

  partial_wipe :
      (d : Device) (k : ℕ)
      → d.wrapped_identity ≡ none
      → (apply_all (take k (wipe J C).writes) d).wrapped_identity ≡ none
  unfolding apply_all wipe
  partial_wipe d zero h = h
  partial_wipe d (suc zero) h = refl
  partial_wipe d (suc (suc zero)) h = refl
  partial_wipe d (suc (suc (suc zero))) h = refl
  partial_wipe d (suc (suc (suc (suc zero)))) h = refl
  partial_wipe d (suc (suc (suc (suc (suc k))))) h = refl

  partial_wipe-NoneStored :
      (d : Device) (k : ℕ) (s : IdentityState J C)
      → NoneStored J C d s
      → NoneStored J C (apply_all (take k (wipe J C).writes) d) s
  partial_wipe-NoneStored d k no_identity h = partial_wipe d k h
  partial_wipe-NoneStored d k loading h = tt
  partial_wipe-NoneStored d k locked h = tt
  partial_wipe-NoneStored d k (unlocked key pk retired) h = tt

  lock-NoneStored :
      (d : Device) (s : IdentityState J C) → NoneStored J C d s → NoneStored J C d (lock J C s)
  unfolding lock
  lock-NoneStored d (unlocked key pk retired) h = tt
  lock-NoneStored d loading h = h
  lock-NoneStored d locked h = h
  lock-NoneStored d no_identity h = h

  Step-IsSafe : {w v : World J C} → Step J C w v → IsSafe J C w → IsSafe J C v
  unfolding apply_all init wipe
  Step-IsSafe (restarts w) h = ((λ u. tt), tt)
  Step-IsSafe (inits w) h = synced-IsSafe _ (init-IsSynced w.device)
  Step-IsSafe (sets_up w draw secret key plan e fresh) h =
      let (_, planned) = setup_new_lem draw secret key w.memory plan e in
      rw (← planned) (
        synced-IsSafe (settled J C (completed J C (persist_and_unlock J C draw secret key) w)) (
          Opens-unlock J C _ key (C.export_public_key key) []
            (setup_new-Opens draw secret key w.device fresh)))
  Step-IsSafe (fails_to_set_up w draw secret key plan k e few) h =
      let (empty, planned) = setup_new_lem draw secret key w.memory plan e in
      let none_stored =
        partial_setup w.device plan draw secret key k few planned (rw empty at h.1) in
      rw empty ((λ u. none_stored), none_stored)
  Step-IsSafe (unlocks w s e) h = synced-IsSafe _ (unlock-IsSynced w.device s e)
  Step-IsSafe (migrates w draw key pk retired e o) h = synced-IsSafe _ (
      equal-IsSynced _ w.memory key pk retired e
        (rw e (migrate-unlock draw w.device key pk retired o)))
  Step-IsSafe (migrates_late w draw wrapped secret key) h =
      ((λ u. absurd (cc u)), migrate-NoneStored w.device draw wrapped secret key w.memory h.1)
  Step-IsSafe (locks w) h =
      ((λ u. lock-IsSynced w.device w.memory (h.0 u)), lock-NoneStored w.device w.memory h.1)
  Step-IsSafe (wipes w) h = ((λ u. refl), refl)
  Step-IsSafe (fails_to_wipe w k) h =
      ((λ u. absurd (cc u)), partial_wipe-NoneStored w.device k w.memory h.1)
  Step-IsSafe (rotates w r old pk secret prior plan e s fresh p) h =
      let planned = rotate_lem r w.device old pk secret prior plan s p in
      let both : take 2 plan.writes ≡ plan.writes = rw (← planned) refl in
      (
        (λ u.
            let done =
              rotate-crash J C r w.device old pk prior secret plan 2 (rw e at (h.0 u)) s fresh p in
            unlock-IsSynced (apply_all plan.writes w.device) plan.next (rw both at done)),
        rw (← planned) tt,
      )
  Step-IsSafe (fails_to_rotate w r old pk secret prior plan k e s fresh p few) h = (
    (λ u.
        let kept =
          rotate-crash J C r w.device old pk prior secret plan k (rw e at (h.0 u)) s fresh p in
        let missing : leb 2 k ≡ false = ground arith in
        equal-IsSynced _ w.memory old pk prior e (rw missing at kept)),
    unlocked-NoneStored (after_writes J C k plan w).device w.memory old pk prior e,
  )

  -- In every state that the machine and its device reach by actions one after another, with rejected
  -- writes, restarts and migrations that come late: where the machine takes it that there is no
  -- identity, none is stored that a setup could overwrite; and unless a wipe rejected halfway or a
  -- migration came late since the last restart, init, unlock, setup or completed wipe, an unlocked state
  -- is exactly what the device unlocks to.
  pub Reachable-IsSafe : {w : World J C} → Reachable J C w → IsSafe J C w
  Reachable-IsSafe (at_start d) = ((λ u. tt), tt)
  Reachable-IsSafe (next r s) = Step-IsSafe s (Reachable-IsSafe r)
