-- ===== src/Mobile/Identity/Machine/Reachable.antt =====
-- The machine of apps/mobile/src/identity/identity-machine.ts with its device, under any actions. An
-- action that is cut off leaves the state in memory as it was, unless a restart drops it. Actions come
-- one after another, but the migration of unlock can come late: it writes the key that unlock captured,
-- whatever the device holds by then, if the machine is unlocked.
use aesmsg.Prelude.{Bool, true, false, ℕ, ◌≡◌, ◌≤◌, none, some, List, [], Text, take}
use aesmsg.Mobile.Identity.Bundle.{JsonRuntime, retired_excluding_active}
use aesmsg.Mobile.Identity.Machine.{
  IdentityCrypto, Device, apply_all, IdentityState, loading, no_identity, locked, unlocked, Plan,
  init, setup_new, unlock, unwrap_all, migrate, lock, wipe, Rotation, rotate,
}
use aesmsg.Mobile.Identity.Machine.Unlock.{entries_of, Opens}
use aesmsg.Mobile.Identity.Machine.Crash.{IsFresh}

module _ (J : JsonRuntime) (C : IdentityCrypto) where
  pub record World : Type 0 where
    pub device : Device
    pub memory : IdentityState J C
    -- No wipe that rejected halfway and no late migration since the last restart, init, unlock, setup
    -- or completed wipe.
    pub undisturbed : Bool

  abbrev pub after_writes : ℕ → Plan J C → World → World
  after_writes k plan w = record w { device = apply_all (take k plan.writes) w.device }

  abbrev pub completed : Plan J C → World → World
  completed plan w = record w { device = apply_all plan.writes w.device; memory = plan.next }

  abbrev pub settled : World → World
  settled w = record w { undisturbed = true }

  abbrev pub disturbed : World → World
  disturbed w = record w { undisturbed = false }

  pub data Step : World → World → Type 0 where
    restarts : (w : World) → Step w (record w { memory = loading; undisturbed = true })
    inits : (w : World) → Step w (settled (completed (init J C w.device) w))
    -- A new device secret opens no key that was wrapped before.
    sets_up :
        (w : World) (draw : ℕ) (secret : Text) (key : C.Keypair) (plan : Plan J C)
        → setup_new J C draw secret key w.memory ≡ some plan
        → unwrap_all J C secret
            (retired_excluding_active (entries_of J C w.device) (C.export_public_key key))
          ≡ []
        → Step w (settled (completed plan w))
    fails_to_set_up :
        (w : World) (draw : ℕ) (secret : Text) (key : C.Keypair) (plan : Plan J C) (k : ℕ)
        → setup_new J C draw secret key w.memory ≡ some plan
        → k ≤ 1
        → Step w (after_writes k plan w)
    unlocks :
        (w : World) (s : IdentityState J C)
        → unlock J C w.device ≡ some s
        → Step w (record w { memory = s; undisturbed = true })
    migrates :
        (w : World) (draw : ℕ) (key : C.Keypair) (pk : Text) (retired : List C.Keypair)
        → w.memory ≡ unlocked key pk retired
        → (o : Opens J C w.device key pk retired)
        → Step w (record w {
          device = apply_all (migrate J C draw o.wrapped o.secret key w.memory) w.device;
        })
    -- The arguments are those that an earlier unlock captured, or any others.
    migrates_late :
        (w : World) (draw : ℕ) (wrapped secret : Text) (key : C.Keypair)
        → Step w (
            disturbed (record w {
              device = apply_all (migrate J C draw wrapped secret key w.memory) w.device;
            }))
    locks : (w : World) → Step w (record w { memory = lock J C w.memory })
    wipes : (w : World) → Step w (settled (completed (wipe J C) w))
    fails_to_wipe : (w : World) (k : ℕ) → Step w (disturbed (after_writes k (wipe J C) w))
    rotates :
        (w : World) (r : Rotation J C) (old : C.Keypair) (pk secret : Text) (prior : List C.Keypair)
        (plan : Plan J C)
        → w.memory ≡ unlocked old pk prior
        → w.device.device_secret ≡ some secret
        → IsFresh J C r w.device secret old pk
        → rotate J C r w.device (unlocked old pk prior) ≡ some plan
        → Step w (completed plan w)
    fails_to_rotate :
        (w : World) (r : Rotation J C) (old : C.Keypair) (pk secret : Text) (prior : List C.Keypair)
        (plan : Plan J C) (k : ℕ)
        → w.memory ≡ unlocked old pk prior
        → w.device.device_secret ≡ some secret
        → IsFresh J C r w.device secret old pk
        → rotate J C r w.device (unlocked old pk prior) ≡ some plan
        → k ≤ 1
        → Step w (after_writes k plan w)

  pub data Reachable : World → Type 0 where
    at_start :
        (d : Device) → Reachable (record { device = d; memory = loading; undisturbed = true })
    next : {w v : World} → Reachable w → Step w v → Reachable v

  -- An unlocked state is what the device unlocks to, and `no_identity` means that none is stored.
  abbrev pub IsSynced : Device → IdentityState J C → Type 0
  IsSynced d loading = Unit {0}
  IsSynced d locked = Unit {0}
  IsSynced d no_identity = d.wrapped_identity ≡ none
  IsSynced d (unlocked key pk retired) = unlock J C d ≡ some (unlocked key pk retired)

  abbrev pub NoneStored : Device → IdentityState J C → Type 0
  NoneStored d no_identity = d.wrapped_identity ≡ none
  NoneStored d _ = Unit {0}

  -- Undisturbed, the state is the device's; and in any case `no_identity` means that none is stored.
  abbrev pub IsSafe : World → Type 0
  IsSafe w = (w.undisturbed ≡ true → IsSynced w.device w.memory) × NoneStored w.device w.memory
