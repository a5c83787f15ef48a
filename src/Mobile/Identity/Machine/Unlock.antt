-- ===== src/Mobile/Identity/Machine/Unlock.antt =====
-- unlock of apps/mobile/src/identity/identity-machine.ts, read backwards and forwards.
use aesmsg.Prelude.{◌≡◌, refl, sym, ap, ◌∙◌, some, List, Text, Option-cases, inl, inr}
use aesmsg.Mobile.Identity.Bundle.{
  JsonRuntime, RetiredKeyEntry, parse_retired_keys, retired_excluding_active,
}
use aesmsg.Mobile.Identity.Machine.{IdentityCrypto, Device, unlocked, unwrap_all, unlock}

module _ (J : JsonRuntime) (C : IdentityCrypto) where
  abbrev pub entries_of : Device → List RetiredKeyEntry
  entries_of d = parse_retired_keys J d.retired_identities

  -- What a device holds that unlocks to a key, its public key and the retired keys.
  pub record Opens (d : Device) (key : C.Keypair) (pk : Text) (retired : List C.Keypair)
      : Type 0 where
    pub wrapped : Text
    pub secret : Text
    pub has_wrapped : d.wrapped_identity ≡ some wrapped
    pub has_secret : d.device_secret ≡ some secret
    pub opens : C.unwrap_private_key wrapped secret ≡ some key
    pub is_public : C.export_public_key key ≡ pk
    pub has_retired : unwrap_all J C secret (retired_excluding_active (entries_of d) pk) ≡ retired

  pub unlock-Opens :
      (d : Device) (key : C.Keypair) (pk : Text) (retired : List C.Keypair)
      → unlock J C d ≡ some (unlocked key pk retired)
      → Opens d key pk retired
  unfolding unlock
  unlock-Opens d key pk retired e = elim (Option-cases d.wrapped_identity) [
    | inl w ↦ absurd (cc (w, e))
    | inr (wrapped, w) ↦ elim (Option-cases d.device_secret) [
      | inl s ↦ absurd (cc (w, s, e))
      | inr (secret, s) ↦ elim (Option-cases (C.unwrap_private_key wrapped secret)) [
        | inl u ↦ absurd (cc (w, s, u, e))
        | inr (k, u) ↦
            let same_key : k ≡ key = cc (w, s, u, e) in
            let same_pk : C.export_public_key k ≡ pk = cc (w, s, u, e) in
            let same : unwrap_all J C secret
                  (retired_excluding_active (entries_of d) (C.export_public_key k))
                ≡ retired =
              cc (w, s, u, e) in
            record {
              wrapped = wrapped;
              secret = secret;
              has_wrapped = w;
              has_secret = s;
              opens = u ∙ ap some same_key;
              is_public = ap C.export_public_key (sym same_key) ∙ same_pk;
              has_retired = rw same_pk at same;
            }
      ]
    ]
  ]

  pub Opens-unlock :
      (d : Device) (key : C.Keypair) (pk : Text) (retired : List C.Keypair)
      → Opens d key pk retired
      → unlock J C d ≡ some (unlocked key pk retired)
  unfolding unlock
  Opens-unlock d key pk retired o =
      rw (o.has_wrapped, unlock, o.has_secret, o.opens, o.is_public, o.has_retired) refl
