-- ===== src/Mobile/Contacts/Sound.antt =====
-- Which contacts of apps/mobile/src/contacts/contacts-store.ts are sound, and that the operations keep
-- them so.
use aesmsg.Prelude.{
  ℕ, zero, suc, ◌≤◌, ◌≡◌, refl, ◌⊎◌, inl, inr, Bool, true, false, some, List, [], ◌∷◌, ◌++◌, Text,
  text_eq, text_eq_sym, All, arith, Bool-cases, Option-cases, length, ◌==◌, ltb,
}
use aesmsg.Mobile.Contacts.{
  ContactsRuntime, ContactRecord, Result, ok, throws, includes, contact_at, set_at, add_contact,
  validate_label, update_contact, max_label_len, without, delete_contact, change_key,
  change_verified, change_label, update_contact_key, rotated, duplicate, set_contact_verified,
  rename_contact,
}
use aesmsg.Mobile.Contacts.Update.{Result-cases, update_contact-ok, update_contact-throws}

-- The pairs of an identifier and a fingerprint that the user confirmed as verified.
abbrev pub Confirmed : Type 0
Confirmed = List (Text × Text)

abbrev pub IsConfirmed : Text → Text → Confirmed → Type 0
IsConfirmed id fp [] = ⊥
IsConfirmed id fp (p ∷ ps) = ((p.0 ≡ id) × (p.1 ≡ fp)) ⊎ IsConfirmed id fp ps

-- A contact of a sound directory: a label of 1 to 80 code units, the fingerprint of its key, which it
-- never had before, and `verified` only where the user confirmed that identifier with that very
-- fingerprint.
pub record IsSound (R : ContactsRuntime) (confirmed : Confirmed) (c : ContactRecord) : Type 0 where
  pub label : (1 ≤ length c.label) × (length c.label ≤ max_label_len)
  pub fingerprint : R.fingerprint c.public_key ≡ some c.fingerprint
  pub current : includes c.previous_fingerprints c.fingerprint ≡ false
  pub verified : (c.verified ≡ false) ⊎ IsConfirmed c.id c.fingerprint confirmed

-- What setContactVerified confirms when it succeeds.
abbrev pub confirm : Bool → Result ContactRecord → Confirmed → Confirmed
confirm true (ok c) ps = (c.id, c.fingerprint) ∷ ps
confirm _ _ ps = ps

module _ {ℓ} (P : ContactRecord → Type ℓ) where
  contact_at-All :
      (n : ℕ) (all : List ContactRecord) (c : ContactRecord)
      → All P all
      → contact_at n all ≡ some c
      → P c
  unfolding contact_at
  contact_at-All n [] c h e = absurd (cc e)
  contact_at-All zero (d ∷ ds) c h e = let same : d ≡ c = cc e in rw (← same) (h.0)
  contact_at-All (suc n) (d ∷ ds) c h e = contact_at-All n ds c h.1 e

  set_at-All :
      (n : ℕ) (all : List ContactRecord) (u : ContactRecord)
      → All P all
      → P u
      → All P (set_at n u all)
  unfolding set_at
  set_at-All n [] u h p = h
  set_at-All zero (d ∷ ds) u h p = (p, h.1)
  set_at-All (suc n) (d ∷ ds) u h p = (h.0, set_at-All n ds u h.1 p)

  -- A change that keeps a property of a contact keeps it of all of them.
  update_contact-All :
      (change : ContactRecord → Result ContactRecord) (id : Text) (all : List ContactRecord)
      → ((c d : ContactRecord) → P c → change c ≡ ok d → P d)
      → All P all
      → All P (update_contact change id all).contacts
  update_contact-All change id all keeps h =
      elim (Result-cases (update_contact change id all).result) [
        | inl (e, t) ↦ rw (update_contact-throws change id all e t) h
        | inr (d, t) ↦
            let (n, c, a, made, eq) = update_contact-ok change id all d t in
            rw eq (set_at-All n all d h (keeps c d (contact_at-All n all c h a) made))
      ]

  without-All : (id : Text) (all : List ContactRecord) → All P all → All P (without id all)
  unfolding without
  without-All id [] h = h
  without-All id (c ∷ cs) h = elim (Bool-cases (text_eq c.id id)) [
    | inl e ↦ rw e (without-All id cs h.1)
    | inr e ↦ rw e (h.0, without-All id cs h.1)
  ]

  append-All : (xs ys : List ContactRecord) → All P xs → All P ys → All P (xs ++ ys)
  append-All [] ys h k = k
  append-All (x ∷ xs) ys h k = (h.0, append-All xs ys h.1 k)

includes-snoc :
    (xs : List Text) (x fp : Text)
    → includes xs fp ≡ false
    → text_eq fp x ≡ false
    → includes (xs ++ (x ∷ [])) fp ≡ false
unfolding includes
includes-snoc [] x fp h e = rw (text_eq_sym x fp, e) refl
includes-snoc (y ∷ ys) x fp h e = elim (Bool-cases (text_eq y fp)) [
  | inl t ↦ absurd (cc (rw t at h))
  | inr t ↦ rw t (includes-snoc ys x fp (rw t at h) e)
]

module _ (R : ContactsRuntime) where
  -- Confirming more keeps a contact sound.
  confirm-IsSound :
      (id fp : Text) (ps : Confirmed) (c : ContactRecord)
      → IsSound R ps c
      → IsSound R ((id, fp) ∷ ps) c
  confirm-IsSound id fp ps c h = record {
    label = h.label;
    fingerprint = h.fingerprint;
    current = h.current;
    verified = elim h.verified [ inl e ↦ inl e | inr e ↦ inr (inr e) ];
  }

  change_key-IsSound :
      (now pk : Text) (ps : Confirmed) (c d : ContactRecord)
      → IsSound R ps c
      → change_key R now pk c ≡ ok d
      → IsSound R ps d
  unfolding change_key
  change_key-IsSound now pk ps c d h e = elim (Option-cases (R.fingerprint pk)) [
    | inl f ↦ absurd (cc (rw f at e))
    | inr (fp, f) ↦ elim (Bool-cases (text_eq fp c.fingerprint)) [
      | inl t ↦ absurd (cc (rw (f, t) at e))
      | inr t ↦ elim (Bool-cases (includes c.previous_fingerprints fp)) [
        | inl i ↦ absurd (cc (rw (f, t, i) at e))
        | inr i ↦
            let made : rotated now pk fp c ≡ d = cc (rw (f, t, i) at e) in
            rw (← made) (record {
              label = h.label;
              fingerprint = f;
              current = includes-snoc c.previous_fingerprints c.fingerprint fp i t;
              verified = inl refl;
            })
      ]
    ]
  ]

  change_label-IsSound :
      (now label : Text) (ps : Confirmed) (c d : ContactRecord)
      → (1 ≤ length label) × (length label ≤ max_label_len)
      → IsSound R ps c
      → change_label now label c ≡ ok d
      → IsSound R ps d
  change_label-IsSound now label ps c d bound h e =
      let made : (record c { label = label; updated_at = now }) ≡ d = cc e in
      rw (← made) (record {
        label = bound;
        fingerprint = h.fingerprint;
        current = h.current;
        verified = h.verified;
      })

  change_verified-IsSound :
      (now : Text) (verified : Bool) (ps : Confirmed) (c d : ContactRecord)
      → IsSound R ps c
      → change_verified now verified c ≡ ok d
      → IsSound R (confirm verified (ok d) ps) d
  change_verified-IsSound now true ps c d h e =
      let made : (record c { verified = true; updated_at = now }) ≡ d = cc e in
      rw (← made) (record {
        label = h.label;
        fingerprint = h.fingerprint;
        current = h.current;
        verified = inr (inl (refl, refl));
      })
  change_verified-IsSound now false ps c d h e =
      let made : (record c { verified = false; updated_at = now }) ≡ d = cc e in
      rw (← made) (record {
        label = h.label;
        fingerprint = h.fingerprint;
        current = h.current;
        verified = inl refl;
      })

  -- Confirming what a call confirms keeps the contacts sound.
  confirm-All :
      (verified : Bool) (r : Result ContactRecord) (ps : Confirmed) (all : List ContactRecord)
      → All (IsSound R ps) all
      → All (IsSound R (confirm verified r ps)) all
  confirm-All true (ok d) ps [] h = h
  confirm-All true (ok d) ps (c ∷ cs) h =
      (confirm-IsSound d.id d.fingerprint ps c h.0, confirm-All true (ok d) ps cs h.1)
  confirm-All true (throws e) ps all h = h
  confirm-All false r ps all h = h

  pub set_contact_verified-All :
      (now id : Text) (verified : Bool) (ps : Confirmed) (all : List ContactRecord)
      → All (IsSound R ps) all
      → All
          (IsSound R (confirm verified (set_contact_verified now id verified all).result ps))
          (set_contact_verified now id verified all).contacts
  unfolding set_contact_verified
  set_contact_verified-All now id verified ps all h =
      let change = change_verified now verified in
      elim (Result-cases (update_contact change id all).result) [
        | inl (e, t) ↦
            rw (t, update_contact-throws change id all e t)
              (confirm-All verified (throws e) ps all h)
        | inr (d, t) ↦
            let (n, c, a, made, eq) = update_contact-ok change id all d t in
            let sound = contact_at-All (IsSound R ps) n all c h a in
            rw (t, eq)
              (set_at-All (IsSound R (confirm verified (ok d) ps)) n all d
                (confirm-All verified (ok d) ps all h)
                (change_verified-IsSound now verified ps c d sound made))
      ]

  -- A label that passes the check is between the bounds when it is trimmed.
  label-bounds :
      (raw label : Text)
      → validate_label R raw ≡ ok label
      → (1 ≤ length label) × (length label ≤ max_label_len)
  unfolding validate_label
  label-bounds raw label h = elim (Bool-cases (length (R.trim raw) == 0)) [
    | inl e ↦ absurd (cc (rw e at h))
    | inr e ↦ elim (Bool-cases (ltb max_label_len (length (R.trim raw)))) [
      | inl g ↦ absurd (cc (rw (e, g) at h))
      | inr g ↦
          let same : R.trim raw ≡ label = cc (rw (e, g) at h) in rw (← same) (ground (arith, e, g))
    ]
  ]

  pub rename_contact-All :
      (now id label : Text) (ps : Confirmed) (all : List ContactRecord)
      → All (IsSound R ps) all
      → All (IsSound R ps) (rename_contact R now id label all).contacts
  unfolding rename_contact
  rename_contact-All now id label ps all h = elim (Result-cases (validate_label R label)) [
    | inl (e, v) ↦ rw v h
    | inr (trimmed, v) ↦ rw v (
        update_contact-All (IsSound R ps) (change_label now trimmed) id all
          (λ c d. change_label-IsSound now trimmed ps c d (label-bounds label trimmed v)) h)
  ]

  pub add_contact-All :
      (id now label pk : Text) (ps : Confirmed) (all : List ContactRecord)
      → All (IsSound R ps) all
      → All (IsSound R ps) (add_contact R id now label pk all).contacts
  unfolding add_contact
  add_contact-All id now label pk ps all h = elim (Result-cases (validate_label R label)) [
    | inl (e, v) ↦ rw v h
    | inr (trimmed, v) ↦ elim (Option-cases (R.fingerprint pk)) [
      | inl f ↦ rw (v, f) h
      | inr (fp, f) ↦ elim (Option-cases (duplicate fp all)) [
        | inl d ↦
            rw (v, f, d)
              (append-All (IsSound R ps) all _ h (
                record {
                  label = label-bounds label trimmed v;
                  fingerprint = f;
                  current = refl;
                  verified = inl refl;
                },
                tt,
              ))
        | inr (x, d) ↦ rw (v, f, d) h
      ]
    ]
  ]

  pub delete_contact-All :
      (id : Text) (ps : Confirmed) (all : List ContactRecord)
      → All (IsSound R ps) all
      → All (IsSound R ps) (delete_contact id all)
  unfolding delete_contact
  delete_contact-All id ps all h = elim (Bool-cases (length (without id all) == length all)) [
    | inl e ↦ rw e h
    | inr e ↦ rw e (without-All (IsSound R ps) id all h)
  ]

  pub update_contact_key-All :
      (now id pk : Text) (ps : Confirmed) (all : List ContactRecord)
      → All (IsSound R ps) all
      → All (IsSound R ps) (update_contact_key R now id pk all).contacts
  unfolding update_contact_key
  update_contact_key-All now id pk ps all h =
      update_contact-All (IsSound R ps) (change_key R now pk) id all (change_key-IsSound now pk ps)
        h
