-- ===== src/Mobile/Contacts/Errors.antt =====
-- When the operations of apps/mobile/src/contacts/contacts-store.ts throw, and what they leave then.
use aesmsg.Prelude.{
  ◌≤◌, length, ◌++◌, ◌≡◌, ◌≢◌, refl, ◌↔◌, ◌⊎◌, inl, inr, Bool, true, false, none, some, List, [],
  ◌∷◌, Text, text_eq_iff, All, arith, Option-cases,
}
use aesmsg.Mobile.Contacts.{
  ContactsRuntime, ContactRecord, ContactsError, invalid_label, ok, throws, Outcome, includes,
  duplicate, is_valid_label, add_contact, validate_label, update_contact_key, set_contact_verified,
  rename_contact, WriteAll, resolves, rejects, returned, commit,
}
use aesmsg.Mobile.Contacts.Update.{update_contact-throws}

module _ (R : ContactsRuntime) where
  -- A contact has not a fingerprint, and never had it.
  abbrev pub IsUnused : Text → ContactRecord → Type 0
  IsUnused fp c = (c.fingerprint ≢ fp) × All (λ x. x ≢ fp) c.previous_fingerprints

  includes_iff : (xs : List Text) (fp : Text) → (includes xs fp ≡ false) ↔ All (λ x. x ≢ fp) xs
  unfolding includes
  includes_iff [] fp = ground arith
  includes_iff (x ∷ xs) fp = ground (arith, includes_iff xs fp, text_eq_iff x fp)

  pub duplicate_iff :
      (fp : Text) (all : List ContactRecord) → (duplicate fp all ≡ none) ↔ All (IsUnused fp) all
  unfolding duplicate
  duplicate_iff fp [] = ground arith
  duplicate_iff fp (c ∷ cs) = ground (
    arith,
    duplicate_iff fp cs,
    text_eq_iff c.fingerprint fp,
    includes_iff c.previous_fingerprints fp,
  )

  pub validate_label_iff :
      (raw : Text) → (is_valid_label R raw ≡ true) ↔ (validate_label R raw ≡ ok (R.trim raw))
  unfolding is_valid_label validate_label
  validate_label_iff raw = ground arith

  label_cases :
      (raw : Text)
      → (validate_label R raw ≡ throws invalid_label) ⊎ (validate_label R raw ≡ ok (R.trim raw))
  unfolding validate_label
  label_cases raw = ground arith

  add_contact-throws :
      (id now label pk : Text) (all : List ContactRecord) (e : ContactsError)
      → (add_contact R id now label pk all).result ≡ throws e
      → (add_contact R id now label pk all).contacts ≡ all
  unfolding add_contact
  add_contact-throws id now label pk all e t = elim (label_cases label) [
    | inl v ↦ rw v refl
    | inr v ↦ elim (Option-cases (R.fingerprint pk)) [
      | inl f ↦ rw (v, f) refl
      | inr (fp, f) ↦ elim (Option-cases (duplicate fp all)) [
        | inl d ↦ absurd (cc (rw (v, f, d) at t))
        | inr (x, d) ↦ rw (v, f, d) refl
      ]
    ]
  ]

  rename_contact-throws :
      (id now label : Text) (all : List ContactRecord) (e : ContactsError)
      → (rename_contact R now id label all).result ≡ throws e
      → (rename_contact R now id label all).contacts ≡ all
  unfolding rename_contact
  rename_contact-throws id now label all e t = elim (label_cases label) [
    | inl v ↦ rw v refl
    | inr v ↦ rw v (update_contact-throws _ id all e (rw v at t))
  ]

  label_bounds_iff :
      (raw : Text)
      → (validate_label R raw ≡ ok (R.trim raw))
        ↔ ((1 ≤ length (R.trim raw)) × (length (R.trim raw) ≤ 80))
  unfolding validate_label
  label_bounds_iff raw = ground arith

  -- The contact that addContact makes.
  abbrev pub added : Text → Text → Text → Text → Text → ContactRecord
  added id now label pk fp = record {
    id = id;
    label = R.trim label;
    public_key = pk;
    fingerprint = fp;
    verified = false;
    previous_fingerprints = [];
    created_at = now;
    updated_at = now;
  }

  commit_iff :
      (write : WriteAll) (c d : ContactRecord) (next : List ContactRecord)
      → ((commit write (record { result = ok c; contacts = next })).ended ≡ returned d)
        ↔ ((write ≡ resolves) × (c ≡ d))
  unfolding commit
  commit_iff resolves c d next = ((λ h. (refl, cc h)), λ h. cc (h.1))
  commit_iff (rejects left) c d next = ((λ h. absurd (cc h)), λ h. absurd (cc (h.0)))

  -- For a key that has a fingerprint, addContact returns a contact exactly where the trimmed label has 1
  -- to 80 code units, no contact has the fingerprint or had it, and the write resolves; the contact then
  -- carries the trimmed label and the key, and is not verified.
  pub add_contact_iff :
      (write : WriteAll) (id now label pk fp : Text) (all : List ContactRecord) (c : ContactRecord)
      → R.fingerprint pk ≡ some fp
      → ((commit write (add_contact R id now label pk all)).ended ≡ returned c) ↔ (
          (1 ≤ length (R.trim label))
          × (length (R.trim label) ≤ 80)
          × All (IsUnused fp) all
          × (write ≡ resolves)
          × (added id now label pk fp ≡ c))
  unfolding add_contact commit
  add_contact_iff write id now label pk fp all c f = elim (label_cases label) [
    | inl v ↦ (
      (λ h. absurd (cc (rw v at h))),
      λ h. absurd (cc (v, (label_bounds_iff label).1 (h.0, h.1))),
    )
    | inr v ↦ elim (Option-cases (duplicate fp all)) [
      | inl d ↦
          let bounds = (label_bounds_iff label).0 v in
          let unused = (duplicate_iff fp all).0 d in
          let new = added id now label pk fp in
          let made = commit_iff write new c (all ++ (new ∷ [])) in
          (
            (λ h.
                let (w, same) = made.0 (rw (v, f, d) at h) in
                (bounds.0, bounds.1, unused, w, same)),
            λ h. rw (v, f, d) (made.1 (h.3, h.4)),
          )
      | inr (x, d) ↦ (
        (λ h. absurd (cc (rw (v, f, d) at h))),
        λ h. absurd (cc (d, (duplicate_iff fp all).1 h.2)),
      )
    ]
  ]

  -- A call of the store that throws leaves the directory as it is: addContact, updateContactKey,
  -- setContactVerified and renameContact.
  pub store-throws :
      (id now label pk : Text) (verified : Bool) (all : List ContactRecord) (out : Outcome)
      (e : ContactsError)
      → (out ≡ add_contact R id now label pk all)
        ⊎ (out ≡ update_contact_key R now id pk all)
        ⊎ (out ≡ set_contact_verified now id verified all)
        ⊎ (out ≡ rename_contact R now id label all)
      → out.result ≡ throws e
      → out.contacts ≡ all
  unfolding add_contact update_contact_key set_contact_verified rename_contact
  store-throws id now label pk verified all out e (inl h) t =
      rw h (add_contact-throws id now label pk all e (rw h at t))
  store-throws id now label pk verified all out e (inr (inl h)) t =
      rw h (update_contact-throws _ id all e (rw h at t))
  store-throws id now label pk verified all out e (inr (inr (inl h))) t =
      rw h (update_contact-throws _ id all e (rw h at t))
  store-throws id now label pk verified all out e (inr (inr (inr h))) t =
      rw h (rename_contact-throws id now label all e (rw h at t))
