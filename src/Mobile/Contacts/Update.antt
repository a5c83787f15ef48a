-- ===== src/Mobile/Contacts/Update.antt =====
-- What the operations of apps/mobile/src/contacts/contacts-store.ts do to the directory as a map from
-- identifiers to contacts.
use aesmsg.Prelude.{
  ℕ, suc, ◌≡◌, refl, sym, ◌∙◌, ◌⊎◌, inl, inr, Bool, true, false, Option, none, some, List, [], ◌∷◌,
  ◌++◌, Text, text_eq, text_eq_iff, arith, Bool-cases, Option-cases, if◌then◌else◌,
}
use aesmsg.Mobile.Contacts.{
  ContactsRuntime, ContactRecord, ContactsError, not_found, same_key, rotated_away,
  invalid_public_key, Result, ok, throws, Outcome, includes, find_index, contact_at, set_at,
  get_contact, KeyChangeDetection, same, rotated_back, changed, classify_key_change,
  detect_key_change, update_contact, change_key, update_contact_key,
}

-- The directory as a map: what one identifier finds.
abbrev pub changed_entry :
    (ContactRecord → Result ContactRecord) → Option ContactRecord → Result ContactRecord
changed_entry change none = throws not_found
changed_entry change (some c) = change c

abbrev pub entry_after : Result ContactRecord → Option ContactRecord → Option ContactRecord
entry_after (throws e) before = before
entry_after (ok updated) before = some updated

find_index-get :
    (id : Text) (all : List ContactRecord)
    → ((find_index id all ≡ none) × (get_contact id all ≡ none))
      ⊎ ((n : ℕ) × (c : ContactRecord) × (find_index id all ≡ some n)
          × (contact_at n all ≡ some c)
          × (get_contact id all ≡ some c)
          × (c.id ≡ id))
unfolding find_index get_contact contact_at
find_index-get id [] = inl (refl, refl)
find_index-get id (c ∷ cs) = elim (Bool-cases (text_eq c.id id)) [
  | inl e ↦ inr (0, c, rw e refl, refl, rw e refl, (text_eq_iff c.id id).0 e)
  | inr e ↦ elim (find_index-get id cs) [
    | inl h ↦ inl (rw (e, h.0) refl, rw (e, h.1) refl)
    | inr (n, d, f, a, g, i) ↦ inr (suc n, d, rw (e, f) refl, a, rw (e, g) refl, i)
  ]
]

-- Identifiers that differ are not found by the same one.
text_eq-differ : (a b c : Text) → text_eq a b ≡ false → text_eq a c ≡ true → text_eq b c ≡ false
text_eq-differ a b c h e = ground (arith, h, e, text_eq_iff a b, text_eq_iff b c, text_eq_iff a c)

-- Setting the entry that an identifier finds.
set_at-get :
    (id other : Text) (n : ℕ) (updated : ContactRecord) (all : List ContactRecord)
    → find_index id all ≡ some n
    → updated.id ≡ id
    → get_contact other (set_at n updated all)
      ≡ (if text_eq id other then some updated else get_contact other all)
unfolding find_index get_contact set_at
set_at-get id other n updated [] f i = absurd (cc f)
set_at-get id other n updated (c ∷ cs) f i = elim (Bool-cases (text_eq c.id id)) [
  | inl e ↦
      let first : n ≡ 0 = cc (rw e at f) in
      let own = (text_eq_iff c.id id).0 e in
      rw (first) (elim (Bool-cases (text_eq id other)) [
        | inl y ↦ rw (i, y) refl
        | inr y ↦ rw (i, own, y) refl
      ])
  | inr e ↦ elim (Option-cases (find_index id cs)) [
    | inl g ↦ absurd (cc (rw (e, g) at f))
    | inr (m, g) ↦
        let later : n ≡ suc m = cc (rw (e, g) at f) in
        let rest = set_at-get id other m updated cs g i in
        rw later (elim (Bool-cases (text_eq c.id other)) [
          | inl y ↦ rw (y, text_eq-differ c.id id other e y) refl
          | inr y ↦ rw (y, rest) refl
        ])
  ]
]

-- A change keeps the identifier of the contact.
abbrev pub KeepsId : (ContactRecord → Result ContactRecord) → Type 0
KeepsId change = (c d : ContactRecord) → change c ≡ ok d → d.id ≡ c.id

-- What a change of one contact gives, and what an identifier finds after it.
abbrev pub Updates :
    (ContactRecord → Result ContactRecord) → Text → List ContactRecord → Outcome → Text → Type 0
Updates change id all out other =
    (out.result ≡ changed_entry change (get_contact id all))
    × (get_contact other out.contacts ≡ (
        if text_eq id other
        then entry_after out.result (get_contact other all)
        else get_contact other all))

if_same {ℓ} : {A : Type ℓ} (b : Bool) (x : A) → x ≡ (if b then x else x)
if_same true x = refl
if_same false x = refl

pub Result-cases {ℓ} :
    {A : Type ℓ} (r : Result A) → ((e : ContactsError) × (r ≡ throws e)) ⊎ ((a : A) × (r ≡ ok a))
Result-cases (throws e) = inl (e, refl)
Result-cases (ok a) = inr (a, refl)

update_contact-get :
    (change : ContactRecord → Result ContactRecord) (id other : Text) (all : List ContactRecord)
    → KeepsId change
    → Updates change id all (update_contact change id all) other
unfolding update_contact
update_contact-get change id other all keeps = elim (find_index-get id all) [
  | inl h ↦ rw (h.0, h.1) (refl, if_same (text_eq id other) (get_contact other all))
  | inr (n, c, f, a, g, i) ↦ elim (Result-cases (change c)) [
    | inl (e, t) ↦ rw (f, a, g, t) (refl, if_same (text_eq id other) (get_contact other all))
    | inr (d, t) ↦ rw (f, a, g, t) (refl, set_at-get id other n d all f (keeps c d t ∙ i))
  ]
]

-- A change that throws leaves the directory as it is.
pub update_contact-throws :
    (change : ContactRecord → Result ContactRecord) (id : Text) (all : List ContactRecord)
    (e : ContactsError)
    → (update_contact change id all).result ≡ throws e
    → (update_contact change id all).contacts ≡ all
unfolding update_contact
update_contact-throws change id all e h = elim (find_index-get id all) [
  | inl g ↦ rw (g.0) refl
  | inr (n, c, f, a, g, i) ↦ elim (Result-cases (change c)) [
    | inl (x, t) ↦ rw (f, a, t) refl
    | inr (d, t) ↦ absurd (cc (rw (f, a, t) at h))
  ]
]

-- A change that succeeds replaces the contact at one place.
pub update_contact-ok :
    (change : ContactRecord → Result ContactRecord) (id : Text) (all : List ContactRecord)
    (d : ContactRecord)
    → (update_contact change id all).result ≡ ok d
    → (n : ℕ) × (c : ContactRecord) × (contact_at n all ≡ some c)
      × (change c ≡ ok d)
      × ((update_contact change id all).contacts ≡ set_at n d all)
unfolding update_contact
update_contact-ok change id all d h = elim (find_index-get id all) [
  | inl g ↦ absurd (cc (rw (g.0) at h))
  | inr (n, c, f, a, g, i) ↦ elim (Result-cases (change c)) [
    | inl (x, t) ↦ absurd (cc (rw (f, a, t) at h))
    | inr (u, t) ↦
        let same : u ≡ d = cc (rw (f, a, t) at h) in
        (n, c, a, rw (← same) t, rw (f, a, t, same) refl)
  ]
]

-- What updateContactKey gives for a contact whose key change is classified.
abbrev pub rotation_result :
    Text → Text → ContactRecord → Option KeyChangeDetection → Result ContactRecord
rotation_result now pk c none = throws invalid_public_key
rotation_result now pk c (some same) = throws same_key
rotation_result now pk c (some rotated_back) = throws rotated_away
rotation_result now pk c (some (changed before fp)) = ok (record c {
  public_key = pk;
  fingerprint = fp;
  verified = false;
  previous_fingerprints = c.previous_fingerprints ++ (before ∷ []);
  updated_at = now;
})

rotation_result-KeepsId :
    (now pk : Text) (c d : ContactRecord) (o : Option KeyChangeDetection)
    → rotation_result now pk c o ≡ ok d
    → d.id ≡ c.id
rotation_result-KeepsId now pk c d none h = absurd (cc h)
rotation_result-KeepsId now pk c d (some same) h = absurd (cc h)
rotation_result-KeepsId now pk c d (some rotated_back) h = absurd (cc h)
rotation_result-KeepsId now pk c d (some (changed before fp)) h =
    let e : (record c {
      public_key = pk;
      fingerprint = fp;
      verified = false;
      previous_fingerprints = c.previous_fingerprints ++ (before ∷ []);
      updated_at = now;
    })
        ≡ d =
      cc h in
    rw (← e) refl

changed_entry-ext :
    (f g : ContactRecord → Result ContactRecord)
    → ((c : ContactRecord) → f c ≡ g c)
    → (o : Option ContactRecord) → changed_entry f o ≡ changed_entry g o
changed_entry-ext f g h none = refl
changed_entry-ext f g h (some c) = h c

module _ (R : ContactsRuntime) where
  -- The store classifies a new key as detectKeyChange does.
  pub change_key-detect :
      (now pk : Text) (c : ContactRecord)
      → change_key R now pk c ≡ rotation_result now pk c (detect_key_change R c pk)
  unfolding change_key detect_key_change classify_key_change
  change_key-detect now pk c = elim (Option-cases (R.fingerprint pk)) [
    | inl e ↦ rw (detect_key_change, e) refl
    | inr (fp, e) ↦ elim (Bool-cases (text_eq fp c.fingerprint)) [
      | inl s ↦ rw (detect_key_change, e, classify_key_change, s) refl
      | inr s ↦ elim (Bool-cases (includes c.previous_fingerprints fp)) [
        | inl i ↦ rw (detect_key_change, e, classify_key_change, s, i) refl
        | inr i ↦ rw (detect_key_change, e, classify_key_change, s, i) refl
      ]
    ]
  ]

  change_key-KeepsId : (now pk : Text) → KeepsId (change_key R now pk)
  change_key-KeepsId now pk c d h =
      rotation_result-KeepsId now pk c d (detect_key_change R c pk)
        (sym (change_key-detect now pk c) ∙ h)

  -- updateContactKey as an update of the map: the result is what detectKeyChange announces for the
  -- contact of that identifier, and not_found where there is none; where it succeeds the identifier
  -- finds the result, and every other identifier finds what it found before.
  pub update_contact_key-get :
      (now id pk : Text) (all : List ContactRecord) (other : Text)
      → Updates
          (λ c. rotation_result now pk c (detect_key_change R c pk))
          id
          all
          (update_contact_key R now id pk all)
          other
  unfolding update_contact_key
  update_contact_key-get now id pk all other =
      let h = update_contact-get (change_key R now pk) id other all (change_key-KeepsId now pk) in
      (h.0 ∙ changed_entry-ext _ _ (change_key-detect now pk) (get_contact id all), h.1)
