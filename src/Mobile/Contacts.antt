-- ===== src/Mobile/Contacts.antt =====
-- apps/mobile/src/contacts/contacts-store.ts, with label.ts and key-change.ts: the directory of
-- contacts. The directory is the array in its encrypted blob, and an operation gives its result with
-- the array that the blob holds afterwards.
pub mod Update
pub mod Errors
pub mod Sound
pub mod Reachable
use aesmsg.Prelude.{
  ℕ, zero, suc, ◌≡◌, Bool, true, false, ◌&&◌, not, Option, none, some, List, [], ◌∷◌, ◌++◌, Text,
  text_eq, ltb, leb, ◌==◌, if◌then◌else◌, length, take,
}

-- What the store calls: `String.trim`, and `fingerprint` of `@aesmsg/crypto`, `none` where it throws.
pub record ContactsRuntime : Type 0 where
  pub trim : Text → Text
  pub fingerprint : Text → Option Text

pub record ContactRecord : Type 0 where
  pub id : Text
  pub label : Text
  pub public_key : Text
  pub fingerprint : Text
  pub verified : Bool
  pub previous_fingerprints : List Text
  pub created_at : Text
  pub updated_at : Text

pub data DuplicateReason : Type 0 where
  current previous : DuplicateReason

-- The errors; the last is that of `fingerprint`.
pub data ContactsError : Type 0 where
  invalid_label not_found same_key rotated_away : ContactsError
  duplicate_fingerprint : Text → Text → DuplicateReason → ContactsError
  invalid_public_key : ContactsError

pub data Result {ℓ} (A : Type ℓ) : Type ℓ where
  ok : A → Result A
  throws : ContactsError → Result A

-- How an operation ends where its write resolves, and the contacts that are stored then.
pub record Outcome : Type 0 where
  pub result : Result ContactRecord
  pub contacts : List ContactRecord

abbrev pub max_label_len : ℕ
max_label_len = 80

-- `previousFingerprints.includes(fp)`
unfoldable pub includes : List Text → Text → Bool
includes [] fp = false
includes (x ∷ xs) fp = if text_eq x fp then true else includes xs fp

unfoldable pub find_index : Text → List ContactRecord → Option ℕ
find_index id [] = none
find_index id (c ∷ cs) =
    let rest = find_index id cs in
    if text_eq c.id id then some 0 else elim rest [ none ↦ none | some n ↦ some (suc n) ]

-- `all[idx]`
unfoldable pub contact_at : ℕ → List ContactRecord → Option ContactRecord
contact_at n [] = none
contact_at zero (c ∷ cs) = some c
contact_at (suc n) (c ∷ cs) = contact_at n cs

-- `next[idx] = updated` on a copy of the array.
unfoldable pub set_at : ℕ → ContactRecord → List ContactRecord → List ContactRecord
set_at n updated [] = []
set_at zero updated (c ∷ cs) = updated ∷ cs
set_at (suc n) updated (c ∷ cs) = c ∷ set_at n updated cs

unfoldable pub get_contact : Text → List ContactRecord → Option ContactRecord
get_contact id [] = none
get_contact id (c ∷ cs) = if text_eq c.id id then some c else get_contact id cs

-- The loop of addContact: the first contact that has the fingerprint, or had it.
unfoldable pub duplicate : Text → List ContactRecord → Option ContactsError
unfolding includes
duplicate fp [] = none
duplicate fp (c ∷ cs) =
    if text_eq c.fingerprint fp
    then some (duplicate_fingerprint c.id c.label current)
    else (if includes c.previous_fingerprints fp
        then some (duplicate_fingerprint c.id c.label previous)
        else duplicate fp cs)

unfoldable pub without : Text → List ContactRecord → List ContactRecord
without id [] = []
without id (c ∷ cs) = let rest = without id cs in if text_eq c.id id then rest else c ∷ rest

unfoldable pub delete_contact : Text → List ContactRecord → List ContactRecord
unfolding without
delete_contact id all = let next = without id all in if length next == length all then all else next

-- `writeAll`: it resolves, or it rejects and leaves the blob with these contacts. It can reject before
-- or after the blob is replaced.
pub data WriteAll : Type 0 where
  resolves : WriteAll
  rejects : List ContactRecord → WriteAll

pub data Ended : Type 0 where
  returned : ContactRecord → Ended
  threw : ContactsError → Ended
  write_rejected : Ended

-- How a call ends, and the contacts that are stored then.
pub record Ending : Type 0 where
  pub ended : Ended
  pub contacts : List ContactRecord

abbrev written : ContactRecord → List ContactRecord → WriteAll → Ending
written c next resolves = record { ended = returned c; contacts = next }
written c next (rejects left) = record { ended = write_rejected; contacts = left }

-- A call from its outcome where the write resolves: what throws before has written nothing.
unfoldable pub commit : WriteAll → Outcome → Ending
commit write out = elim out.result [
  | throws e ↦ record { ended = threw e; contacts = out.contacts }
  | ok c ↦ written c out.contacts write
]

pub data KeyChangeDetection : Type 0 where
  same rotated_back : KeyChangeDetection
  changed : Text → Text → KeyChangeDetection

unfoldable pub classify_key_change : ContactRecord → Text → KeyChangeDetection
unfolding includes
classify_key_change existing candidate =
    if text_eq candidate existing.fingerprint
    then same
    else (if includes existing.previous_fingerprints candidate
        then rotated_back
        else changed existing.fingerprint candidate)

abbrev pub new_contact : Text → Text → Text → Text → Text → ContactRecord
new_contact uuid now label public_key fp = record {
  id = uuid;
  label = label;
  public_key = public_key;
  fingerprint = fp;
  verified = false;
  previous_fingerprints = [];
  created_at = now;
  updated_at = now;
}

abbrev pub add_unless : Option ContactsError → ContactRecord → List ContactRecord → Outcome
add_unless (some e) contact all = record { result = throws e; contacts = all }
add_unless none contact all = record { result = ok contact; contacts = all ++ (contact ∷ []) }

abbrev pub add_fingerprint : Text → Text → Text → Text → Option Text → List ContactRecord → Outcome
add_fingerprint uuid now label public_key none all = record {
  result = throws invalid_public_key;
  contacts = all;
}
add_fingerprint uuid now label public_key (some fp) all =
    add_unless (duplicate fp all) (new_contact uuid now label public_key fp) all

-- The contact at an index is replaced by what a change makes of it, unless the change throws.
abbrev pub store_at : ℕ → Option (Result ContactRecord) → List ContactRecord → Outcome
store_at n none all = record { result = throws not_found; contacts = all }
store_at n (some (throws e)) all = record { result = throws e; contacts = all }
store_at n (some (ok updated)) all = record { result = ok updated; contacts = set_at n updated all }

abbrev pub change_of :
    (ContactRecord → Result ContactRecord) → Option ContactRecord → Option (Result ContactRecord)
change_of change none = none
change_of change (some c) = some (change c)

abbrev pub update_at :
    (ContactRecord → Result ContactRecord) → Option ℕ → List ContactRecord → Outcome
update_at change none all = record { result = throws not_found; contacts = all }
update_at change (some n) all = store_at n (change_of change (contact_at n all)) all

-- The frame that updateContactKey, setContactVerified and renameContact share.
unfoldable pub update_contact :
    (ContactRecord → Result ContactRecord) → Text → List ContactRecord → Outcome
unfolding find_index contact_at set_at
update_contact change id all = update_at change (find_index id all) all

abbrev pub rotated : Text → Text → Text → ContactRecord → ContactRecord
rotated now public_key fp c = record c {
  public_key = public_key;
  fingerprint = fp;
  verified = false;
  previous_fingerprints = c.previous_fingerprints ++ (c.fingerprint ∷ []);
  updated_at = now;
}

abbrev pub change_fingerprint : Text → Text → Option Text → ContactRecord → Result ContactRecord
change_fingerprint now public_key none c = throws invalid_public_key
change_fingerprint now public_key (some fp) c =
    if text_eq fp c.fingerprint
    then throws same_key
    else (if includes c.previous_fingerprints fp
        then throws rotated_away
        else ok (rotated now public_key fp c))

abbrev pub change_verified : Text → Bool → ContactRecord → Result ContactRecord
change_verified now verified c = ok (record c { verified = verified; updated_at = now })

abbrev pub change_label : Text → Text → ContactRecord → Result ContactRecord
change_label now label c = ok (record c { label = label; updated_at = now })

unfoldable pub set_contact_verified : Text → Text → Bool → List ContactRecord → Outcome
unfolding update_contact
set_contact_verified now id verified all = update_contact (change_verified now verified) id all

abbrev pub rename_to : Text → Text → Result Text → List ContactRecord → Outcome
rename_to now id (throws e) all = record { result = throws e; contacts = all }
rename_to now id (ok label) all = update_contact (change_label now label) id all

module _ (R : ContactsRuntime) where
  unfoldable pub is_valid_label : Text → Bool
  is_valid_label raw =
      let trimmed = R.trim raw in leb 1 (length trimmed) && leb (length trimmed) max_label_len

  unfoldable pub normalize_label : Text → Text
  normalize_label raw = take max_label_len (R.trim raw)

  unfoldable pub validate_label : Text → Result Text
  validate_label raw =
      let trimmed = R.trim raw in
      if length trimmed == 0
      then throws invalid_label
      else (if ltb max_label_len (length trimmed) then throws invalid_label else ok trimmed)

  unfoldable pub detect_key_change : ContactRecord → Text → Option KeyChangeDetection
  unfolding classify_key_change
  detect_key_change existing candidate = elim (R.fingerprint candidate) [
    | none ↦ none
    | some fp ↦ some (classify_key_change existing fp)
  ]

  abbrev pub add_label : Text → Text → Result Text → Text → List ContactRecord → Outcome
  add_label uuid now (throws e) public_key all = record { result = throws e; contacts = all }
  add_label uuid now (ok label) public_key all =
      add_fingerprint uuid now label public_key (R.fingerprint public_key) all

  -- `uuid` is the identifier that is drawn, `now` the time.
  unfoldable pub add_contact : Text → Text → Text → Text → List ContactRecord → Outcome
  unfolding validate_label duplicate
  add_contact uuid now label public_key all =
      add_label uuid now (validate_label label) public_key all

  unfoldable pub change_key : Text → Text → ContactRecord → Result ContactRecord
  unfolding includes
  change_key now public_key c = change_fingerprint now public_key (R.fingerprint public_key) c

  unfoldable pub update_contact_key : Text → Text → Text → List ContactRecord → Outcome
  unfolding change_key update_contact
  update_contact_key now id public_key all = update_contact (change_key now public_key) id all

  unfoldable pub rename_contact : Text → Text → Text → List ContactRecord → Outcome
  unfolding validate_label update_contact
  rename_contact now id label all = rename_to now id (validate_label label) all
