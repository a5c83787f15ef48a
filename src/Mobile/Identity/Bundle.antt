-- ===== src/Mobile/Identity/Bundle.antt =====
-- apps/mobile/src/identity/identity-bundle.ts: the list of retired keys and its blob.
pub mod Unique
use aesmsg.Prelude.{
  ℕ, ◌≡◌, Bool, true, false, ◌&&◌, not, Option, none, some, List, [], ◌∷◌, Text, codes, text_eq,
  ◌==◌, if◌then◌else◌,
}
pub use aesmsg.Api.{JsonRuntime}
use aesmsg.Link.{pos}
use aesmsg.Api.{
  Json, JsonNumber, integer, fractional, null, bool, num, str, arr, obj, Items, nil, cons, Fields,
  field, end, field_at,
}

pub record RetiredKeyEntry : Type 0 where
  pub wrapped : Text
  pub public_key_string : Text
  pub fingerprint : Text
  pub retired_at_ms : JsonNumber

abbrev pub retired_blob_version : ℕ
retired_blob_version = 1

-- `seen.has(publicKeyString)`
unfoldable pub has_key : Text → List Text → Bool
has_key pk [] = false
has_key pk (x ∷ xs) = if text_eq x pk then true else has_key pk xs

-- The loop of `dedupeRetired`, with the set of the keys seen.
unfoldable pub dedupe_from : List Text → List RetiredKeyEntry → List RetiredKeyEntry
unfolding has_key
dedupe_from seen [] = []
dedupe_from seen (e ∷ es) =
    if has_key e.public_key_string seen
    then dedupe_from seen es
    else e ∷ dedupe_from (e.public_key_string ∷ seen) es

unfoldable pub dedupe_retired : List RetiredKeyEntry → List RetiredKeyEntry
unfolding dedupe_from
dedupe_retired entries = dedupe_from [] entries

unfoldable pub prepend_retired : List RetiredKeyEntry → RetiredKeyEntry → List RetiredKeyEntry
unfolding dedupe_retired
prepend_retired existing entry = dedupe_retired (entry ∷ existing)

unfoldable pub retired_excluding_active : List RetiredKeyEntry → Text → List RetiredKeyEntry
retired_excluding_active [] active = []
retired_excluding_active (e ∷ es) active =
    let rest = retired_excluding_active es active in
    if text_eq e.public_key_string active then rest else e ∷ rest

abbrev pub entry_json : RetiredKeyEntry → Json
entry_json e = obj (
    field (codes "wrapped") (str e.wrapped) (
      field (codes "publicKeyString") (str e.public_key_string) (
        field (codes "fingerprint") (str e.fingerprint)
          (field (codes "retiredAtMs") (num e.retired_at_ms) end))))

unfoldable pub entries_json : List RetiredKeyEntry → Items
entries_json [] = nil
entries_json (e ∷ es) = cons (entry_json e) (entries_json es)

abbrev pub blob_json : List RetiredKeyEntry → Json
blob_json entries = obj (
    field (codes "v") (num (integer (pos retired_blob_version)))
      (field (codes "keys") (arr (entries_json entries)) end))

module _ (J : JsonRuntime) where
  unfoldable pub serialize_retired_keys : List RetiredKeyEntry → Text
  unfolding entries_json
  serialize_retired_keys entries = J.stringify (blob_json entries)

  abbrev entry_of : Option Json → Option Json → Option Json → Option Json → Option RetiredKeyEntry
  entry_of (some (str w)) (some (str pk)) (some (str fp)) (some (num at)) =
      if J.is_finite at
      then some
          (record { wrapped = w; public_key_string = pk; fingerprint = fp; retired_at_ms = at })
      else none
  entry_of _ _ _ _ = none

  -- `isRetiredKeyEntry`, with the entry.
  unfoldable pub retired_key_entry : Json → Option RetiredKeyEntry
  retired_key_entry (obj fields) =
      entry_of (field_at (codes "wrapped") fields) (field_at (codes "publicKeyString") fields)
        (field_at (codes "fingerprint") fields) (field_at (codes "retiredAtMs") fields)
  retired_key_entry _ = none

  abbrev cons_entry : Option RetiredKeyEntry → List RetiredKeyEntry → List RetiredKeyEntry
  cons_entry none es = es
  cons_entry (some e) es = e ∷ es

  -- `blob.keys.filter(isRetiredKeyEntry)`
  unfoldable pub valid_entries : Items → List RetiredKeyEntry
  unfolding retired_key_entry
  valid_entries nil = []
  valid_entries (cons j rest) = cons_entry (retired_key_entry j) (valid_entries rest)

  abbrev is_version : Option Json → Bool
  is_version (some (num (integer (pos n)))) = n == retired_blob_version
  is_version _ = false

  abbrev pub keys_of : Option Json → List RetiredKeyEntry
  keys_of (some (arr items)) = dedupe_retired (valid_entries items)
  keys_of _ = []

  abbrev pub keys_of_blob : Option Json → List RetiredKeyEntry
  keys_of_blob (some (obj fields)) =
      if is_version (field_at (codes "v") fields)
      then keys_of (field_at (codes "keys") fields)
      else []
  keys_of_blob _ = []

  unfoldable pub parse_retired_keys : Option Text → List RetiredKeyEntry
  unfolding valid_entries dedupe_retired
  parse_retired_keys none = []
  parse_retired_keys (some []) = []
  parse_retired_keys (some (c ∷ raw)) = keys_of_blob (J.parse (c ∷ raw))
