-- ===== src/Mobile/Identity/Bundle/Unique.antt =====
-- The lists of retired keys of apps/mobile/src/identity/identity-bundle.ts under deduplication and
-- exclusion.
use aesmsg.Prelude.{
  ◌≡◌, refl, sym, ap, ◌∙◌, true, false, Option, none, some, List, [], ◌∷◌, Text, arith, codes,
  text_eq, text_eq_iff, text_eq_refl, if◌then◌else◌, All,
}
use aesmsg.Api.{Json, arr, obj, field_at}
use aesmsg.Mobile.Identity.Bundle.{
  JsonRuntime, RetiredKeyEntry, has_key, dedupe_from, dedupe_retired, prepend_retired,
  retired_excluding_active, entries_json, blob_json, serialize_retired_keys, valid_entries,
  retired_key_entry, parse_retired_keys, keys_of_blob, keys_of,
}

-- Two lists of seen keys hold the same keys.
abbrev Alike : List Text → List Text → Type 0
Alike s t = (k : Text) → has_key k s ≡ has_key k t

has_key-cons :
    (k x : Text) (s : List Text) → has_key k (x ∷ s) ≡ (if text_eq x k then true else has_key k s)
unfolding has_key
has_key-cons k x s = refl

Alike-cons : (x : Text) (s t : List Text) → Alike s t → Alike (x ∷ s) (x ∷ t)
Alike-cons x s t h k = ground (arith, has_key-cons k x s, has_key-cons k x t, h k)

Alike-swap : (x y : Text) (s : List Text) → Alike (x ∷ y ∷ s) (y ∷ x ∷ s)
unfolding has_key
Alike-swap x y s k = ground arith

Alike-twice : (x : Text) (s : List Text) → Alike (x ∷ x ∷ s) (x ∷ s)
unfolding has_key
Alike-twice x s k = ground arith

dedupe_from-Alike :
    (s t : List Text) (es : List RetiredKeyEntry) → Alike s t → dedupe_from s es ≡ dedupe_from t es
unfolding dedupe_from
dedupe_from-Alike s t [] h = refl
dedupe_from-Alike s t (e ∷ es) h =
    let pk = e.public_key_string in
    ground (
      arith,
      h pk,
      dedupe_from-Alike s t es h,
      dedupe_from-Alike (pk ∷ s) (pk ∷ t) es (Alike-cons pk s t h),
    )

dedupe_from_idem :
    (s : List Text) (es : List RetiredKeyEntry)
    → dedupe_from s (dedupe_from s es) ≡ dedupe_from s es
unfolding dedupe_from
dedupe_from_idem s [] = refl
dedupe_from_idem s (e ∷ es) =
    let pk = e.public_key_string in
    ground (arith, dedupe_from_idem s es, dedupe_from_idem (pk ∷ s) es)

-- To exclude a key afterwards is to have seen it before.
exclude-dedupe_from :
    (s : List Text) (pk : Text) (es : List RetiredKeyEntry)
    → retired_excluding_active (dedupe_from s es) pk ≡ dedupe_from (pk ∷ s) es
unfolding dedupe_from retired_excluding_active
exclude-dedupe_from s pk [] = refl
exclude-dedupe_from s pk (e ∷ es) =
    let x = e.public_key_string in
    ground (
      arith,
      has_key-cons x pk s,
      text_eq_iff x pk,
      text_eq_iff pk x,
      exclude-dedupe_from s pk es,
      exclude-dedupe_from (x ∷ s) pk es,
      dedupe_from-Alike (pk ∷ x ∷ s) (x ∷ pk ∷ s) es (Alike-swap pk x s),
      dedupe_from-Alike (pk ∷ pk ∷ s) (pk ∷ s) es (Alike-twice pk s),
    )

pub dedupe_retired_idem :
    (es : List RetiredKeyEntry) → dedupe_retired (dedupe_retired es) ≡ dedupe_retired es
unfolding dedupe_retired
dedupe_retired_idem es = dedupe_from_idem [] es

seen_head :
    (pk : Text) (es : List RetiredKeyEntry) (e : RetiredKeyEntry)
    → e.public_key_string ≡ pk
    → dedupe_from (pk ∷ []) (e ∷ es) ≡ dedupe_from (pk ∷ []) es
unfolding dedupe_from has_key
seen_head pk es e h = rw (h, text_eq_refl pk) refl

-- Of a list without duplicates, excluding the key of an entry undoes prepending the entry.
pub exclude-prepend_retired :
    (es : List RetiredKeyEntry) (e : RetiredKeyEntry)
    → dedupe_retired es ≡ es
    → retired_excluding_active (prepend_retired es e) e.public_key_string
      ≡ retired_excluding_active es e.public_key_string
unfolding dedupe_retired prepend_retired
exclude-prepend_retired es e h =
    let pk = e.public_key_string in
    exclude-dedupe_from [] pk (e ∷ es)
    ∙ seen_head pk es e refl
    ∙ sym (exclude-dedupe_from [] pk es)
    ∙ ap (λ l. retired_excluding_active l pk) h

prepend_retired_cons :
    (es : List RetiredKeyEntry) (e : RetiredKeyEntry)
    → dedupe_retired es ≡ es
    → prepend_retired es e ≡ e ∷ retired_excluding_active es e.public_key_string
unfolding dedupe_retired prepend_retired dedupe_from has_key
prepend_retired_cons es e h =
    let pk = e.public_key_string in
    ap (λ l. e ∷ l) (sym (exclude-dedupe_from [] pk es) ∙ ap (λ l. retired_excluding_active l pk) h)

exclude_comm :
    (es : List RetiredKeyEntry) (a b : Text)
    → retired_excluding_active (retired_excluding_active es a) b
      ≡ retired_excluding_active (retired_excluding_active es b) a
unfolding retired_excluding_active
exclude_comm [] a b = refl
exclude_comm (e ∷ es) a b = ground (arith, exclude_comm es a b)

-- With a key that no entry has, the list after a prepend starts with the new entry.
pub exclude_fresh-prepend_retired :
    (es : List RetiredKeyEntry) (e : RetiredKeyEntry) (fresh : Text)
    → dedupe_retired es ≡ es
    → retired_excluding_active es fresh ≡ es
    → text_eq e.public_key_string fresh ≡ false
    → retired_excluding_active (prepend_retired es e) fresh
      ≡ e ∷ retired_excluding_active es e.public_key_string
unfolding retired_excluding_active
exclude_fresh-prepend_retired es e fresh h absent other =
    let pk = e.public_key_string in
    ap (λ l. retired_excluding_active l fresh) (prepend_retired_cons es e h)
    ∙ ground (arith, other)
    ∙ ap (λ l. e ∷ l) (exclude_comm es pk fresh ∙ ap (λ l. retired_excluding_active l pk) absent)

module _ (J : JsonRuntime) where
  abbrev pub AreFinite : List RetiredKeyEntry → Type 0
  AreFinite es = All (λ (e : RetiredKeyEntry). J.is_finite e.retired_at_ms ≡ true) es

  valid_entries-entries_json :
      (es : List RetiredKeyEntry) → AreFinite es → valid_entries J (entries_json es) ≡ es
  unfolding valid_entries entries_json retired_key_entry field_at text_eq
  valid_entries-entries_json [] h = refl
  valid_entries-entries_json (e ∷ es) h =
      rw (h.0, valid_entries-entries_json es h.1, valid_entries) refl

  keys_of_blob-blob_json :
      (es : List RetiredKeyEntry)
      → AreFinite es
      → keys_of_blob J (some (blob_json es)) ≡ dedupe_retired es
  unfolding field_at text_eq
  keys_of_blob-blob_json es h = ap dedupe_retired (valid_entries-entries_json es h)

  parse_some :
      (raw : Text) (j : Option Json)
      → J.parse raw ≡ j
      → parse_retired_keys J (some raw) ≡ keys_of_blob J j
  unfolding parse_retired_keys
  parse_some [] j e = rw (← e, J.parse_nil) refl
  parse_some (c ∷ raw) j e = ap (keys_of_blob J) e

  pub parse-serialize_retired_keys :
      (es : List RetiredKeyEntry)
      → AreFinite es
      → J.IsPlain (blob_json es)
      → parse_retired_keys J (some (serialize_retired_keys J es)) ≡ dedupe_retired es
  unfolding serialize_retired_keys
  parse-serialize_retired_keys es h plain =
      parse_some (J.stringify (blob_json es)) (some (blob_json es))
        (J.parse-stringify (blob_json es) plain)
      ∙ keys_of_blob-blob_json es h

  dedupe-keys_of : (o : Option Json) → dedupe_retired (keys_of J o) ≡ keys_of J o
  unfolding dedupe_retired dedupe_from
  dedupe-keys_of (some (arr items)) = dedupe_retired_idem (valid_entries J items)
  dedupe-keys_of _ = refl

  dedupe-keys_of_blob : (o : Option Json) → dedupe_retired (keys_of_blob J o) ≡ keys_of_blob J o
  unfolding dedupe_retired dedupe_from
  dedupe-keys_of_blob (some (obj fields)) =
      ground (arith, dedupe-keys_of (field_at (codes "keys") fields))
  dedupe-keys_of_blob _ = refl

  -- What is read from a blob, whatever it holds, has no duplicates.
  pub dedupe-parse_retired_keys :
      (raw : Option Text) → dedupe_retired (parse_retired_keys J raw) ≡ parse_retired_keys J raw
  unfolding parse_retired_keys
  dedupe-parse_retired_keys none = refl
  dedupe-parse_retired_keys (some []) = refl
  dedupe-parse_retired_keys (some (c ∷ raw)) = dedupe-keys_of_blob (J.parse (c ∷ raw))
