-- ===== src/Pg.antt =====
-- packages/server-store/src/pg/link-metadata-store.ts and ciphertext-store.ts: the tables `links` and
-- `link_ciphertexts` under their primary keys, and each SQL statement as a function on them. A
-- transaction either commits what its statements did or leaves the tables as they were. The
-- constraints are those of packages/server-store/migrations. `now()` is an argument.
pub mod Step
pub mod Sweep
pub mod Impl
pub mod Blobs
pub mod Overflow
use aesmsg.Prelude.{
  ℕ, ◌+◌, ◌-◌, ◌^◌, ◌<◌, ◌≡◌, Bool, true, false, ◌&&◌, ◌||◌, not, Option, none, some, List, [], ◌∷◌,
  Text, leb, ltb, length, if◌then◌else◌, suc,
}
use aesmsg.Dict
use aesmsg.Dict.{Dict}
use aesmsg.Link.{
  ℤ, pos, negsuc, Bytes, LinkStatus, active, revoked, expired, LinkMetadata, CreateLinkRecord,
  AdminPurgeResult, is_active, is_terminal, is_unlimited, reaches, is_some,
}
use aesmsg.ConstantTime.{hash_matches}

-- A row of `links`, without its key.
pub record LinkRow : Type 0 where
  pub status : LinkStatus
  pub created_at : Option ℕ
  pub expires_at : ℕ
  pub max_opens : ℤ
  pub opens_count : ℕ
  pub revocation_token_hash : Option Text
  pub terminal_at : Option ℕ

pub record Tables : Type 0 where
  pub links : Dict LinkRow
  pub link_ciphertexts : Dict Bytes

abbrev pub init : Tables
init = record { links = []; link_ciphertexts = [] }

abbrev pub row_to_meta : Text → LinkRow → LinkMetadata
row_to_meta id row = record {
  id = id;
  status = row.status;
  created_at = row.created_at;
  expires_at = row.expires_at;
  max_opens = row.max_opens;
  opens_count = row.opens_count;
}

abbrev pub meta_of : Text → Option LinkRow → Option LinkMetadata
meta_of id none = none
meta_of id (some row) = some (row_to_meta id row)

-- `integer NOT NULL CHECK (max_opens > 0 OR max_opens = -1)`
abbrev pub fits_max_opens : ℤ → Bool
fits_max_opens (pos n) = ltb 0 n && ltb n (2 ^ 31)
fits_max_opens (negsuc n) = is_unlimited (negsuc n)

abbrev pub new_link : CreateLinkRecord → LinkRow
new_link r = record {
  status = active;
  created_at = none;
  expires_at = r.expires_at;
  max_opens = r.max_opens;
  opens_count = 0;
  revocation_token_hash = r.revocation_token_hash;
  terminal_at = none;
}

-- INSERT INTO links: `none` where the key is taken or the check fails.
unfoldable pub insert_link : CreateLinkRecord → Tables → Option Tables
insert_link r t =
    if is_some (Dict.get r.id t.links) || not (fits_max_opens r.max_opens)
    then none
    else some (record t { links = Dict.set r.id (new_link r) t.links })

-- INSERT INTO link_ciphertexts: the key is free and refers to a row of `links`.
unfoldable pub insert_ciphertext : Text → Bytes → Tables → Option Tables
insert_ciphertext id blob t =
    if is_some (Dict.get id t.link_ciphertexts) || not (is_some (Dict.get id t.links))
    then none
    else some (record t { link_ciphertexts = Dict.set id blob t.link_ciphertexts })

abbrev both_inserts : Tables → Option Tables → Text → Bytes → Option Tables
both_inserts t none id blob = none
both_inserts t (some t') id blob = insert_ciphertext id blob t'

-- COMMIT, or ROLLBACK and throw.
abbrev commit_or_rollback : LinkMetadata → Tables → Option Tables → Option LinkMetadata × Tables
commit_or_rollback meta t none = (none, t)
commit_or_rollback meta t (some t') = (some meta, t')

unfoldable pub create_with_ciphertext :
    CreateLinkRecord → Bytes → Tables → Option LinkMetadata × Tables
unfolding insert_link insert_ciphertext
create_with_ciphertext r ciphertext t =
    commit_or_rollback (row_to_meta r.id (new_link r)) t
      (both_inserts t (insert_link r t) r.id ciphertext)

unfoldable pub get : Text → Tables → Option LinkMetadata
get id t = meta_of id (Dict.get id t.links)

unfoldable pub get_blob : Text → Tables → Option Bytes
get_blob id t = Dict.get id t.link_ciphertexts

-- The CASE of the UPDATE: this open is the last one of a bounded link.
abbrev pub exhausts : LinkRow → Bool
exhausts row = not (is_unlimited row.max_opens) && reaches (row.opens_count + 1) row.max_opens

abbrev pub updated_row : ℕ → LinkRow → LinkRow
updated_row now row = record row {
  opens_count = row.opens_count + 1;
  status = (if exhausts row then expired else row.status);
  terminal_at = (if exhausts row then some now else row.terminal_at);
}

abbrev is_expired : LinkStatus → Bool
is_expired active = false
is_expired revoked = false
is_expired expired = true

-- The CTE `updated`, the CTE `purged` over what it returned, and the final SELECT.
abbrev pub open_row : ℕ → Text → LinkRow → Tables → Option LinkMetadata × Tables
open_row now id row t =
    if is_active row.status && ltb now row.expires_at
    then (
      some (row_to_meta id (updated_row now row)),
      record {
        links = Dict.set id (updated_row now row) t.links;
        link_ciphertexts =
            (if is_expired (updated_row now row).status
              then Dict.remove id t.link_ciphertexts
              else t.link_ciphertexts);
      },
    )
    else (none, t)

-- The UPDATE as long as `opens_count + 1` fits its column: Overflow has the call with that bound.
unfoldable pub increment_opens : ℕ → Text → Tables → Option LinkMetadata × Tables
increment_opens now id t = elim (Dict.get id t.links) [
  | none ↦ (none, t)
  | some row ↦ open_row now id row t
]

-- The check of the provided hash against the row's.
abbrev pub may_revoke : Option Text → Option Text → Bool
may_revoke provided none = true
may_revoke provided (some stored) = hash_matches provided stored

-- UPDATE links SET status = 'revoked', terminal_at = now()
abbrev pub revoked_row : ℕ → LinkRow → LinkRow
revoked_row now row = record row { status = revoked; terminal_at = some now }

abbrev pub revoke_row : ℕ → Text → Option Text → LinkRow → Tables → Tables
revoke_row now id provided row t =
    if not (is_active row.status)
    then t
    else if may_revoke provided row.revocation_token_hash
    then record {
      links = Dict.set id (revoked_row now row) t.links;
      link_ciphertexts = Dict.remove id t.link_ciphertexts;
    }
    else t

unfoldable pub revoke : ℕ → Text → Option Text → Tables → Tables
revoke now id provided t = elim (Dict.get id t.links) [
  | none ↦ t
  | some row ↦ revoke_row now id provided row t
]

abbrev row_is_active : Option LinkRow → Bool
row_is_active none = false
row_is_active (some row) = is_active row.status

abbrev flip_row : ℕ → Text → Option LinkRow → Dict LinkRow → Dict LinkRow
flip_row now id none links = links
flip_row now id (some row) links =
    if is_active row.status then Dict.set id (revoked_row now row) links else links

unfoldable pub admin_purge : ℕ → Text → Tables → AdminPurgeResult × Tables
admin_purge now id t =
    let row = Dict.get id t.links in
    (
      record {
        found = is_some row;
        was_active = row_is_active row;
        ciphertext_removed = is_some (Dict.get id t.link_ciphertexts);
      },
      record {
        links = flip_row now id row t.links;
        link_ciphertexts = Dict.remove id t.link_ciphertexts;
      },
    )
