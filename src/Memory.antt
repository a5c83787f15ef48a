-- ===== src/Memory.antt =====
-- packages/server-store/src/memory: the link metadata store and the ciphertext store over `Map`s.
-- A method is a function from the store to the store; each call reads the clock once, as `now`, but
-- for the sweep, which reads it again for the retention cutoff.
pub mod Step
pub mod Sweep
pub mod Impl
use aesmsg.Prelude.{
  ℕ, ◌+◌, ◌-◌, Bool, true, false, ◌&&◌, ◌||◌, not, Option, none, some, List, [], ◌∷◌, Text, length,
  leb, ltb, if◌then◌else◌,
}
use aesmsg.Dict
use aesmsg.Dict.{Dict}
use aesmsg.Link.{
  ℤ, Bytes, LinkStatus, active, revoked, expired, LinkMetadata, CreateLinkRecord, is_active,
  is_terminal, is_unlimited, reaches, AdminPurgeResult, is_some, was_active,
}
use aesmsg.ConstantTime.{hash_matches}

-- `ciphertexts` is the store that the constructor was given, if any.
pub record MemoryStore : Type 0 where
  pub rows : Dict LinkMetadata
  pub revocation_token_hashes : Dict (Option Text)
  pub terminal_at : Dict ℕ
  pub ciphertexts : Option (Dict Bytes)

abbrev pub init : MemoryStore
init = record { rows = []; revocation_token_hashes = []; terminal_at = []; ciphertexts = some [] }

-- ciphertext-store.ts. A put of the memory store does not throw.
unfoldable pub ciphertext_put : Text → Bytes → Dict Bytes → Option (Dict Bytes)
ciphertext_put id blob rows = some (Dict.set id blob rows)

unfoldable pub total_bytes : Dict Bytes → ℕ
total_bytes [] = 0
total_bytes ((id, blob) ∷ rest) = length blob + total_bytes rest

-- `await this.ciphertexts?.delete(id)`
abbrev pub delete_blob : Text → Option (Dict Bytes) → Option (Dict Bytes)
delete_blob id none = none
delete_blob id (some d) = some (Dict.remove id d)

-- `this.ciphertexts ? await this.ciphertexts.get(id) : null`
abbrev pub blob_at : Text → Option (Dict Bytes) → Option Bytes
blob_at id none = none
blob_at id (some d) = Dict.get id d

abbrev pub new_meta : CreateLinkRecord → LinkMetadata
new_meta r = record {
  id = r.id;
  expires_at = r.expires_at;
  max_opens = r.max_opens;
  status = active;
  opens_count = 0;
  created_at = none;
}

abbrev with_row : CreateLinkRecord → MemoryStore → MemoryStore
with_row r s = record s {
  rows = Dict.set r.id (new_meta r) s.rows;
  revocation_token_hashes = Dict.set r.id r.revocation_token_hash s.revocation_token_hashes;
}

-- `none` is the throw on a duplicate id.
unfoldable pub create : CreateLinkRecord → MemoryStore → Option (LinkMetadata × MemoryStore)
create r s = elim (Dict.get r.id s.rows) [ some _ ↦ none | none ↦ some (new_meta r, with_row r s) ]

-- The catch branch: the row is rolled back.
abbrev without_row : Text → MemoryStore → MemoryStore
without_row id s = record s {
  rows = Dict.remove id s.rows;
  revocation_token_hashes = Dict.remove id s.revocation_token_hashes;
}

abbrev finish_create :
    CreateLinkRecord
    → LinkMetadata
    → MemoryStore
    → Option (Dict Bytes)
    → Option LinkMetadata × MemoryStore
finish_create r meta s none = (none, without_row r.id s)
finish_create r meta s (some d) = (some meta, record s { ciphertexts = some d })

-- `put` is the wired store's, which may throw. The first part of the result is `none` for a throw.
unfoldable pub create_with_ciphertext_by :
    (Text → Bytes → Dict Bytes → Option (Dict Bytes))
    → CreateLinkRecord
    → Bytes
    → MemoryStore
    → Option LinkMetadata × MemoryStore
unfolding create
create_with_ciphertext_by put r ciphertext s = elim s.ciphertexts [
  | none ↦ (none, s)
  | some d ↦ elim (create r s) [
    | none ↦ (none, s)
    | some (meta, s') ↦ finish_create r meta s' (put r.id ciphertext d)
  ]
]

unfoldable pub create_with_ciphertext :
    CreateLinkRecord → Bytes → MemoryStore → Option LinkMetadata × MemoryStore
unfolding create_with_ciphertext_by ciphertext_put
create_with_ciphertext = create_with_ciphertext_by ciphertext_put

abbrev pub new_status : LinkMetadata → LinkStatus
new_status row =
    if not (is_unlimited row.max_opens) && reaches (row.opens_count + 1) row.max_opens
    then expired
    else row.status

abbrev pub updated : LinkMetadata → LinkMetadata
updated row = record row { opens_count = row.opens_count + 1; status = new_status row }

abbrev is_expired : LinkStatus → Bool
is_expired active = false
is_expired revoked = false
is_expired expired = true

abbrev after_open : ℕ → Text → LinkMetadata → MemoryStore → MemoryStore
after_open now id row s =
    if is_expired (new_status row)
    then record s {
      rows = Dict.set id (updated row) s.rows;
      terminal_at = Dict.set id now s.terminal_at;
      ciphertexts = delete_blob id s.ciphertexts;
    }
    else record s { rows = Dict.set id (updated row) s.rows }

abbrev increment_row : ℕ → Text → LinkMetadata → MemoryStore → Option LinkMetadata × MemoryStore
increment_row now id row s =
    if not (is_active row.status)
    then (none, s)
    else if leb row.expires_at now
    then (none, s)
    else (some (updated row), after_open now id row s)

unfoldable pub increment_opens : ℕ → Text → MemoryStore → Option LinkMetadata × MemoryStore
increment_opens now id s = elim (Dict.get id s.rows) [
  | none ↦ (none, s)
  | some row ↦ increment_row now id row s
]

-- Status flip, stamp and purge, for `revoke` and `adminPurge`.
abbrev set_revoked : ℕ → Text → LinkMetadata → MemoryStore → MemoryStore
set_revoked now id row s = record s {
  rows = Dict.set id (record row { status = revoked }) s.rows;
  terminal_at = Dict.set id now s.terminal_at;
}

-- `this.revocationTokenHashes.get(id) ?? null`, and the check of the provided hash against it.
abbrev pub is_authorized : Option Text → Option (Option Text) → Bool
is_authorized provided none = true
is_authorized provided (some none) = true
is_authorized provided (some (some stored)) = hash_matches provided stored

abbrev revoke_row : ℕ → Text → Option Text → LinkMetadata → MemoryStore → MemoryStore
revoke_row now id provided row s =
    if not (is_active row.status)
    then s
    else if is_authorized provided (Dict.get id s.revocation_token_hashes)
    then record (set_revoked now id row s) { ciphertexts = delete_blob id s.ciphertexts }
    else s

unfoldable pub revoke : ℕ → Text → Option Text → MemoryStore → MemoryStore
revoke now id provided s = elim (Dict.get id s.rows) [
  | none ↦ s
  | some row ↦ revoke_row now id provided row s
]

abbrev flip_active : ℕ → Text → Option LinkMetadata → MemoryStore → MemoryStore
flip_active now id none s = s
flip_active now id (some row) s = if is_active row.status then set_revoked now id row s else s

unfoldable pub admin_purge : ℕ → Text → MemoryStore → AdminPurgeResult × MemoryStore
admin_purge now id s =
    let row = Dict.get id s.rows in
    let s' = flip_active now id row s in
    let removed = is_some (blob_at id s.ciphertexts) in
    (
      record { found = is_some row; was_active = was_active row; ciphertext_removed = removed },
      if removed then record s' { ciphertexts = delete_blob id s'.ciphertexts } else s',
    )
