-- ===== src/Memory/Step.antt =====
-- The methods of packages/server-store/src/memory/link-metadata-store.ts on one id, cell by cell.
use aesmsg.Prelude.{
  ℕ, ◌≡◌, Option, none, some, Text, arith, text_eq, text_eq_iff, inl, inr, Option-cases,
  if◌then◌else◌,
}
use aesmsg.Dict
use aesmsg.Dict.{get-set, get-remove}
use aesmsg.Link.{Bytes, revoked, LinkMetadata, CreateLinkRecord}
use aesmsg.Link.Cell
use aesmsg.Link.Cell.{Cell}
use aesmsg.Memory.{
  MemoryStore, blob_at, delete_blob, increment_opens, increment_row, updated, revoke, revoke_row,
  new_meta, is_authorized, admin_purge, create_with_ciphertext,
}

abbrev pub cell : MemoryStore → Text → Cell
cell s id = record {
  row = Dict.get id s.rows;
  hash = Dict.get id s.revocation_token_hashes;
  terminal_at = Dict.get id s.terminal_at;
  blob = blob_at id s.ciphertexts;
}

pub blob_at-delete_blob :
    (id j : Text) (d : Option (Dict.Dict Bytes))
    → blob_at j (delete_blob id d) ≡ (if text_eq id j then none else blob_at j d)
blob_at-delete_blob id j none = ground arith
blob_at-delete_blob id j (some d) = get-remove id j d

module _ (now : ℕ) (id j : Text) (s : MemoryStore) where
  cell-increment_row :
      (row : LinkMetadata)
      → Dict.get id s.rows ≡ some row
      → cell (increment_row now id row s).1 j
        ≡ (if text_eq id j then Cell.open_step now (cell s j) else cell s j)
  cell-increment_row row e = ground (
    arith,
    text_eq_iff id j,
    get-set id j (updated row) s.rows,
    get-set id j now s.terminal_at,
    blob_at-delete_blob id j s.ciphertexts,
  )

  -- An open is the open step of the cell of its id, and leaves every other cell.
  pub cell-increment_opens :
      cell (increment_opens now id s).1 j
      ≡ (if text_eq id j then Cell.open_step now (cell s j) else cell s j)
  unfolding increment_opens
  cell-increment_opens = elim (Option-cases (Dict.get id s.rows)) [
    | inl e ↦ rw (e, increment_opens) (ground (arith, text_eq_iff id j))
    | inr (row, e) ↦ rw (e, increment_opens) (cell-increment_row row e)
  ]

  cell-revoke_row :
      (provided : Option Text) (row : LinkMetadata)
      → Dict.get id s.rows ≡ some row
      → cell (revoke_row now id provided row s) j ≡ (
          if text_eq id j
          then Cell.revoke_step (is_authorized provided) now (cell s j)
          else cell s j)
  cell-revoke_row provided row e = ground (
    arith,
    text_eq_iff id j,
    get-set id j (record row { status = revoked }) s.rows,
    get-set id j now s.terminal_at,
    blob_at-delete_blob id j s.ciphertexts,
  )

  -- A revocation is the revoke step of the cell of its id, and leaves every other cell.
  pub cell-revoke :
      (provided : Option Text)
      → cell (revoke now id provided s) j ≡ (
          if text_eq id j
          then Cell.revoke_step (is_authorized provided) now (cell s j)
          else cell s j)
  unfolding revoke
  cell-revoke provided = elim (Option-cases (Dict.get id s.rows)) [
    | inl e ↦ rw (e, revoke) (ground (arith, text_eq_iff id j))
    | inr (row, e) ↦ rw (e, revoke) (cell-revoke_row provided row e)
  ]

  pub cell-admin_purge :
      cell (admin_purge now id s).1 j
      ≡ (if text_eq id j then Cell.purge_step now (cell s j) else cell s j)
  unfolding admin_purge
  cell-admin_purge = elim (Option-cases (Dict.get id s.rows)) [
    | inl e ↦
        rw (e, admin_purge)
          (ground (arith, text_eq_iff id j, blob_at-delete_blob id j s.ciphertexts))
    | inr (row, e) ↦
        rw (e, admin_purge)
          (ground (
            arith,
            text_eq_iff id j,
            get-set id j (record row { status = revoked }) s.rows,
            get-set id j now s.terminal_at,
            blob_at-delete_blob id j s.ciphertexts,
          ))
  ]

module _ (r : CreateLinkRecord) (bytes : Bytes) (j : Text) (s : MemoryStore) where
  pub create_with_ciphertext-fresh :
      (d : Dict.Dict Bytes)
      → s.ciphertexts ≡ some d
      → Dict.get r.id s.rows ≡ none
      → create_with_ciphertext r bytes s ≡ (
        some (new_meta r),
        record {
          rows = Dict.set r.id (new_meta r) s.rows;
          revocation_token_hashes = Dict.set r.id r.revocation_token_hash s.revocation_token_hashes;
          terminal_at = s.terminal_at;
          ciphertexts = some (Dict.set r.id bytes d);
        },
      )
  unfolding create_with_ciphertext
  create_with_ciphertext-fresh d e f = ground arith

  pub create_with_ciphertext-taken :
      (row : LinkMetadata)
      → Dict.get r.id s.rows ≡ some row
      → create_with_ciphertext r bytes s ≡ (none, s)
  unfolding create_with_ciphertext
  create_with_ciphertext-taken row f = ground arith

  -- A create on a store with ciphertexts writes the row, the hash and the blob, or finds the id taken
  -- and changes nothing.
  pub cell-create_with_ciphertext :
      (d : Dict.Dict Bytes)
      → s.ciphertexts ≡ some d
      → cell (create_with_ciphertext r bytes s).1 j
        ≡ (if text_eq r.id j then Cell.create_step r bytes (cell s j) else cell s j)
  cell-create_with_ciphertext d e = elim (Option-cases (Dict.get r.id s.rows)) [
    | inl f ↦ rw (create_with_ciphertext-fresh d e f) (
        ground (
          arith,
          text_eq_iff r.id j,
          get-set r.id j (new_meta r) s.rows,
          get-set r.id j r.revocation_token_hash s.revocation_token_hashes,
          get-set r.id j bytes d,
        ))
    | inr (row, f) ↦ rw (create_with_ciphertext-taken row f) (ground (arith, text_eq_iff r.id j))
  ]
