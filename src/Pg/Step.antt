-- ===== src/Pg/Step.antt =====
-- The statements of packages/server-store/src/pg/link-metadata-store.ts on one id, cell by cell.
use aesmsg.Prelude.{
  ℕ, ◌≡◌, Bool, true, ◌&&◌, Option, none, some, Text, arith, text_eq, text_eq_iff, if◌then◌else◌,
  Option-cases, inl, inr,
}
use aesmsg.Dict
use aesmsg.Dict.{get-set, get-remove}
use aesmsg.Link.{Bytes, LinkMetadata, CreateLinkRecord, is_some}
use aesmsg.Link.Cell
use aesmsg.Link.Cell.{Cell}
use aesmsg.Link.Interface.{open_result}
use aesmsg.Pg.{
  Tables, LinkRow, meta_of, new_link, create_with_ciphertext, increment_opens, open_row,
  updated_row, revoke, revoke_row, revoked_row, may_revoke, admin_purge,
}

abbrev pub hash_of : Option LinkRow → Option (Option Text)
hash_of none = none
hash_of (some row) = some row.revocation_token_hash

abbrev pub stamp_of : Option LinkRow → Option ℕ
stamp_of none = none
stamp_of (some row) = row.terminal_at

abbrev pub cell : Tables → Text → Cell
cell t id = record {
  row = meta_of id (Dict.get id t.links);
  hash = hash_of (Dict.get id t.links);
  terminal_at = stamp_of (Dict.get id t.links);
  blob = Dict.get id t.link_ciphertexts;
}

abbrev pub is_authorized : Option Text → Option (Option Text) → Bool
is_authorized provided none = true
is_authorized provided (some stored) = may_revoke provided stored

module _ (now : ℕ) (id j : Text) (t : Tables) where
  cell-open_row :
      (row : LinkRow)
      → Dict.get id t.links ≡ some row
      → cell (open_row now id row t).1 j
        ≡ (if text_eq id j then Cell.open_step now (cell t j) else cell t j)
  cell-open_row row e = ground (
    arith,
    text_eq_iff id j,
    get-set id j (updated_row now row) t.links,
    get-remove id j t.link_ciphertexts,
  )

  pub cell-increment_opens :
      cell (increment_opens now id t).1 j
      ≡ (if text_eq id j then Cell.open_step now (cell t j) else cell t j)
  unfolding increment_opens
  cell-increment_opens = elim (Option-cases (Dict.get id t.links)) [
    | inl e ↦ rw (e, increment_opens) (ground (arith, text_eq_iff id j))
    | inr (row, e) ↦ rw (e, increment_opens) (cell-open_row row e)
  ]

  cell-revoke_row :
      (provided : Option Text) (row : LinkRow)
      → Dict.get id t.links ≡ some row
      → cell (revoke_row now id provided row t) j ≡ (
          if text_eq id j
          then Cell.revoke_step (is_authorized provided) now (cell t j)
          else cell t j)
  cell-revoke_row provided row e = ground (
    arith,
    text_eq_iff id j,
    get-set id j (revoked_row now row) t.links,
    get-remove id j t.link_ciphertexts,
  )

  pub cell-revoke :
      (provided : Option Text)
      → cell (revoke now id provided t) j ≡ (
          if text_eq id j
          then Cell.revoke_step (is_authorized provided) now (cell t j)
          else cell t j)
  unfolding revoke
  cell-revoke provided = elim (Option-cases (Dict.get id t.links)) [
    | inl e ↦ rw (e, revoke) (ground (arith, text_eq_iff id j))
    | inr (row, e) ↦ rw (e, revoke) (cell-revoke_row provided row e)
  ]

  -- A purge is the purge step of the cell of its id, and leaves every other cell.
  pub cell-admin_purge :
      cell (admin_purge now id t).1 j
      ≡ (if text_eq id j then Cell.purge_step now (cell t j) else cell t j)
  unfolding admin_purge
  cell-admin_purge = elim (Option-cases (Dict.get id t.links)) [
    | inl e ↦
        rw (e, admin_purge) (ground (arith, text_eq_iff id j, get-remove id j t.link_ciphertexts))
    | inr (row, e) ↦
        rw (e, admin_purge)
          (ground (
            arith,
            text_eq_iff id j,
            get-set id j (revoked_row now row) t.links,
            get-remove id j t.link_ciphertexts,
          ))
  ]

pub increment_opens_lem :
    (now : ℕ) (id : Text) (t : Tables)
    → (increment_opens now id t).0 ≡ open_result now (meta_of id (Dict.get id t.links))
unfolding increment_opens
increment_opens_lem now id t = ground arith

module _ (r : CreateLinkRecord) (bytes : Bytes) (j : Text) (t : Tables) where
  -- The transaction writes both rows, or throws and leaves the tables as they were.
  pub cell-create : cell (create_with_ciphertext r bytes t).1 j ≡ (
      if is_some (create_with_ciphertext r bytes t).0 && text_eq r.id j
      then Cell.create_step r bytes (cell t j)
      else cell t j)
  unfolding create_with_ciphertext
  cell-create = ground (
    arith,
    text_eq_iff r.id j,
    get-set r.id j (new_link r) t.links,
    get-set r.id j bytes t.link_ciphertexts,
  )

  pub create_taken :
      (row : LinkMetadata)
      → meta_of r.id (Dict.get r.id t.links) ≡ some row
      → (create_with_ciphertext r bytes t).0 ≡ none
  unfolding create_with_ciphertext
  create_taken row e = ground arith
