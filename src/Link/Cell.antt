-- ===== src/Link/Cell.antt =====
-- What a store of links promises, one link at a time: everything that it keeps under one id is a
-- cell, and each operation on an id is a step of that cell alone.
use aesmsg.Prelude.{
  ℕ, ◌+◌, Bool, false, ◌&&◌, not, Option, none, some, Text, leb, ltb, if◌then◌else◌,
}
use aesmsg.Link.{
  Bytes, LinkStatus, active, revoked, expired, LinkMetadata, CreateLinkRecord, is_active,
  is_terminal, is_unlimited, reaches,
}

pub record Cell : Type 0 where
  pub row : Option LinkMetadata
  pub hash : Option (Option Text)
  pub terminal_at : Option ℕ
  pub blob : Option Bytes

abbrev pub empty : Cell
empty = record { row = none; hash = none; terminal_at = none; blob = none }

-- A link that leaves `active` is stamped, and its ciphertext goes.
abbrev pub retire : LinkStatus → ℕ → LinkMetadata → Cell → Cell
retire status now row c = record c {
  row = some (record row { status = status });
  terminal_at = some now;
  blob = none;
}

abbrev pub opened : LinkMetadata → LinkMetadata
opened row = record row { opens_count = row.opens_count + 1 }

-- This open is the last one that the link allows.
abbrev pub is_last_open : LinkMetadata → Bool
is_last_open row = not (is_unlimited row.max_opens) && reaches (row.opens_count + 1) row.max_opens

abbrev pub is_live : ℕ → LinkMetadata → Bool
is_live now row = is_active row.status && ltb now row.expires_at

-- A link that is active and not past its expiry loses one open, and is retired by its last one.
abbrev pub open_row : ℕ → LinkMetadata → Cell → Cell
open_row now row c =
    if is_live now row
    then (if is_last_open row
        then retire expired now (opened row) c
        else record c { row = some (opened row) })
    else c

abbrev pub open_step : ℕ → Cell → Cell
open_step now c = elim c.row [ none ↦ c | some row ↦ open_row now row c ]

abbrev pub revoke_row : Bool → ℕ → LinkMetadata → Cell → Cell
revoke_row authorized now row c =
    if is_active row.status && authorized then retire revoked now row c else c

-- `authorized` says whether the stored token hash, if there is one, was matched.
abbrev pub revoke_step : (Option (Option Text) → Bool) → ℕ → Cell → Cell
revoke_step authorized now c = elim c.row [
  | none ↦ c
  | some row ↦ revoke_row (authorized c.hash) now row c
]

abbrev pub expire_row : ℕ → LinkMetadata → Cell → Cell
expire_row now row c =
    if is_active row.status
    then (if leb row.expires_at now then retire expired now row c else c)
    else record c { blob = none }

-- The sweep retires what is past due, and removes what ciphertext a retired link still has.
abbrev pub expire_step : ℕ → Cell → Cell
expire_step now c = elim c.row [ none ↦ c | some row ↦ expire_row now row c ]

abbrev pub is_before : Option ℕ → ℕ → Bool
is_before none cutoff = false
is_before (some t) cutoff = ltb t cutoff

abbrev pub prune_row : ℕ → LinkMetadata → Cell → Cell
prune_row cutoff row c =
    if is_terminal row.status && is_before c.terminal_at cutoff then empty else c

-- A link that was retired before the cutoff is forgotten.
abbrev pub prune_step : ℕ → Cell → Cell
prune_step cutoff c = elim c.row [ none ↦ c | some row ↦ prune_row cutoff row c ]

abbrev pub purge_row : ℕ → LinkMetadata → Cell → Cell
purge_row now row c =
    if is_active row.status then retire revoked now row c else record c { blob = none }

-- The operator's purge needs no token.
abbrev pub purge_step : ℕ → Cell → Cell
purge_step now c = elim c.row [ none ↦ record c { blob = none } | some row ↦ purge_row now row c ]

abbrev pub new_row : CreateLinkRecord → LinkMetadata
new_row r = record {
  id = r.id;
  status = active;
  created_at = none;
  expires_at = r.expires_at;
  max_opens = r.max_opens;
  opens_count = 0;
}

abbrev pub create_step : CreateLinkRecord → Bytes → Cell → Cell
create_step r bytes c = elim c.row [
  | none ↦ record c {
    row = some (new_row r);
    hash = some r.revocation_token_hash;
    blob = some bytes;
  }
  | some row ↦ c
]
