-- ===== src/Memory/Sweep/Cells.antt =====
-- The sweeps of packages/server-store/src/memory/link-metadata-store.ts, cell by cell.
use aesmsg.Prelude.{
  ℕ, ◌-◌, ◌≡◌, ◌∙◌, ap, sym, none, some, Text, arith, text_eq, text_eq_iff, if◌then◌else◌,
  Option-cases, inl, inr,
}
use aesmsg.Dict.{
  Uniq, get-set, get-remove, at_entry, view-for_each, for_each_inv, set-Uniq, remove-Uniq,
}
use aesmsg.Link.{LinkMetadata, expired, is_terminal}
use aesmsg.Link.Cell
use aesmsg.Link.Cell.{Cell}
use aesmsg.Memory.{MemoryStore, blob_at}
use aesmsg.Memory.Step.{cell, blob_at-delete_blob}
use aesmsg.Memory.Sweep.{
  is_due, flip_due, purge_terminal, prune_row, prune_terminal, flip_all, purge_all, expire_past_due,
}

abbrev flip_cell : ℕ → LinkMetadata → Cell → Cell
flip_cell now row c =
    if is_due now row
    then record c { row = some (record row { status = expired }); terminal_at = some now }
    else c

abbrev purge_cell : LinkMetadata → Cell → Cell
purge_cell row c = if is_terminal row.status then record c { blob = none } else c

cell-flip_due :
    (now : ℕ) (k : Text) (row : LinkMetadata) (s : MemoryStore) (j : Text)
    → cell (flip_due now k row s) j
      ≡ (if text_eq k j then flip_cell now row (cell s j) else cell s j)
cell-flip_due now k row s j =
    ground
      (arith, get-set k j (record row { status = expired }) s.rows, get-set k j now s.terminal_at)

cell-purge_terminal :
    (k : Text) (row : LinkMetadata) (t : ℕ × MemoryStore) (j : Text)
    → cell (purge_terminal k row t).1 j
      ≡ (if text_eq k j then purge_cell row (cell t.1 j) else cell t.1 j)
cell-purge_terminal k row (n, s) j =
    ground (arith, text_eq_iff k j, blob_at-delete_blob k j s.ciphertexts)

cell-prune_row :
    (cutoff : ℕ) (k : Text) (row : LinkMetadata) (t : ℕ × MemoryStore) (j : Text)
    → cell (prune_row cutoff k row t).1 j
      ≡ (if text_eq k j then Cell.prune_row cutoff row (cell t.1 j) else cell t.1 j)
cell-prune_row cutoff k row (n, s) j = ground (
  arith,
  text_eq_iff k j,
  get-remove k j s.rows,
  get-remove k j s.revocation_token_hashes,
  get-remove k j s.terminal_at,
  blob_at-delete_blob k j s.ciphertexts,
)

-- A map whose keys are distinct, as every `Map` is.
pub record IsMaps (s : MemoryStore) : Type 0 where
  pub uniq : Uniq s.rows

flip_due-IsMaps :
    (now : ℕ) (k : Text) (row : LinkMetadata) (s : MemoryStore)
    → IsMaps s
    → IsMaps (flip_due now k row s)
flip_due-IsMaps now k row s m =
    ground (arith, m.uniq, set-Uniq k (record row { status = expired }) s.rows m.uniq)

purge_terminal-IsMaps :
    (k : Text) (row : LinkMetadata) (t : ℕ × MemoryStore)
    → IsMaps t.1
    → IsMaps (purge_terminal k row t).1
purge_terminal-IsMaps k row (n, s) m = ground (arith, m.uniq)

prune_row-IsMaps :
    (cutoff : ℕ) (k : Text) (row : LinkMetadata) (t : ℕ × MemoryStore)
    → IsMaps t.1
    → IsMaps (prune_row cutoff k row t).1
prune_row-IsMaps cutoff k row (n, s) m = ground (arith, m.uniq, remove-Uniq k s.rows m.uniq)

pub flip_all-IsMaps : (now : ℕ) (s : MemoryStore) → IsMaps s → IsMaps (flip_all now s)
flip_all-IsMaps now s m = for_each_inv IsMaps (flip_due now) (flip_due-IsMaps now) s.rows s m

pub purge_all-IsMaps : (s : MemoryStore) → IsMaps s → IsMaps (purge_all s).1
purge_all-IsMaps s m =
    for_each_inv (λ t. IsMaps t.1) purge_terminal purge_terminal-IsMaps s.rows (0, s) m

pub prune_terminal-IsMaps :
    (before : ℕ) (s : MemoryStore) → IsMaps s → IsMaps (prune_terminal before s).1
unfolding prune_terminal
prune_terminal-IsMaps before s m =
    for_each_inv (λ t. IsMaps t.1) (prune_row before) (prune_row-IsMaps before) s.rows (0, s) m

cell-flip_all :
    (now : ℕ) (s : MemoryStore) (j : Text)
    → IsMaps s
    → cell (flip_all now s) j ≡ at_entry (flip_cell now) (cell s j).row (cell s j)
cell-flip_all now s j m =
    view-for_each (flip_due now) cell (flip_cell now) (cell-flip_due now) s.rows s j m.uniq

cell-purge_all :
    (s : MemoryStore) (j : Text)
    → IsMaps s
    → cell (purge_all s).1 j ≡ at_entry purge_cell (cell s j).row (cell s j)
cell-purge_all s j m =
    view-for_each purge_terminal (λ t. cell t.1) purge_cell cell-purge_terminal s.rows (0, s) j
      m.uniq

-- The retention prune is the prune step of every link.
pub cell-prune_terminal :
    (before : ℕ) (s : MemoryStore) (j : Text)
    → IsMaps s
    → cell (prune_terminal before s).1 j ≡ Cell.prune_step before (cell s j)
unfolding prune_terminal
cell-prune_terminal before s j m =
    view-for_each (prune_row before) (λ t. cell t.1) (Cell.prune_row before) (cell-prune_row before)
      s.rows (0, s) j m.uniq
    ∙ ground arith

flip_then_purge :
    (now : ℕ) (c : Cell)
    → at_entry purge_cell (at_entry (flip_cell now) c.row c).row (at_entry (flip_cell now) c.row c)
      ≡ Cell.expire_step now c
flip_then_purge now c = ground arith

-- With no ciphertext store there is no blob to purge.
flip_unwired :
    (now : ℕ) (c : Cell)
    → (at_entry (flip_cell now) c.row c).blob ≡ none
    → at_entry (flip_cell now) c.row c ≡ Cell.expire_step now c
flip_unwired now c e = ground arith

cell-flip-purge :
    (now : ℕ) (s : MemoryStore) (j : Text)
    → IsMaps s
    → cell (purge_all (flip_all now s)).1 j ≡ Cell.expire_step now (cell s j)
cell-flip-purge now s j m =
    cell-purge_all (flip_all now s) j (flip_all-IsMaps now s m)
    ∙ ap (λ (c : Cell). at_entry purge_cell c.row c) (cell-flip_all now s j m)
    ∙ flip_then_purge now (cell s j)

cell-flip_unwired :
    (now : ℕ) (s : MemoryStore) (j : Text)
    → IsMaps s
    → (flip_all now s).ciphertexts ≡ none
    → cell (flip_all now s) j ≡ Cell.expire_step now (cell s j)
cell-flip_unwired now s j m e =
    cell-flip_all now s j m
    ∙ flip_unwired now (cell s j)
        (ap (λ (c : Cell). c.blob) (sym (cell-flip_all now s j m)) ∙ ap (blob_at j) e)

-- The sweep is, for every link, the expiry step and then the prune step at the retention cutoff.
pub cell-expire_past_due :
    (retention now later : ℕ) (s : MemoryStore) (j : Text)
    → IsMaps s
    → cell (expire_past_due retention now later s).1 j
      ≡ Cell.prune_step (later - retention) (Cell.expire_step now (cell s j))
unfolding expire_past_due
cell-expire_past_due retention now later s j m = elim (Option-cases (flip_all now s).ciphertexts) [
  | inl e ↦
      rw (e, expire_past_due)
        (cell-prune_terminal (later - retention) (flip_all now s) j (flip_all-IsMaps now s m)
          ∙ ap (Cell.prune_step (later - retention)) (cell-flip_unwired now s j m e))
  | inr (d, e) ↦
      rw (e, expire_past_due)
        (cell-prune_terminal (later - retention) (purge_all (flip_all now s)).1 j
            (purge_all-IsMaps (flip_all now s) (flip_all-IsMaps now s m))
          ∙ ap (Cell.prune_step (later - retention)) (cell-flip-purge now s j m))
]

pub expire_past_due-IsMaps :
    (retention now later : ℕ) (s : MemoryStore)
    → IsMaps s
    → IsMaps (expire_past_due retention now later s).1
unfolding expire_past_due
expire_past_due-IsMaps retention now later s m =
    let flipped = flip_all-IsMaps now s m in
    elim (Option-cases (flip_all now s).ciphertexts) [
      | inl e ↦
          rw (e, expire_past_due)
            (prune_terminal-IsMaps (later - retention) (flip_all now s) flipped)
      | inr (d, e) ↦
          rw (e, expire_past_due)
            (prune_terminal-IsMaps (later - retention) (purge_all (flip_all now s)).1
              (purge_all-IsMaps (flip_all now s) flipped))
    ]
