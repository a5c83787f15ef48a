-- ===== src/Memory/Sweep.antt =====
-- packages/server-store/src/memory/link-metadata-store.ts: the expiry sweep, the retention prune and
-- the aggregate statistics, each a loop over the rows; packages/server-store/src/retention.ts.
-- `now` is the clock while rows are flipped, `later` the clock at the retention cutoff.
pub mod Cells
use aesmsg.Prelude.{
  ℕ, ◌+◌, ◌-◌, ◌*◌, suc, Bool, true, false, ◌&&◌, Option, none, some, List, [], ◌∷◌, Text, leb, ltb,
  if◌then◌else◌, text_eq,
}
use aesmsg.Dict
use aesmsg.Dict.{Dict, for_each}
use aesmsg.Link.{
  ℤ, pos, negsuc, Bytes, LinkStatus, active, expired, LinkMetadata, is_active, is_terminal, is_some,
}
use aesmsg.Memory.{MemoryStore, blob_at, delete_blob, total_bytes}

-- `Number(raw)` of an environment variable: not a number, an infinity, an integer, or a fraction between
-- an integer and the next.
pub data Number : Type 0 where
  nan infinite : Number
  finite between : ℤ → Number

abbrev pub default_terminal_row_retention_ms : ℕ
default_terminal_row_retention_ms = 30 * 24 * 60 * 60 * 1000

abbrev nonnegative_or : ℕ → Number → ℕ
nonnegative_or default nan = default
nonnegative_or default infinite = default
nonnegative_or default (finite (pos n)) = n
nonnegative_or default (finite (negsuc n)) = default
nonnegative_or default (between (pos n)) = suc n
nonnegative_or default (between (negsuc n)) = default

-- `to_number` is JavaScript's `Number(raw)`, and `raw` is AESMSG_TERMINAL_ROW_RETENTION_MS. A fraction is
-- given as the next integer, since its only use is a cutoff `Date`, which drops the fraction of what is
-- left after subtracting it.
unfoldable pub terminal_retention_ms : (Text → Number) → Option Text → ℕ
terminal_retention_ms to_number none = default_terminal_row_retention_ms
terminal_retention_ms to_number (some raw) =
    if text_eq raw []
    then default_terminal_row_retention_ms
    else nonnegative_or default_terminal_row_retention_ms (to_number raw)

abbrev pub is_due : ℕ → LinkMetadata → Bool
is_due now row = is_active row.status && leb row.expires_at now

abbrev pub flip_due : ℕ → Text → LinkMetadata → MemoryStore → MemoryStore
flip_due now id row s =
    if is_due now row
    then record s {
      rows = Dict.set id (record row { status = expired }) s.rows;
      terminal_at = Dict.set id now s.terminal_at;
    }
    else s

-- The count of blobs removed, and the store.
abbrev pub purge_terminal : Text → LinkMetadata → ℕ × MemoryStore → ℕ × MemoryStore
purge_terminal id row (purged, s) =
    if is_terminal row.status && is_some (blob_at id s.ciphertexts)
    then (suc purged, record s { ciphertexts = delete_blob id s.ciphertexts })
    else (purged, s)

abbrev older_than : Option ℕ → ℕ → Bool
older_than none cutoff = false
older_than (some t) cutoff = ltb t cutoff

abbrev pub prune_row : ℕ → Text → LinkMetadata → ℕ × MemoryStore → ℕ × MemoryStore
prune_row cutoff id row (deleted, s) =
    if is_terminal row.status && older_than (Dict.get id s.terminal_at) cutoff
    then (
      suc deleted,
      record {
        rows = Dict.remove id s.rows;
        revocation_token_hashes = Dict.remove id s.revocation_token_hashes;
        terminal_at = Dict.remove id s.terminal_at;
        ciphertexts = delete_blob id s.ciphertexts;
      },
    )
    else (deleted, s)

unfoldable pub prune_terminal : ℕ → MemoryStore → ℕ × MemoryStore
prune_terminal before s = for_each (prune_row before) s.rows (0, s)

abbrev pub flip_all : ℕ → MemoryStore → MemoryStore
flip_all now s = for_each (flip_due now) s.rows s

abbrev pub purge_all : MemoryStore → ℕ × MemoryStore
purge_all s = for_each purge_terminal s.rows (0, s)

-- A cutoff before 1970 prunes nothing, and neither does the cutoff 0 that `-` gives for it. The retention
-- is one whose cutoff is a valid `Date`, 8.64e15 ms at most.
unfoldable pub expire_past_due : ℕ → ℕ → ℕ → MemoryStore → ℕ × MemoryStore
unfolding prune_terminal
expire_past_due retention now later s =
    let flipped = flip_all now s in
    elim flipped.ciphertexts [
      | none ↦ (0, (prune_terminal (later - retention) flipped).1)
      | some _ ↦
          let (purged, s') = purge_all flipped in
          (purged, (prune_terminal (later - retention) s').1)
    ]

abbrev count_active : Dict LinkMetadata → ℕ
count_active [] = 0
count_active ((id, row) ∷ rest) = (if is_active row.status then 1 else 0) + count_active rest

pub record StorageStats : Type 0 where
  pub active_links : ℕ
  pub ciphertext_bytes : ℕ

abbrev bytes_of : Option (Dict Bytes) → ℕ
bytes_of none = 0
bytes_of (some d) = total_bytes d

unfoldable pub aggregate_stats : MemoryStore → StorageStats
unfolding total_bytes
aggregate_stats s = record {
  active_links = count_active s.rows;
  ciphertext_bytes = bytes_of s.ciphertexts;
}
