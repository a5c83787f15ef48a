-- ===== src/Pg/Sweep.antt =====
-- expirePastDue, pruneTerminal and aggregateStats of packages/server-store/src/pg/link-metadata-store.ts,
-- and totalBytes of pg/ciphertext-store.ts: statements over whole tables.
use aesmsg.Prelude.{
  [], ◌∷◌, ◌+◌, ℕ, ◌-◌, ◌≡◌, ap, ◌∙◌, Bool, false, ◌&&◌, not, Option, none, some, Text, arith, leb,
  ltb, length, if◌then◌else◌,
}
use aesmsg.Memory.Sweep.{StorageStats}
use aesmsg.Dict.{Dict}
use aesmsg.Dict
use aesmsg.Dict.{Dict, Uniq, get-map_values, get-keep, map_values-Uniq, keep-Uniq, map_values, keep}
use aesmsg.Link.{Bytes, expired, is_active, is_terminal}
use aesmsg.Link.Cell
use aesmsg.Link.Cell.{Cell}
use aesmsg.Pg.{Tables, LinkRow}
use aesmsg.Pg.Step.{cell}

-- UPDATE links SET status = 'expired', terminal_at = now()
--   WHERE status = 'active' AND expires_at <= now()
abbrev expire_row : ℕ → LinkRow → LinkRow
expire_row now row =
    if is_active row.status && leb row.expires_at now
    then record row { status = expired; terminal_at = some now }
    else row

abbrev row_is_terminal : Option LinkRow → Bool
row_is_terminal none = false
row_is_terminal (some row) = is_terminal row.status

abbrev past : Option ℕ → ℕ → Bool
past none before = false
past (some t) before = ltb t before

-- status IN ('expired', 'revoked') AND terminal_at IS NOT NULL AND terminal_at < $1
abbrev is_prunable : ℕ → LinkRow → Bool
is_prunable before row = is_terminal row.status && past row.terminal_at before

abbrev row_is_prunable : ℕ → Option LinkRow → Bool
row_is_prunable before none = false
row_is_prunable before (some row) = is_prunable before row

-- ON DELETE CASCADE removes the ciphertexts of the deleted rows.
unfoldable pub prune_terminal : ℕ → Tables → ℕ × Tables
prune_terminal before t =
    let links = keep (λ _ row. not (is_prunable before row)) t.links in
    (
      length t.links - length links,
      record {
        links = links;
        link_ciphertexts =
            keep (λ id _. not (row_is_prunable before (Dict.get id t.links))) t.link_ciphertexts;
      },
    )

abbrev expire_links : ℕ → Tables → Tables
expire_links now t = record t { links = map_values (expire_row now) t.links }

-- DELETE FROM link_ciphertexts WHERE link_id IN (SELECT id FROM links WHERE status IN (…))
abbrev purge_terminal : Tables → Tables
purge_terminal t = record t {
  link_ciphertexts = keep (λ id _. not (row_is_terminal (Dict.get id t.links))) t.link_ciphertexts;
}

unfoldable pub expire_past_due : ℕ → ℕ → ℕ → Tables → ℕ × Tables
unfolding prune_terminal
expire_past_due retention now later t =
    let t' = expire_links now t in
    let t'' = purge_terminal t' in
    (
      length t'.link_ciphertexts - length t''.link_ciphertexts,
      (prune_terminal (later - retention) t'').1,
    )

-- SELECT count(*) FROM links WHERE status = 'active'
abbrev active_count : Dict LinkRow → ℕ
active_count [] = 0
active_count ((id, row) ∷ rest) = (if is_active row.status then 1 else 0) + active_count rest

-- SELECT coalesce(sum(size), 0) FROM link_ciphertexts, where `size` is the length of the blob.
unfoldable pub total_bytes : Dict Bytes → ℕ
total_bytes [] = 0
total_bytes ((id, blob) ∷ rest) = length blob + total_bytes rest

unfoldable pub aggregate_stats : Tables → StorageStats
unfolding total_bytes
aggregate_stats t = record {
  active_links = active_count t.links;
  ciphertext_bytes = total_bytes t.link_ciphertexts;
}

-- Primary keys are unique.
pub record IsTables (t : Tables) : Type 0 where
  pub links_key : Uniq t.links
  pub ciphertexts_key : Uniq t.link_ciphertexts

-- On tables whose keys are distinct, a prune is the prune step of every cell.
pub cell-prune_terminal :
    (before : ℕ) (t : Tables) (j : Text)
    → IsTables t
    → cell (prune_terminal before t).1 j ≡ Cell.prune_step before (cell t j)
unfolding prune_terminal
cell-prune_terminal before t j h = ground (
  arith,
  get-keep (λ _ row. not (is_prunable before row)) t.links j h.links_key,
  get-keep (λ id _. not (row_is_prunable before (Dict.get id t.links))) t.link_ciphertexts j
      h.ciphertexts_key,
)

cell-expire-purge :
    (now : ℕ) (t : Tables) (j : Text)
    → IsTables t
    → cell (purge_terminal (expire_links now t)) j ≡ Cell.expire_step now (cell t j)
cell-expire-purge now t j h = ground (
  arith,
  get-map_values (expire_row now) t.links j,
  get-keep (λ id _. not (row_is_terminal (Dict.get id (expire_links now t).links)))
      t.link_ciphertexts j h.ciphertexts_key,
)

pub prune_terminal-IsTables :
    (before : ℕ) (t : Tables) → IsTables t → IsTables (prune_terminal before t).1
unfolding prune_terminal
prune_terminal-IsTables before t h = record {
  links_key = keep-Uniq _ t.links h.links_key;
  ciphertexts_key = keep-Uniq _ t.link_ciphertexts h.ciphertexts_key;
}

expire-purge-IsTables :
    (now : ℕ) (t : Tables) → IsTables t → IsTables (purge_terminal (expire_links now t))
expire-purge-IsTables now t h = record {
  links_key = map_values-Uniq (expire_row now) t.links h.links_key;
  ciphertexts_key = keep-Uniq _ t.link_ciphertexts h.ciphertexts_key;
}

pub cell-expire_past_due :
    (retention now later : ℕ) (t : Tables) (j : Text)
    → IsTables t
    → cell (expire_past_due retention now later t).1 j
      ≡ Cell.prune_step (later - retention) (Cell.expire_step now (cell t j))
unfolding expire_past_due
cell-expire_past_due retention now later t j h =
    cell-prune_terminal (later - retention) (purge_terminal (expire_links now t)) j
      (expire-purge-IsTables now t h)
    ∙ ap (Cell.prune_step (later - retention)) (cell-expire-purge now t j h)

pub expire_past_due-IsTables :
    (retention now later : ℕ) (t : Tables)
    → IsTables t
    → IsTables (expire_past_due retention now later t).1
unfolding expire_past_due
expire_past_due-IsTables retention now later t h =
    prune_terminal-IsTables (later - retention) (purge_terminal (expire_links now t))
      (expire-purge-IsTables now t h)
