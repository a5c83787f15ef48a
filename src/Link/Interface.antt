-- ===== src/Link/Interface.antt =====
-- LinkMetadataStore and CiphertextStore of packages/server-store/src/interfaces.ts: the operations
-- that the API and the worker call, and their laws, by the steps of one link.
use aesmsg.Prelude.{ℕ, ◌-◌, ◌≡◌, Bool, ◌&&◌, Option, none, some, Text, text_eq, if◌then◌else◌, true}
use aesmsg.Link.{Bytes, LinkMetadata, CreateLinkRecord, AdminPurgeResult, is_some}
use aesmsg.ConstantTime.{hash_matches}
use aesmsg.Link.Cell
use aesmsg.Link.Cell.{Cell}

abbrev pub after_row : ℕ → LinkMetadata → Option LinkMetadata
after_row now row =
    if Cell.is_live now row
    then (Cell.open_row now row (record Cell.empty { row = some row })).row
    else none

-- The row that an open returns: the row after the open, or none where the link is not live.
abbrev pub open_result : ℕ → Option LinkMetadata → Option LinkMetadata
open_result now none = none
open_result now (some row) = after_row now row

pub record LinkStore : Type 1 where
  pub State : Type 0
  -- What the store keeps of itself.
  pub IsState : State → Type 0
  pub cell : State → Text → Cell
  pub get : Text → State → Option LinkMetadata
  pub get_blob : Text → State → Option Bytes
  -- `none` is a throw.
  pub create_with_ciphertext : CreateLinkRecord → Bytes → State → Option LinkMetadata × State
  pub increment_opens : ℕ → Text → State → Option LinkMetadata × State
  pub revoke : ℕ → Text → Option Text → State → State
  pub expire_past_due : ℕ → ℕ → ℕ → State → ℕ × State
  pub prune_terminal : ℕ → State → ℕ × State
  pub admin_purge : ℕ → Text → State → AdminPurgeResult × State
  -- How a provided token hash is held against the stored one.
  pub is_authorized : Option Text → Option (Option Text) → Bool
  -- A stored hash wants a matching one; a link with no stored hash wants none.
  pub authorized_tokened :
      (provided : Option Text) (stored : Text)
      → is_authorized provided (some (some stored)) ≡ hash_matches provided stored
  pub authorized_legacy : (provided : Option Text) → is_authorized provided (some none) ≡ true
  pub get_lem : (id : Text) (s : State) → get id s ≡ (cell s id).row
  pub get_blob_lem : (id : Text) (s : State) → get_blob id s ≡ (cell s id).blob
  -- A create writes the link, or throws and leaves every link as it was.
  pub cell-create :
      (r : CreateLinkRecord) (bytes : Bytes) (s : State) (j : Text)
      → IsState s
      → cell (create_with_ciphertext r bytes s).1 j ≡ (
          if is_some (create_with_ciphertext r bytes s).0 && text_eq r.id j
          then Cell.create_step r bytes (cell s j)
          else cell s j)
  pub create_taken :
      (r : CreateLinkRecord) (bytes : Bytes) (s : State) (row : LinkMetadata)
      → (cell s r.id).row ≡ some row
      → (create_with_ciphertext r bytes s).0 ≡ none
  pub cell-increment_opens :
      (now : ℕ) (id j : Text) (s : State)
      → cell (increment_opens now id s).1 j
        ≡ (if text_eq id j then Cell.open_step now (cell s j) else cell s j)
  pub increment_opens_lem :
      (now : ℕ) (id : Text) (s : State)
      → (increment_opens now id s).0 ≡ open_result now (cell s id).row
  pub cell-revoke :
      (now : ℕ) (id j : Text) (s : State) (provided : Option Text)
      → cell (revoke now id provided s) j ≡ (
          if text_eq id j
          then Cell.revoke_step (is_authorized provided) now (cell s j)
          else cell s j)
  pub cell-expire_past_due :
      (retention now later : ℕ) (s : State) (j : Text)
      → IsState s
      → cell (expire_past_due retention now later s).1 j
        ≡ Cell.prune_step (later - retention) (Cell.expire_step now (cell s j))
  pub cell-prune_terminal :
      (before : ℕ) (s : State) (j : Text)
      → IsState s
      → cell (prune_terminal before s).1 j ≡ Cell.prune_step before (cell s j)
  pub cell-admin_purge :
      (now : ℕ) (id j : Text) (s : State)
      → cell (admin_purge now id s).1 j
        ≡ (if text_eq id j then Cell.purge_step now (cell s j) else cell s j)
  pub create-IsState :
      (r : CreateLinkRecord) (bytes : Bytes) (s : State)
      → IsState s
      → IsState (create_with_ciphertext r bytes s).1
  pub increment_opens-IsState :
      (now : ℕ) (id : Text) (s : State) → IsState s → IsState (increment_opens now id s).1
  pub revoke-IsState :
      (now : ℕ) (id : Text) (provided : Option Text) (s : State)
      → IsState s
      → IsState (revoke now id provided s)
  pub expire_past_due-IsState :
      (retention now later : ℕ) (s : State)
      → IsState s
      → IsState (expire_past_due retention now later s).1
  pub prune_terminal-IsState :
      (before : ℕ) (s : State) → IsState s → IsState (prune_terminal before s).1
  pub admin_purge-IsState :
      (now : ℕ) (id : Text) (s : State) → IsState s → IsState (admin_purge now id s).1
