-- ===== src/Link/Sound.antt =====
-- The invariant of a link in a store of packages/server-store/src.
use aesmsg.Prelude.{ℕ, ◌≤◌, ◌<◌, ◌≡◌, Bool, true, Option, none, some, Text, arith}
use aesmsg.Link.{
  ℤ, Bytes, LinkStatus, active, revoked, expired, LinkMetadata, CreateLinkRecord, IsMaxOpens, pos,
  negsuc, is_some,
}
use aesmsg.Link.Cell
use aesmsg.Link.Cell.{Cell}

-- The opens that are counted stay within the bound; an active link has one left.
abbrev pub HasOpensLeft : ℕ → ℤ → Type 0
HasOpensLeft count (pos n) = count < n
HasOpensLeft count (negsuc n) = n ≤ 0

abbrev pub WithinOpens : ℕ → ℤ → Type 0
WithinOpens count (pos n) = count ≤ n
WithinOpens count (negsuc n) = n ≤ 0

-- An active link has its ciphertext and is not stamped; a retired one is stamped and has none.
abbrev pub SoundStatus : LinkStatus → LinkMetadata → Cell → Type 0
SoundStatus active row c =
    (is_some c.blob ≡ true) × (c.terminal_at ≡ none) × HasOpensLeft row.opens_count row.max_opens
SoundStatus revoked row c =
    (c.blob ≡ none) × (is_some c.terminal_at ≡ true) × WithinOpens row.opens_count row.max_opens
SoundStatus expired row c =
    (c.blob ≡ none) × (is_some c.terminal_at ≡ true) × WithinOpens row.opens_count row.max_opens

abbrev pub SoundRow : Text → Option LinkMetadata → Cell → Type 0
SoundRow id none c = (c.hash ≡ none) × (c.terminal_at ≡ none) × (c.blob ≡ none)
SoundRow id (some row) c = (row.id ≡ id) × SoundStatus row.status row c

-- Nothing is kept under an id that has no row.
abbrev pub IsSound : Text → Cell → Type 0
IsSound id c = SoundRow id c.row c

pub open_step-IsSound :
    (now : ℕ) (id : Text) (c : Cell) → IsSound id c → IsSound id (Cell.open_step now c)
open_step-IsSound now id c h = ground arith

pub revoke_step-IsSound :
    (authorized : Option (Option Text) → Bool) (now : ℕ) (id : Text) (c : Cell)
    → IsSound id c
    → IsSound id (Cell.revoke_step authorized now c)
revoke_step-IsSound authorized now id c h = ground arith

pub expire_step-IsSound :
    (now : ℕ) (id : Text) (c : Cell) → IsSound id c → IsSound id (Cell.expire_step now c)
expire_step-IsSound now id c h = ground arith

pub prune_step-IsSound :
    (cutoff : ℕ) (id : Text) (c : Cell) → IsSound id c → IsSound id (Cell.prune_step cutoff c)
prune_step-IsSound cutoff id c h = ground arith

pub purge_step-IsSound :
    (now : ℕ) (id : Text) (c : Cell) → IsSound id c → IsSound id (Cell.purge_step now c)
purge_step-IsSound now id c h = ground arith

pub create_step-IsSound :
    (r : CreateLinkRecord) (bytes : Bytes) (id : Text) (c : Cell)
    → r.id ≡ id
    → IsMaxOpens r.max_opens
    → IsSound id c
    → IsSound id (Cell.create_step r bytes c)
create_step-IsSound r bytes id c e m h = ground arith
