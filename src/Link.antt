-- ===== src/Link.antt =====
-- The data of a link: packages/server-store/src/types.ts and interfaces.ts.
-- A `Date` is its time value in milliseconds, from 1970 on.
pub mod Cell
pub mod Sound
pub mod Interface
pub mod History
use aesmsg.Prelude.{ℕ, ◌≤◌, Bool, true, false, Option, none, some, List, Text, leb, ◌==◌}

-- `negsuc n` is -(n + 1).
pub data ℤ : Type 0 where
  pos : ℕ → ℤ
  negsuc : ℕ → ℤ

abbrev pub Bytes : Type 0
Bytes = List ℕ

pub data LinkStatus : Type 0 where
  active revoked expired : LinkStatus

pub record LinkMetadata : Type 0 where
  pub id : Text
  pub status : LinkStatus
  pub created_at : Option ℕ
  pub expires_at : ℕ
  pub max_opens : ℤ
  pub opens_count : ℕ

pub record CreateLinkRecord : Type 0 where
  pub id : Text
  pub expires_at : ℕ
  pub max_opens : ℤ
  pub revocation_token_hash : Option Text

-- `status === "active"` and its complement on the two terminal values.
abbrev pub is_active : LinkStatus → Bool
is_active active = true
is_active revoked = false
is_active expired = false

abbrev pub is_terminal : LinkStatus → Bool
is_terminal active = false
is_terminal revoked = true
is_terminal expired = true

-- `maxOpens === -1`
abbrev pub is_unlimited : ℤ → Bool
is_unlimited (pos n) = false
is_unlimited (negsuc n) = n == 0

-- `count >= maxOpens`
abbrev pub reaches : ℕ → ℤ → Bool
reaches count (pos n) = leb n count
reaches count (negsuc n) = true

-- What `LinkMetadata.maxOpens` may be: -1, or a positive integer.
abbrev pub IsMaxOpens : ℤ → Type 0
IsMaxOpens (pos n) = 1 ≤ n
IsMaxOpens (negsuc n) = n ≤ 0

pub record AdminPurgeResult : Type 0 where
  pub found : Bool
  pub was_active : Bool
  pub ciphertext_removed : Bool

abbrev pub is_some {ℓ} : {A : Type ℓ} → Option A → Bool
is_some none = false
is_some (some a) = true

-- `row?.status === "active"`
abbrev pub was_active : Option LinkMetadata → Bool
was_active none = false
was_active (some row) = is_active row.status
