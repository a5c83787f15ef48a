-- ===== src/Link/History/Opens.antt =====
-- How many opens a link hands out, whatever calls are interleaved with them.
use aesmsg.Prelude.{
  ℕ, ◌+◌, ◌-◌, ◌≤◌, ◌<◌, ◌≡◌, Bool, true, false, ◌&&◌, Option, none, some, List, [], ◌∷◌, Text,
  arith, text_eq, text_eq_iff, Bool-cases, inl, inr, All,
}
use aesmsg.Link.{pos, LinkMetadata, is_active, is_some}
use aesmsg.Link.Cell
use aesmsg.Link.Cell.{Cell}
use aesmsg.Link.Sound.{IsSound}
use aesmsg.Link.Interface.{LinkStore, open_result}
use aesmsg.Link.History.{
  Call, create, opens, revokes, sweeps, prunes, purges, step, step-IsState, second, keep_local,
}

-- At most `b` opens are left of the `n` that the link allows.
abbrev AtMostLeft : ℕ → ℕ → LinkMetadata → Type 0
AtMostLeft n b row =
    (row.max_opens ≡ pos n)
    × (is_active row.status ≡ true → (row.opens_count < n) × (n ≤ row.opens_count + b))

abbrev LeftOf : ℕ → ℕ → Option LinkMetadata → Type 0
LeftOf n b none = Unit {0}
LeftOf n b (some row) = AtMostLeft n b row

abbrev Left : ℕ → ℕ → Cell → Type 0
Left n b c = LeftOf n b c.row

abbrev one_if : Bool → ℕ
one_if true = 1
one_if false = 0

-- A successful open uses up one.
open_uses_one :
    (now n b : ℕ) (c : Cell)
    → Left n b c
    → (one_if (is_some (open_result now c.row)) ≤ b)
      × Left n (b - one_if (is_some (open_result now c.row))) (Cell.open_step now c)
open_uses_one now n b c h = ground arith

revoke_step-Left :
    (authorized : Option (Option Text) → Bool) (now n b : ℕ) (c : Cell)
    → Left n b c
    → Left n b (Cell.revoke_step authorized now c)
revoke_step-Left authorized now n b c h = ground arith

expire_step-Left : (now n b : ℕ) (c : Cell) → Left n b c → Left n b (Cell.expire_step now c)
expire_step-Left now n b c h = ground arith

prune_step-Left : (cutoff n b : ℕ) (c : Cell) → Left n b c → Left n b (Cell.prune_step cutoff c)
prune_step-Left cutoff n b c h = ground arith

purge_step-Left : (now n b : ℕ) (c : Cell) → Left n b c → Left n b (Cell.purge_step now c)
purge_step-Left now n b c h = ground arith

unused : (n b : ℕ) (c : Cell) → Left n b c → (0 ≤ b) × Left n (b - 0) c
unused n b c l = ground arith

sound-Left :
    (id : Text) (c : Cell) (row : LinkMetadata) (n : ℕ)
    → IsSound id c
    → c.row ≡ some row
    → row.max_opens ≡ pos n
    → Left n (n - row.opens_count) c
sound-Left id c row n h e m = ground arith

-- The call does not create the link anew.
abbrev pub KeepsId : Text → Call → Type 0
KeepsId id (create r bytes) = text_eq r.id id ≡ false
KeepsId id (opens now i) = Unit {0}
KeepsId id (revokes now i provided) = Unit {0}
KeepsId id (sweeps retention now later) = Unit {0}
KeepsId id (prunes before) = Unit {0}
KeepsId id (purges now i) = Unit {0}

module _ (S : LinkStore) (id : Text) where
  open S use {State}

  -- 1 for an open of this link that returns its row.
  pub delivers : Call → State → ℕ
  delivers (create r bytes) s = 0
  delivers (opens now i) s = one_if (text_eq i id && is_some (S.increment_opens now i s).0)
  delivers (revokes now i provided) s = 0
  delivers (sweeps retention now later) s = 0
  delivers (prunes before) s = 0
  delivers (purges now i) s = 0

  pub deliveries : List Call → State → ℕ
  unfolding delivers
  deliveries [] s = 0
  deliveries (c ∷ cs) s = delivers c s + deliveries cs (step S c s)

  step-Left :
      (c : Call) (s : State) (n b : ℕ)
      → S.IsState s
      → KeepsId id c
      → Left n b (S.cell s id)
      → (delivers c s ≤ b) × Left n (b - delivers c s) (S.cell (step S c s) id)
  unfolding delivers step
  step-Left (create r bytes) s n b h k l = unused n b (S.cell (step S (create r bytes) s) id) (
      rw (S.cell-create r bytes s id h) (
        keep_local S (Left n b) (S.cell s id) (Cell.create_step r bytes (S.cell s id))
          (is_some (S.create_with_ciphertext r bytes s).0 && text_eq r.id id) l
          (λ e. cc (k, second (is_some (S.create_with_ciphertext r bytes s).0) _ e))))
  step-Left (opens now i) s n b h k l = elim (Bool-cases (text_eq i id)) [
    | inl e ↦
        rw
          (
            e,
            S.increment_opens_lem now i s,
            S.cell-increment_opens now i id s,
            e,
            (text_eq_iff i id).0 e,
          )
          (open_uses_one now n b (S.cell s id) l)
    | inr e ↦ rw (e, S.cell-increment_opens now i id s, e) (unused n b (S.cell s id) l)
  ]
  step-Left (revokes now i provided) s n b h k l =
      unused n b (S.cell (step S (revokes now i provided) s) id) (
        rw (S.cell-revoke now i id s provided) (
          keep_local S (Left n b) (S.cell s id) _ _ l
            (λ e. revoke_step-Left (S.is_authorized provided) now n b (S.cell s id) l)))
  step-Left (sweeps retention now later) s n b h k l =
      unused n b (S.cell (step S (sweeps retention now later) s) id) (
        rw (S.cell-expire_past_due retention now later s id h) (
          prune_step-Left (later - retention) n b (Cell.expire_step now (S.cell s id))
            (expire_step-Left now n b (S.cell s id) l)))
  step-Left (prunes before) s n b h k l =
      unused n b (S.cell (step S (prunes before) s) id)
        (rw (S.cell-prune_terminal before s id h) (prune_step-Left before n b (S.cell s id) l))
  step-Left (purges now i) s n b h k l = unused n b (S.cell (step S (purges now i) s) id) (
      rw (S.cell-admin_purge now i id s) (
        keep_local S (Left n b) (S.cell s id) _ _ l (λ e. purge_step-Left now n b (S.cell s id) l)))

  deliveries-le-Left :
      (cs : List Call) (s : State) (n b : ℕ)
      → S.IsState s
      → All (KeepsId id) cs
      → Left n b (S.cell s id)
      → deliveries cs s ≤ b
  unfolding deliveries
  deliveries-le-Left [] s n b h k l = omega arith
  deliveries-le-Left (c ∷ cs) s n b h k l =
      let (now_le, rest) = step-Left c s n b h k.0 l in
      omega (
        arith,
        deliveries-le-Left cs (step S c s) n (b - delivers c s) (step-IsState S c s h) k.1 rest,
      )

  -- A sound link that allows `n` opens and has counted some hands out at most the rest, whatever opens of
  -- any client, revocations, sweeps and other calls follow in whatever order, as long as no call
  -- creates the link anew.
  pub deliveries-le-max_opens :
      (cs : List Call) (s : State) (row : LinkMetadata) (n : ℕ)
      → S.IsState s
      → All (KeepsId id) cs
      → IsSound id (S.cell s id)
      → (S.cell s id).row ≡ some row
      → row.max_opens ≡ pos n
      → deliveries cs s ≤ n - row.opens_count
  deliveries-le-max_opens cs s row n h k sound e m =
      deliveries-le-Left cs s n (n - row.opens_count) h k
        (sound-Left id (S.cell s id) row n sound e m)
