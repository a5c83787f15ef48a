-- ===== src/Agreement/Counts.antt =====
-- How many opens a call of packages/server-store/src/pg adds to a link.
use aesmsg.Prelude.{
  ℕ, ◌+◌, ◌-◌, ◌≤◌, Bool, true, false, ◌&&◌, Option, Text, text_eq, arith, if◌then◌else◌,
}
use aesmsg.Link.{Bytes, CreateLinkRecord, is_some}
use aesmsg.Link.Cell
use aesmsg.Link.Cell.{Cell}
use aesmsg.Link.History.{Call, create, opens, revokes, sweeps, prunes, purges, step}
use aesmsg.Pg.{Tables}
use aesmsg.Pg.Sweep.{IsTables}
use aesmsg.Pg.Impl.{pg_links}
use aesmsg.Pg.Overflow.{count_of}

count_if :
    (b : Bool) (c c' : Cell)
    → count_of c' ≤ count_of c + 1
    → count_of (if b then c' else c) ≤ count_of c + 1
count_if true c c' h = h
count_if false c c' h = omega arith

count_create :
    (r : CreateLinkRecord) (bytes : Bytes) (c : Cell)
    → count_of (Cell.create_step r bytes c) ≤ count_of c + 1
count_create r bytes c = ground arith

count_open : (now : ℕ) (c : Cell) → count_of (Cell.open_step now c) ≤ count_of c + 1
count_open now c = ground arith

count_revoke :
    (authorized : Option (Option Text) → Bool) (now : ℕ) (c : Cell)
    → count_of (Cell.revoke_step authorized now c) ≤ count_of c + 1
count_revoke authorized now c = ground arith

count_expire : (now : ℕ) (c : Cell) → count_of (Cell.expire_step now c) ≤ count_of c
count_expire now c = ground arith

count_prune : (cutoff : ℕ) (c : Cell) → count_of (Cell.prune_step cutoff c) ≤ count_of c
count_prune cutoff c = ground arith

count_purge : (now : ℕ) (c : Cell) → count_of (Cell.purge_step now c) ≤ count_of c + 1
count_purge now c = ground arith

-- No call counts more than one open of a link.
pub count_step :
    (c : Call) (t : Tables) (j : Text)
    → IsTables t
    → count_of (pg_links.cell (step pg_links c t) j) ≤ count_of (pg_links.cell t j) + 1
unfolding step
count_step (create r bytes) t j k = rw (pg_links.cell-create r bytes t j k) (
    count_if (is_some (pg_links.create_with_ciphertext r bytes t).0 && text_eq r.id j)
      (pg_links.cell t j) (Cell.create_step r bytes (pg_links.cell t j))
      (count_create r bytes (pg_links.cell t j)))
count_step (opens now i) t j k = rw (pg_links.cell-increment_opens now i j t) (
    count_if (text_eq i j) (pg_links.cell t j) (Cell.open_step now (pg_links.cell t j))
      (count_open now (pg_links.cell t j)))
count_step (revokes now i provided) t j k = rw (pg_links.cell-revoke now i j t provided) (
    count_if (text_eq i j) (pg_links.cell t j)
      (Cell.revoke_step (pg_links.is_authorized provided) now (pg_links.cell t j))
      (count_revoke (pg_links.is_authorized provided) now (pg_links.cell t j)))
count_step (sweeps retention now later) t j k =
    let flipped = Cell.expire_step now (pg_links.cell t j) in
    rw (pg_links.cell-expire_past_due retention now later t j k)
      (omega (arith, count_prune (later - retention) flipped, count_expire now (pg_links.cell t j)))
count_step (prunes before) t j k =
    rw (pg_links.cell-prune_terminal before t j k)
      (omega (arith, count_prune before (pg_links.cell t j)))
count_step (purges now i) t j k = rw (pg_links.cell-admin_purge now i j t) (
    count_if (text_eq i j) (pg_links.cell t j) (Cell.purge_step now (pg_links.cell t j))
      (count_purge now (pg_links.cell t j)))
