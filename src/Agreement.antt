-- ===== src/Agreement.antt =====
-- The two implementations of LinkMetadataStore and CiphertextStore in packages/server-store/src,
-- memory and pg, over the same calls.
mod Counts
use aesmsg.Prelude.{
  ℕ, ◌+◌, ◌≤◌, ◌<◌, length, true, false, some, ◌-◌, ◌≡◌, refl, sym, ap, ◌∙◌, Bool, ◌&&◌, Option,
  none, List, [], ◌∷◌, Text, arith, text_eq, text_eq_refl, if◌then◌else◌, Option-cases, inl, inr,
  All,
}
use aesmsg.Dict.{get-set}
use aesmsg.Link.{Bytes, CreateLinkRecord, IsMaxOpens, ℤ, is_some}
use aesmsg.Link.Cell
use aesmsg.Link.Cell.{Cell}
use aesmsg.Link.Sound.{IsSound}
use aesmsg.Link.History.{
  Call, create, opens, revokes, sweeps, prunes, purges, step, run, IsCall, step-IsState,
  step-IsSound,
}
use aesmsg.Agreement.Counts.{count_step}
use aesmsg.Memory.{MemoryStore}
use aesmsg.Memory.Step.{create_with_ciphertext-fresh}
use aesmsg.Memory.Impl.{memory_links, IsState}
use aesmsg.Pg.{Tables, fits_max_opens, new_link}
use aesmsg.Pg
use aesmsg.Pg.Overflow
use aesmsg.Pg.Overflow.{count_of, max_integer}
use aesmsg.Pg.Sweep.{IsTables}
use aesmsg.Pg.Impl.{pg_links}

-- The longest retention whose cutoff is a valid `Date` whatever the clock.
abbrev max_retention_ms : ℕ
max_retention_ms = 8_640_000_000_000_000

-- Every created link has a bound on its opens that the column of Postgres holds, and every sweep a
-- retention that leaves the cutoff a date.
abbrev pub Fits : Call → Type 0
Fits (create r bytes) = fits_max_opens r.max_opens ≡ true
Fits (opens now id) = Unit {0}
Fits (revokes now id provided) = Unit {0}
Fits (sweeps retention now later) = retention ≤ max_retention_ms
Fits (prunes before) = Unit {0}
Fits (purges now id) = Unit {0}

fits-IsMaxOpens : (m : ℤ) → fits_max_opens m ≡ true → IsMaxOpens m
fits-IsMaxOpens m h = ground arith

Fits-IsCall : (c : Call) → Fits c → IsCall c
Fits-IsCall (create r bytes) h = fits-IsMaxOpens r.max_opens h
Fits-IsCall (opens now id) h = tt
Fits-IsCall (revokes now id provided) h = tt
Fits-IsCall (sweeps retention now later) h = tt
Fits-IsCall (prunes before) h = tt
Fits-IsCall (purges now id) h = tt

authorized_alike :
    (provided : Option Text) (o : Option (Option Text))
    → memory_links.is_authorized provided o ≡ pg_links.is_authorized provided o
authorized_alike provided o = ground arith

revoke_alike :
    (now : ℕ) (provided : Option Text) (c : Cell)
    → Cell.revoke_step (memory_links.is_authorized provided) now c
      ≡ Cell.revoke_step (pg_links.is_authorized provided) now c
revoke_alike now provided c = ground (arith, authorized_alike provided c.hash)

-- A free id of a sound link has no ciphertext either.
free_blob : (id : Text) (c : Cell) → IsSound id c → c.row ≡ none → c.blob ≡ none
free_blob id c h e = ground arith

memory_create_free :
    (r : CreateLinkRecord) (bytes : Bytes) (s : MemoryStore)
    → IsState s
    → (memory_links.cell s r.id).row ≡ none
    → is_some (memory_links.create_with_ciphertext r bytes s).0 ≡ true
memory_create_free r bytes s h e = elim (Option-cases s.ciphertexts) [
  | inl none_wired ↦ absurd (ground (arith, h.wired))
  | inr (d, wired) ↦ rw (create_with_ciphertext-fresh r bytes (r.id) s d wired e) refl
]

pg_create_free :
    (r : CreateLinkRecord) (bytes : Bytes) (t : Tables)
    → fits_max_opens r.max_opens ≡ true
    → (pg_links.cell t r.id).row ≡ none
    → (pg_links.cell t r.id).blob ≡ none
    → is_some (pg_links.create_with_ciphertext r bytes t).0 ≡ true
unfolding Pg.create_with_ciphertext
pg_create_free r bytes t fits e b =
    ground (arith, fits, get-set r.id r.id (new_link r) t.links, text_eq_refl r.id)

-- A create succeeds in both stores, or in neither.
create_alike :
    (r : CreateLinkRecord) (bytes : Bytes) (s : MemoryStore) (t : Tables)
    → fits_max_opens r.max_opens ≡ true
    → IsState s
    → IsSound r.id (memory_links.cell s r.id)
    → memory_links.cell s r.id ≡ pg_links.cell t r.id
    → is_some (memory_links.create_with_ciphertext r bytes s).0
      ≡ is_some (pg_links.create_with_ciphertext r bytes t).0
create_alike r bytes s t fits h sound same = elim (Option-cases (memory_links.cell s r.id).row) [
  | inl e ↦
      memory_create_free r bytes s h e
      ∙ sym (
          pg_create_free r bytes t fits (ap (λ (c : Cell). c.row) (sym same) ∙ e) (
            ap (λ (c : Cell). c.blob) (sym same)
            ∙ free_blob r.id (memory_links.cell s r.id) sound e))
  | inr (row, e) ↦
      ap is_some (memory_links.create_taken r bytes s row e)
      ∙ ap is_some
          (sym (pg_links.create_taken r bytes t row (ap (λ (c : Cell). c.row) (sym same) ∙ e)))
]

-- The two stores keep the same of every link.
abbrev pub Agree : MemoryStore → Tables → Type 0
Agree s t = (j : Text) → memory_links.cell s j ≡ pg_links.cell t j

abbrev AllSound : MemoryStore → Type 0
AllSound s = (j : Text) → IsSound j (memory_links.cell s j)

-- A step on one id, taken on both sides.
both :
    (f : Cell → Cell) (b : Bool) (c c' : Cell)
    → c ≡ c'
    → (if b then f c else c) ≡ (if b then f c' else c')
both f b c c' e = ap (λ (x : Cell). if b then f x else x) e

step-Agree :
    (c : Call) (s : MemoryStore) (t : Tables)
    → Fits c
    → IsState s
    → IsTables t
    → AllSound s
    → Agree s t
    → Agree (step memory_links c s) (step pg_links c t)
unfolding step
step-Agree (create r bytes) s t f h k sound same j =
    memory_links.cell-create r bytes s j h
    ∙ ap
        (λ (b : Bool).
          if b && text_eq r.id j
          then Cell.create_step r bytes (memory_links.cell s j)
          else memory_links.cell s j)
        (create_alike r bytes s t f h (sound r.id) (same r.id))
    ∙ both (Cell.create_step r bytes) _ (memory_links.cell s j) (pg_links.cell t j) (same j)
    ∙ sym (pg_links.cell-create r bytes t j k)
step-Agree (opens now i) s t f h k sound same j =
    memory_links.cell-increment_opens now i j s
    ∙ both (Cell.open_step now) (text_eq i j) (memory_links.cell s j) (pg_links.cell t j) (same j)
    ∙ sym (pg_links.cell-increment_opens now i j t)
step-Agree (revokes now i provided) s t f h k sound same j =
    memory_links.cell-revoke now i j s provided
    ∙ both (Cell.revoke_step (memory_links.is_authorized provided) now) (text_eq i j)
        (memory_links.cell s j) (pg_links.cell t j) (same j)
    ∙ ap (λ (x : Cell). if text_eq i j then x else pg_links.cell t j)
        (revoke_alike now provided (pg_links.cell t j))
    ∙ sym (pg_links.cell-revoke now i j t provided)
step-Agree (sweeps retention now later) s t f h k sound same j =
    memory_links.cell-expire_past_due retention now later s j h
    ∙ ap (λ (x : Cell). Cell.prune_step (later - retention) (Cell.expire_step now x)) (same j)
    ∙ sym (pg_links.cell-expire_past_due retention now later t j k)
step-Agree (prunes before) s t f h k sound same j =
    memory_links.cell-prune_terminal before s j h
    ∙ ap (Cell.prune_step before) (same j)
    ∙ sym (pg_links.cell-prune_terminal before t j k)
step-Agree (purges now i) s t f h k sound same j =
    memory_links.cell-admin_purge now i j s
    ∙ both (Cell.purge_step now) (text_eq i j) (memory_links.cell s j) (pg_links.cell t j) (same j)
    ∙ sym (pg_links.cell-admin_purge now i j t)

-- A call of the Postgres store, where an open that throws leaves the tables as they were.
unfoldable pub pg_step : Call → Tables → Tables
unfolding Overflow.increment_opens step
pg_step (opens now id) t = elim (Overflow.increment_opens now id t) [
  | none ↦ t
  | some (row, t') ↦ t'
]
pg_step c t = step pg_links c t

unfoldable pub pg_run : List Call → Tables → Tables
unfolding pg_step
pg_run [] t = t
pg_run (c ∷ cs) t = pg_run cs (pg_step c t)

pg_step_lem :
    (c : Call) (t : Tables)
    → ((j : Text) → count_of (pg_links.cell t j) < max_integer)
    → pg_step c t ≡ step pg_links c t
unfolding pg_step step
pg_step_lem (opens now id) t h = rw (pg_step, Overflow.increment_opens_lem now id t (h id)) refl
pg_step_lem (create r bytes) t h = refl
pg_step_lem (revokes now id provided) t h = refl
pg_step_lem (sweeps retention now later) t h = refl
pg_step_lem (prunes before) t h = refl
pg_step_lem (purges now id) t h = refl

-- From a memory store and tables that keep the same sound links, after any sequence of calls whose
-- creates have a bound on opens that fits the column, whose sweeps have a retention of at most
-- 8,640,000,000,000,000 ms, and which are too few to count any link past 2 ^ 31 - 1 opens, both keep
-- the same of every link.
pub run-Agree :
    (cs : List Call) (s : MemoryStore) (t : Tables)
    → All Fits cs
    → IsState s
    → IsTables t
    → AllSound s
    → ((j : Text) → count_of (pg_links.cell t j) + length cs ≤ max_integer)
    → Agree s t
    → Agree (run memory_links cs s) (pg_run cs t)
unfolding run pg_run
run-Agree [] s t f h k sound few same = same
run-Agree (c ∷ cs) s t f h k sound few same =
    let stepped = pg_step_lem c t (λ j. omega (arith, few j)) in
    rw (pg_run, stepped)
      (run-Agree cs (step memory_links c s) (step pg_links c t) f.1
        (step-IsState memory_links c s h) (step-IsState pg_links c t k)
        (λ j. step-IsSound memory_links c s j h (Fits-IsCall c f.0) (sound j))
        (λ j. omega (arith, few j, count_step c t j k)) (step-Agree c s t f.0 h k sound same))
