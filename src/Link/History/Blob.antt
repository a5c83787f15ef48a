-- ===== src/Link/History/Blob.antt =====
-- The open handler reads the ciphertext before it counts the open: what other calls may do between.
use aesmsg.Prelude.{
  ℕ, ◌-◌, ◌≡◌, refl, sym, ◌∙◌, ◌⊎◌, Bool, ◌&&◌, Option, none, some, List, [], ◌∷◌, Text, arith,
  text_eq, inl, inr, All,
}
use aesmsg.Link.{Bytes, LinkMetadata, is_some}
use aesmsg.Link.Cell
use aesmsg.Link.Cell.{Cell}
use aesmsg.Link.Sound.{IsSound}
use aesmsg.Link.Interface.{LinkStore, open_result}
use aesmsg.Link.History.{
  Call, create, opens, revokes, sweeps, prunes, purges, step, run, IsCall, step-IsState,
  run-IsSound, second, keep_local,
}
use aesmsg.Link.History.Opens.{KeepsId}

-- The ciphertext is still `b`, or it is gone.
abbrev Keeps : Option Bytes → Cell → Type 0
Keeps b c = (c.blob ≡ b) ⊎ (c.blob ≡ none)

open_step-Keeps :
    (now : ℕ) (b : Option Bytes) (c : Cell) → Keeps b c → Keeps b (Cell.open_step now c)
open_step-Keeps now b c h = ground arith

revoke_step-Keeps :
    (authorized : Option (Option Text) → Bool) (now : ℕ) (b : Option Bytes) (c : Cell)
    → Keeps b c
    → Keeps b (Cell.revoke_step authorized now c)
revoke_step-Keeps authorized now b c h = ground arith

expire_step-Keeps :
    (now : ℕ) (b : Option Bytes) (c : Cell) → Keeps b c → Keeps b (Cell.expire_step now c)
expire_step-Keeps now b c h = ground arith

prune_step-Keeps :
    (cutoff : ℕ) (b : Option Bytes) (c : Cell) → Keeps b c → Keeps b (Cell.prune_step cutoff c)
prune_step-Keeps cutoff b c h = ground arith

purge_step-Keeps :
    (now : ℕ) (b : Option Bytes) (c : Cell) → Keeps b c → Keeps b (Cell.purge_step now c)
purge_step-Keeps now b c h = ground arith

-- A sound link that an open finds live has its ciphertext.
opened_blob :
    (id : Text) (now : ℕ) (c : Cell) (row : LinkMetadata)
    → IsSound id c
    → open_result now c.row ≡ some row
    → (blob : Bytes) × (c.blob ≡ some blob)
opened_blob id now c row h e = ground arith

same_blob :
    (b : Option Bytes) (c : Cell) (blob : Bytes) → Keeps b c → c.blob ≡ some blob → b ≡ some blob
same_blob b c blob (inl k) e = sym k ∙ e
same_blob b c blob (inr k) e = absurd (cc)

module _ (S : LinkStore) (id : Text) where
  step-Keeps :
      (c : Call) (s : S.State) (b : Option Bytes)
      → S.IsState s
      → KeepsId id c
      → Keeps b (S.cell s id)
      → Keeps b (S.cell (step S c s) id)
  unfolding step
  step-Keeps (create r bytes) s b h k l = rw (S.cell-create r bytes s id h) (
      keep_local S (Keeps b) (S.cell s id) (Cell.create_step r bytes (S.cell s id))
        (is_some (S.create_with_ciphertext r bytes s).0 && text_eq r.id id) l
        (λ e. absurd (cc (k, second (is_some (S.create_with_ciphertext r bytes s).0) _ e))))
  step-Keeps (opens now i) s b h k l =
      rw (S.cell-increment_opens now i id s)
        (keep_local S (Keeps b) (S.cell s id) _ _ l (λ e. open_step-Keeps now b (S.cell s id) l))
  step-Keeps (revokes now i provided) s b h k l = rw (S.cell-revoke now i id s provided) (
      keep_local S (Keeps b) (S.cell s id) _ _ l
        (λ e. revoke_step-Keeps (S.is_authorized provided) now b (S.cell s id) l))
  step-Keeps (sweeps retention now later) s b h k l =
      rw (S.cell-expire_past_due retention now later s id h) (
        prune_step-Keeps (later - retention) b (Cell.expire_step now (S.cell s id))
          (expire_step-Keeps now b (S.cell s id) l))
  step-Keeps (prunes before) s b h k l =
      rw (S.cell-prune_terminal before s id h) (prune_step-Keeps before b (S.cell s id) l)
  step-Keeps (purges now i) s b h k l =
      rw (S.cell-admin_purge now i id s)
        (keep_local S (Keeps b) (S.cell s id) _ _ l (λ e. purge_step-Keeps now b (S.cell s id) l))

  run-Keeps :
      (cs : List Call) (s : S.State) (b : Option Bytes)
      → S.IsState s
      → All (KeepsId id) cs
      → Keeps b (S.cell s id)
      → Keeps b (S.cell (run S cs s) id)
  unfolding run
  run-Keeps [] s b h k l = l
  run-Keeps (c ∷ cs) s b h k l =
      run-Keeps cs (step S c s) b (step-IsState S c s h) k.1 (step-Keeps c s b h k.0 l)

  -- From a state whose links are all sound, whatever calls run between the reading of the ciphertext and the count of the open, as long as
  -- none of them creates the link anew, or a link whose bound on opens is not -1 or positive: if the open returns a row, then what was read is the
  -- ciphertext of the link, and it was there until the open.
  pub opened-blob_read_before :
      (cs : List Call) (s : S.State) (now : ℕ) (row : LinkMetadata)
      → All IsCall cs
      → All (KeepsId id) cs
      → S.IsState s
      → ((j : Text) → IsSound j (S.cell s j))
      → (S.increment_opens now id (run S cs s)).0 ≡ some row
      → (blob : Bytes) × (S.get_blob id s ≡ some blob) × ((S.cell (run S cs s) id).blob ≡ some blob)
  opened-blob_read_before cs s now row ok k h sound e =
      let t = run S cs s in
      let (blob, at_open) =
        opened_blob id now (S.cell t id) row (run-IsSound S cs s ok h sound id)
          (sym (S.increment_opens_lem now id t) ∙ e) in
      (
        blob,
        S.get_blob_lem id s
            ∙ same_blob (S.cell s id).blob (S.cell t id) blob
                (run-Keeps cs s (S.cell s id).blob h k (inl refl)) at_open,
        at_open,
      )
