-- ===== src/Link/History.antt =====
-- Any store that meets the interface, over any sequence of calls.
pub mod Opens
pub mod Blob
use aesmsg.Prelude.{
  ℕ, ◌-◌, ◌≡◌, refl, Bool, true, false, ◌&&◌, Option, none, some, List, [], ◌∷◌, Text, arith,
  text_eq, text_eq_iff, if◌then◌else◌, Bool-cases, inl, inr, All,
}
use aesmsg.Link.{Bytes, LinkMetadata, CreateLinkRecord, IsMaxOpens, is_some}
use aesmsg.Link.Cell
use aesmsg.Link.Cell.{Cell}
use aesmsg.Link.Sound.{
  IsSound, open_step-IsSound, revoke_step-IsSound, expire_step-IsSound, prune_step-IsSound,
  purge_step-IsSound, create_step-IsSound,
}
use aesmsg.Link.Interface.{LinkStore}

-- A call of the store, with the clock readings that it makes.
pub data Call : Type 0 where
  create : CreateLinkRecord → Bytes → Call
  opens : ℕ → Text → Call
  revokes : ℕ → Text → Option Text → Call
  sweeps : ℕ → ℕ → ℕ → Call
  prunes : ℕ → Call
  purges : ℕ → Text → Call

-- What the callers see to: a created link has a bound on its opens that is -1 or positive.
abbrev pub IsCall : Call → Type 0
IsCall (create r bytes) = IsMaxOpens r.max_opens
IsCall (opens now id) = Unit {0}
IsCall (revokes now id provided) = Unit {0}
IsCall (sweeps retention now later) = Unit {0}
IsCall (prunes before) = Unit {0}
IsCall (purges now id) = Unit {0}

second : (a b : Bool) → (a && b) ≡ true → b ≡ true
second a b h = ground arith

module _ (S : LinkStore) where
  open S use {State}

  unfoldable pub step : Call → State → State
  step (create r bytes) s = (S.create_with_ciphertext r bytes s).1
  step (opens now id) s = (S.increment_opens now id s).1
  step (revokes now id provided) s = S.revoke now id provided s
  step (sweeps retention now later) s = (S.expire_past_due retention now later s).1
  step (prunes before) s = (S.prune_terminal before s).1
  step (purges now id) s = (S.admin_purge now id s).1

  unfoldable pub run : List Call → State → State
  unfolding step
  run [] s = s
  run (c ∷ cs) s = run cs (step c s)

  pub step-IsState : (c : Call) (s : State) → S.IsState s → S.IsState (step c s)
  unfolding step
  step-IsState (create r bytes) s h = S.create-IsState r bytes s h
  step-IsState (opens now id) s h = S.increment_opens-IsState now id s h
  step-IsState (revokes now id provided) s h = S.revoke-IsState now id provided s h
  step-IsState (sweeps retention now later) s h = S.expire_past_due-IsState retention now later s h
  step-IsState (prunes before) s h = S.prune_terminal-IsState before s h
  step-IsState (purges now id) s h = S.admin_purge-IsState now id s h

  -- A predicate that the cell's step keeps is kept by an operation on one id.
  pub keep_local :
      (P : Cell → Type 0) (c c' : Cell) (b : Bool)
      → P c
      → (b ≡ true → P c')
      → P (if b then c' else c)
  keep_local P c c' true h k = k refl
  keep_local P c c' false h k = h

  pub step-IsSound :
      (c : Call) (s : State) (j : Text)
      → S.IsState s
      → IsCall c
      → IsSound j (S.cell s j)
      → IsSound j (S.cell (step c s) j)
  unfolding step
  step-IsSound (create r bytes) s j h ok k = rw (S.cell-create r bytes s j h) (
      keep_local (IsSound j) (S.cell s j) _ _ k (λ e.
        create_step-IsSound r bytes j (S.cell s j) ((text_eq_iff r.id j).0 (second _ _ e)) ok k))
  step-IsSound (opens now id) s j h ok k =
      rw (S.cell-increment_opens now id j s)
        (keep_local (IsSound j) (S.cell s j) _ _ k (λ e. open_step-IsSound now j (S.cell s j) k))
  step-IsSound (revokes now id provided) s j h ok k = rw (S.cell-revoke now id j s provided) (
      keep_local (IsSound j) (S.cell s j) _ _ k
        (λ e. revoke_step-IsSound (S.is_authorized provided) now j (S.cell s j) k))
  step-IsSound (sweeps retention now later) s j h ok k =
      rw (S.cell-expire_past_due retention now later s j h) (
        prune_step-IsSound (later - retention) j (Cell.expire_step now (S.cell s j))
          (expire_step-IsSound now j (S.cell s j) k))
  step-IsSound (prunes before) s j h ok k =
      rw (S.cell-prune_terminal before s j h) (prune_step-IsSound before j (S.cell s j) k)
  step-IsSound (purges now id) s j h ok k =
      rw (S.cell-admin_purge now id j s)
        (keep_local (IsSound j) (S.cell s j) _ _ k (λ e. purge_step-IsSound now j (S.cell s j) k))

  -- From a state whose links are all sound, after any calls whose creates carry a bound on opens that is
  -- -1 or positive, every link is sound.
  pub run-IsSound :
      (cs : List Call) (s : State)
      → All IsCall cs
      → S.IsState s
      → ((j : Text) → IsSound j (S.cell s j))
      → (j : Text) → IsSound j (S.cell (run cs s) j)
  unfolding run
  run-IsSound [] s ok h k j = k j
  run-IsSound (c ∷ cs) s ok h k j =
      run-IsSound cs (step c s) ok.1 (step-IsState c s h) (λ i. step-IsSound c s i h ok.0 (k i)) j
