-- ===== src/Memory/Impl.antt =====
-- The memory store, wired with its ciphertext store as apps/api/src/stores/stores.ts does, as a
-- `LinkStore`.
use aesmsg.Prelude.{
  ℕ, ◌-◌, ◌≡◌, refl, true, ◌&&◌, Option, none, some, Text, arith, text_eq, if◌then◌else◌,
  Option-cases, inl, inr,
}
use aesmsg.Dict
use aesmsg.Dict.{Uniq, for_each_inv, set-Uniq, remove-Uniq}
use aesmsg.Link.{Bytes, LinkMetadata, CreateLinkRecord, is_some, revoked}
use aesmsg.Link.Cell
use aesmsg.Link.Cell.{Cell}
use aesmsg.Link.Interface.{LinkStore, open_result}
use aesmsg.Memory.{
  MemoryStore, init, blob_at, create_with_ciphertext, increment_opens, revoke, admin_purge,
  is_authorized, new_meta, updated,
}
use aesmsg.Memory.Step.{
  cell, cell-increment_opens, cell-revoke, cell-admin_purge, cell-create_with_ciphertext,
  create_with_ciphertext-fresh, create_with_ciphertext-taken,
}
use aesmsg.Memory.Sweep.{
  flip_due, purge_terminal, prune_row, prune_terminal, flip_all, purge_all, expire_past_due,
}
use aesmsg.Memory.Sweep.Cells.{
  IsMaps, cell-prune_terminal, cell-expire_past_due, prune_terminal-IsMaps, expire_past_due-IsMaps,
}

abbrev pub IsWired : MemoryStore → Type 0
IsWired s = is_some s.ciphertexts ≡ true

pub record IsState (s : MemoryStore) : Type 0 where
  pub maps : IsMaps s
  pub wired : IsWired s

pub prune_terminal-IsWired :
    (before : ℕ) (s : MemoryStore) → IsWired s → IsWired (prune_terminal before s).1
unfolding prune_terminal
prune_terminal-IsWired before s w =
    for_each_inv (λ t. IsWired t.1) (prune_row before) (λ k v t h. ground arith) s.rows (0, s) w

pub expire_past_due-IsWired :
    (retention now later : ℕ) (s : MemoryStore)
    → IsWired s
    → IsWired (expire_past_due retention now later s).1
unfolding expire_past_due
expire_past_due-IsWired retention now later s w =
    let flipped : IsWired (flip_all now s) =
      for_each_inv IsWired (flip_due now) (λ k v t h. ground arith) s.rows s w in
    let purged : IsWired (purge_all (flip_all now s)).1 =
      for_each_inv (λ t. IsWired t.1) purge_terminal (λ k v t h. ground arith) (flip_all now s).rows
        (0, flip_all now s) flipped in
    elim (Option-cases (flip_all now s).ciphertexts) [
      | inl e ↦ cc
      | inr (d, e) ↦
          rw (e, expire_past_due)
            (prune_terminal-IsWired (later - retention) (purge_all (flip_all now s)).1 purged)
    ]

wired_store : (s : MemoryStore) → IsWired s → (d : Dict.Dict Bytes) × (s.ciphertexts ≡ some d)
wired_store s w = elim (Option-cases s.ciphertexts) [ inl e ↦ absurd (cc) | inr p ↦ p ]

pub increment_opens_lem :
    (now : ℕ) (id : Text) (s : MemoryStore)
    → (increment_opens now id s).0 ≡ open_result now (Dict.get id s.rows)
unfolding increment_opens
increment_opens_lem now id s = ground arith

pub create_taken :
    (r : CreateLinkRecord) (bytes : Bytes) (s : MemoryStore) (row : LinkMetadata)
    → Dict.get r.id s.rows ≡ some row
    → (create_with_ciphertext r bytes s).0 ≡ none
create_taken r bytes s row e = rw (create_with_ciphertext-taken r bytes r.id s row e)

pub cell-create :
    (r : CreateLinkRecord) (bytes : Bytes) (s : MemoryStore) (j : Text)
    → IsState s
    → cell (create_with_ciphertext r bytes s).1 j ≡ (
        if is_some (create_with_ciphertext r bytes s).0 && text_eq r.id j
        then Cell.create_step r bytes (cell s j)
        else cell s j)
cell-create r bytes s j h =
    let (d, e) = wired_store s h.wired in
    elim (Option-cases (Dict.get r.id s.rows)) [
      | inl f ↦ ground (
        arith,
        cell-create_with_ciphertext r bytes j s d e,
        create_with_ciphertext-fresh r bytes r.id s d e f,
      )
      | inr (row, f) ↦ ground (arith, create_with_ciphertext-taken r bytes r.id s row f)
    ]

pub create-IsState :
    (r : CreateLinkRecord) (bytes : Bytes) (s : MemoryStore)
    → IsState s
    → IsState (create_with_ciphertext r bytes s).1
create-IsState r bytes s h =
    let (d, e) = wired_store s h.wired in
    elim (Option-cases (Dict.get r.id s.rows)) [
      | inl f ↦ rw (create_with_ciphertext-fresh r bytes r.id s d e f) (record {
        maps = record { uniq = set-Uniq r.id (new_meta r) s.rows h.maps.uniq };
        wired = refl;
      })
      | inr (row, f) ↦ rw (create_with_ciphertext-taken r bytes r.id s row f) h
    ]

pub increment_opens-IsState :
    (now : ℕ) (id : Text) (s : MemoryStore) → IsState s → IsState (increment_opens now id s).1
unfolding increment_opens
increment_opens-IsState now id s h = elim (Option-cases (Dict.get id s.rows)) [
  | inl e ↦ rw (e, increment_opens) h
  | inr (row, e) ↦
      rw (e, increment_opens)
        (ground (arith, h.wired, h.maps.uniq, set-Uniq id (updated row) s.rows h.maps.uniq))
]

pub revoke-IsState :
    (now : ℕ) (id : Text) (provided : Option Text) (s : MemoryStore)
    → IsState s
    → IsState (revoke now id provided s)
unfolding revoke
revoke-IsState now id provided s h = elim (Option-cases (Dict.get id s.rows)) [
  | inl e ↦ rw (e, revoke) h
  | inr (row, e) ↦
      rw (e, revoke)
        (ground (
          arith,
          h.wired,
          h.maps.uniq,
          set-Uniq id (record row { status = revoked }) s.rows h.maps.uniq,
        ))
]

pub admin_purge-IsState :
    (now : ℕ) (id : Text) (s : MemoryStore) → IsState s → IsState (admin_purge now id s).1
unfolding admin_purge
admin_purge-IsState now id s h = elim (Option-cases (Dict.get id s.rows)) [
  | inl e ↦ rw (e, admin_purge) (ground (arith, h.wired, h.maps.uniq))
  | inr (row, e) ↦
      rw (e, admin_purge)
        (ground (
          arith,
          h.wired,
          h.maps.uniq,
          set-Uniq id (record row { status = revoked }) s.rows h.maps.uniq,
        ))
]

abbrev pub memory_links : LinkStore
memory_links = record {
  State = MemoryStore;
  IsState = IsState;
  cell = cell;
  get = λ id s. Dict.get id s.rows;
  get_blob = λ id s. blob_at id s.ciphertexts;
  create_with_ciphertext = create_with_ciphertext;
  increment_opens = increment_opens;
  revoke = revoke;
  expire_past_due = expire_past_due;
  prune_terminal = prune_terminal;
  admin_purge = admin_purge;
  is_authorized = is_authorized;
  authorized_tokened = λ provided stored. refl;
  authorized_legacy = λ provided. refl;
  get_lem = λ id s. refl;
  get_blob_lem = λ id s. refl;
  cell-create = cell-create;
  create_taken = create_taken;
  cell-increment_opens = cell-increment_opens;
  increment_opens_lem = increment_opens_lem;
  cell-revoke = cell-revoke;
  cell-expire_past_due = λ r n l s j h. cell-expire_past_due r n l s j h.maps;
  cell-prune_terminal = λ b s j h. cell-prune_terminal b s j h.maps;
  cell-admin_purge = cell-admin_purge;
  create-IsState = create-IsState;
  increment_opens-IsState = increment_opens-IsState;
  revoke-IsState = revoke-IsState;
  expire_past_due-IsState = λ r n l s h. record {
    maps = expire_past_due-IsMaps r n l s h.maps;
    wired = expire_past_due-IsWired r n l s h.wired;
  };
  prune_terminal-IsState = λ b s h. record {
    maps = prune_terminal-IsMaps b s h.maps;
    wired = prune_terminal-IsWired b s h.wired;
  };
  admin_purge-IsState = admin_purge-IsState;
}

pub init-IsState : IsState init
init-IsState = record { maps = record { uniq = tt }; wired = refl }
