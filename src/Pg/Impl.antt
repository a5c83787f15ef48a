-- ===== src/Pg/Impl.antt =====
-- The store of packages/server-store/src/pg as a `LinkStore`.
use aesmsg.Prelude.{ℕ, ◌≡◌, refl, Option, Text, arith, Option-cases, inl, inr}
use aesmsg.Dict
use aesmsg.Dict.{set-Uniq, remove-Uniq}
use aesmsg.Link.{Bytes, CreateLinkRecord}
use aesmsg.Link.Interface.{LinkStore}
use aesmsg.Pg.{
  Tables, init, get, get_blob, create_with_ciphertext, new_link, increment_opens, updated_row,
  revoke, revoked_row, admin_purge,
}
use aesmsg.Pg.Step.{
  cell, is_authorized, cell-create, create_taken, cell-increment_opens, increment_opens_lem,
  cell-revoke, cell-admin_purge,
}
use aesmsg.Pg.Sweep.{
  IsTables, expire_past_due, prune_terminal, cell-expire_past_due, cell-prune_terminal,
  expire_past_due-IsTables, prune_terminal-IsTables,
}

pub create-IsTables :
    (r : CreateLinkRecord) (bytes : Bytes) (t : Tables)
    → IsTables t
    → IsTables (create_with_ciphertext r bytes t).1
unfolding create_with_ciphertext
create-IsTables r bytes t h = ground (
  arith,
  h.links_key,
  h.ciphertexts_key,
  set-Uniq r.id (new_link r) t.links h.links_key,
  set-Uniq r.id bytes t.link_ciphertexts h.ciphertexts_key,
)

pub increment_opens-IsTables :
    (now : ℕ) (id : Text) (t : Tables) → IsTables t → IsTables (increment_opens now id t).1
unfolding increment_opens
increment_opens-IsTables now id t h = elim (Option-cases (Dict.get id t.links)) [
  | inl e ↦ rw (e, increment_opens) h
  | inr (row, e) ↦
      rw (e, increment_opens)
        (ground (
          arith,
          h.links_key,
          h.ciphertexts_key,
          set-Uniq id (updated_row now row) t.links h.links_key,
          remove-Uniq id t.link_ciphertexts h.ciphertexts_key,
        ))
]

pub revoke-IsTables :
    (now : ℕ) (id : Text) (provided : Option Text) (t : Tables)
    → IsTables t
    → IsTables (revoke now id provided t)
unfolding revoke
revoke-IsTables now id provided t h = elim (Option-cases (Dict.get id t.links)) [
  | inl e ↦ rw (e, revoke) h
  | inr (row, e) ↦
      rw (e, revoke)
        (ground (
          arith,
          h.links_key,
          h.ciphertexts_key,
          set-Uniq id (revoked_row now row) t.links h.links_key,
          remove-Uniq id t.link_ciphertexts h.ciphertexts_key,
        ))
]

pub admin_purge-IsTables :
    (now : ℕ) (id : Text) (t : Tables) → IsTables t → IsTables (admin_purge now id t).1
unfolding admin_purge
admin_purge-IsTables now id t h = elim (Option-cases (Dict.get id t.links)) [
  | inl e ↦
      rw (e, admin_purge)
        (ground (
          arith,
          h.links_key,
          h.ciphertexts_key,
          remove-Uniq id t.link_ciphertexts h.ciphertexts_key,
        ))
  | inr (row, e) ↦
      rw (e, admin_purge)
        (ground (
          arith,
          h.links_key,
          h.ciphertexts_key,
          set-Uniq id (revoked_row now row) t.links h.links_key,
          remove-Uniq id t.link_ciphertexts h.ciphertexts_key,
        ))
]

pub get_lem : (id : Text) (t : Tables) → get id t ≡ (cell t id).row
unfolding get
get_lem id t = refl

pub get_blob_lem : (id : Text) (t : Tables) → get_blob id t ≡ (cell t id).blob
unfolding get_blob
get_blob_lem id t = refl

abbrev pub pg_links : LinkStore
pg_links = record {
  State = Tables;
  IsState = IsTables;
  cell = cell;
  get = get;
  get_blob = get_blob;
  create_with_ciphertext = create_with_ciphertext;
  increment_opens = increment_opens;
  revoke = revoke;
  expire_past_due = expire_past_due;
  prune_terminal = prune_terminal;
  admin_purge = admin_purge;
  is_authorized = is_authorized;
  authorized_tokened = λ provided stored. refl;
  authorized_legacy = λ provided. refl;
  get_lem = get_lem;
  get_blob_lem = get_blob_lem;
  cell-create = λ r bytes s j h. cell-create r bytes j s;
  create_taken = λ r bytes s row e. create_taken r bytes r.id s row e;
  cell-increment_opens = cell-increment_opens;
  increment_opens_lem = increment_opens_lem;
  cell-revoke = cell-revoke;
  cell-expire_past_due = cell-expire_past_due;
  cell-prune_terminal = cell-prune_terminal;
  cell-admin_purge = cell-admin_purge;
  create-IsState = create-IsTables;
  increment_opens-IsState = increment_opens-IsTables;
  revoke-IsState = revoke-IsTables;
  expire_past_due-IsState = expire_past_due-IsTables;
  prune_terminal-IsState = prune_terminal-IsTables;
  admin_purge-IsState = admin_purge-IsTables;
}

pub init-IsTables : IsTables init
init-IsTables = record { links_key = tt; ciphertexts_key = tt }
