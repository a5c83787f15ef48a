-- ===== src/Pg/Blobs.antt =====
-- packages/server-store/src/pg/ciphertext-store.ts: put and delete outside a transaction. The foreign
-- key refuses a ciphertext without a link, and `none` is that throw.
use aesmsg.Prelude.{
  ◌≡◌, refl, Option, none, some, Text, text_eq, if◌then◌else◌, Bool-cases, inl, inr,
}
use aesmsg.Dict
use aesmsg.Dict.{get-set, get-remove}
use aesmsg.Link.{Bytes, is_some}
use aesmsg.Pg.{Tables, get_blob}

-- INSERT ... ON CONFLICT (link_id) DO UPDATE
unfoldable put : Text → Bytes → Tables → Option Tables
put id blob t =
    if is_some (Dict.get id t.links)
    then some (record t { link_ciphertexts = Dict.set id blob t.link_ciphertexts })
    else none

unfoldable delete : Text → Tables → Tables
delete id t = record t { link_ciphertexts = Dict.remove id t.link_ciphertexts }

-- A ciphertext that is put replaces the one of its link and touches no other, and no row.
get_blob-put :
    (id j : Text) (blob : Bytes) (t after : Tables)
    → put id blob t ≡ some after
    → (get_blob j after ≡ (if text_eq id j then some blob else get_blob j t))
      × (after.links ≡ t.links)
unfolding put get_blob
get_blob-put id j blob t after e = elim (Bool-cases (is_some (Dict.get id t.links))) [
  | inr m ↦ absurd (cc (rw m at e))
  | inl m ↦
      let made : (record t { link_ciphertexts = Dict.set id blob t.link_ciphertexts }) ≡ after =
        cc (rw m at e) in
      rw (← made) (get-set id j blob t.link_ciphertexts, refl)
]

-- Deleting a ciphertext leaves none under its link and touches no other, and no row.
get_blob-delete :
    (id j : Text) (t : Tables)
    → (get_blob j (delete id t) ≡ (if text_eq id j then none else get_blob j t))
      × ((delete id t).links ≡ t.links)
unfolding delete get_blob
get_blob-delete id j t = (get-remove id j t.link_ciphertexts, refl)
