-- ===== src/Crypto/Aad/Binding.antt =====
-- encodeAad of packages/crypto/src/aad.ts, read backwards.
use aesmsg.Prelude.{ℕ, ◌≡◌, refl, sym, ap, ◌∙◌, Option, none, some, List, Text, arith, length}
use aesmsg.Link.{ℤ, pos}
use aesmsg.Crypto.Payload.{Utf8}
use aesmsg.Crypto.Aad.{
  integer, MessageBindingContext, checked_opens, Times, checked_times, put_aad, with_hash,
  with_link_id, encode_aad, recip_hash_len, link_id_bytes_exact,
}
use aesmsg.Crypto.Aad.Layout.{
  stored_created, FitsInt32, checked_times_lem, checked_opens_lem, int32_bits_inj, put_aad_inj,
}

-- What a successful encoding was made of.
record IsMadeOf (ctx : MessageBindingContext) (id : List ℕ) (recip : Option (List ℕ))
    (bytes : List ℕ) : Type 0 where
  times : Times
  max_opens : ℤ
  recip_hash : List ℕ
  has_times : checked_times ctx.created_at_ms ctx.expires_at_ms ≡ some times
  has_opens : checked_opens ctx.max_opens ≡ some max_opens
  has_hash : recip ≡ some recip_hash
  id_length : length id ≡ link_id_bytes_exact
  hash_length : length recip_hash ≡ recip_hash_len
  made : put_aad times max_opens id recip_hash ≡ bytes

with_hash_lem :
    (times : Times) (m : ℤ) (id : List ℕ) (o : Option (List ℕ)) (bytes : List ℕ)
    → with_hash times m id o ≡ some bytes
    → (h : List ℕ) × (o ≡ some h) × (length h ≡ recip_hash_len) × (put_aad times m id h ≡ bytes)
with_hash_lem times m id o bytes e = ground arith

with_link_id_lem :
    (t : Option Times) (m : Option ℤ) (id : List ℕ) (o : Option (List ℕ)) (bytes : List ℕ)
    → with_link_id t m id o ≡ some bytes
    → (times : Times) × (opens : ℤ) × (t ≡ some times)
      × (m ≡ some opens)
      × (length id ≡ link_id_bytes_exact)
      × (with_hash times opens id o ≡ some bytes)
with_link_id_lem none m id o bytes e = absurd (cc)
with_link_id_lem (some times) none id o bytes e = absurd (cc)
with_link_id_lem (some times) (some opens) id o bytes e =
    (times, opens, refl, refl, ground arith, ground arith)

made_of :
    (ctx : MessageBindingContext) (id : List ℕ) (o : Option (List ℕ)) (bytes : List ℕ)
    → with_link_id
        (checked_times ctx.created_at_ms ctx.expires_at_ms)
        (checked_opens ctx.max_opens)
        id
        o
      ≡ some bytes
    → IsMadeOf ctx id o bytes
made_of ctx id o bytes e =
    let (times, opens, et, eo, il, rest) =
      with_link_id_lem (checked_times ctx.created_at_ms ctx.expires_at_ms)
        (checked_opens ctx.max_opens) id o bytes e in
    let (h, eh, hl, made) = with_hash_lem times opens id o bytes rest in
    record {
      times = times;
      max_opens = opens;
      recip_hash = h;
      has_times = et;
      has_opens = eo;
      has_hash = eh;
      id_length = il;
      hash_length = hl;
      made = made;
    }

module _ (U : Utf8) (hash_recipient_pubkey : Text → Option (List ℕ)) where
  -- Two contexts that encode to the same associated data agree in the link id, in the hash of the
  -- recipient's key, in the creation time or its absence, in the expiry and in the bound on opens, if
  -- UTF-8 carries the ids faithfully and the bounds on opens fit an int32.
  pub encode_aad-binds :
      (c d : MessageBindingContext) (bytes : List ℕ)
      → encode_aad U hash_recipient_pubkey c ≡ some bytes
      → encode_aad U hash_recipient_pubkey d ≡ some bytes
      → U.IsText c.link_id
      → U.IsText d.link_id
      → FitsInt32 c.max_opens
      → FitsInt32 d.max_opens
      → (c.link_id ≡ d.link_id)
        × (hash_recipient_pubkey c.recipient_public_key
            ≡ hash_recipient_pubkey d.recipient_public_key)
        × (c.created_at_ms ≡ d.created_at_ms)
        × (c.expires_at_ms ≡ d.expires_at_ms)
        × (c.max_opens ≡ d.max_opens)
  unfolding encode_aad
  encode_aad-binds c d bytes ec ed tc td fc fd =
      let x =
        made_of c (U.encode c.link_id) (hash_recipient_pubkey c.recipient_public_key) bytes ec in
      let y =
        made_of d (U.encode d.link_id) (hash_recipient_pubkey d.recipient_public_key) bytes ed in
      let (ex, bx, cx, cbx) =
        checked_times_lem c.created_at_ms c.expires_at_ms x.times x.has_times in
      let (ey, by, cy, cby) =
        checked_times_lem d.created_at_ms d.expires_at_ms y.times y.has_times in
      let (created, expires, id, h, opens) =
        put_aad_inj x.times y.times x.max_opens y.max_opens _ _ x.recip_hash y.recip_hash bx by cbx
          cby (x.id_length ∙ sym y.id_length) (x.hash_length ∙ sym y.hash_length)
          (x.made ∙ sym y.made) in
      let same_opens =
        int32_bits_inj c.max_opens d.max_opens x.max_opens y.max_opens x.has_opens y.has_opens fc fd
          opens in
      (
        sym (U.decode-encode c.link_id tc) ∙ ap U.decode id ∙ U.decode-encode d.link_id td,
        x.has_hash ∙ ap some h ∙ sym y.has_hash,
        cx ∙ ap stored_created created ∙ sym cy,
        ex ∙ ap (λ (n : ℕ). integer (pos n)) expires ∙ sym ey,
        checked_opens_lem c.max_opens x.max_opens x.has_opens
            ∙ ap integer same_opens
            ∙ sym (checked_opens_lem d.max_opens y.max_opens y.has_opens),
      )
