-- ===== src/Api/Create/Guards.antt =====
-- What the guards of POST /api/messages let pass, and what the request asked for then.
use aesmsg.Prelude.{
  ℕ, ◌+◌, ◌*◌, ◌<◌, ◌≤◌, ◌≡◌, refl, ◌⊎◌, true, Option, none, some, Text, ltb, length, codes, all,
  ◌==◌, ==_iff, All, [], ◌∷◌, arith, Bool-cases, inl, inr,
}
use aesmsg.Link.{ℤ, pos, Bytes, IsMaxOpens}
use aesmsg.Api.{
  Json, obj, str, num, integer, Fields, field_at, Platform, is_link_id, is_link_char, JsonNumber,
}
use aesmsg.Api.Create.{
  Accepted, ◌>>=◌, accept_body, RequestBody, accept, retention_grace_ms, max_body_bytes,
  min_ciphertext_bytes, max_ciphertext_bytes, parse_body, decode_base64, opens_of, expiry_of,
  blob_of, checked_id, body_of, body_of_json, is_base64,
}

-- A letter, a digit, `_` or `-`.
abbrev IsLinkChar : ℕ → Type 0
IsLinkChar c =
    ((b'A' ≤ c) × (c ≤ b'Z'))
    ⊎ ((b'a' ≤ c) × (c ≤ b'z'))
    ⊎ ((b'0' ≤ c) × (c ≤ b'9'))
    ⊎ (c ≡ b'_')
    ⊎ (c ≡ b'-')

-- Sixteen such characters.
abbrev pub IsLinkId : Text → Type 0
IsLinkId s = (length s ≡ 16) × All IsLinkChar s

link_char_lem : (c : ℕ) → is_link_char c ≡ true → IsLinkChar c
link_char_lem c e = ground (arith, e)

all-IsLinkChar : (s : Text) → all is_link_char s ≡ true → All IsLinkChar s
all-IsLinkChar [] e = tt
all-IsLinkChar (c ∷ s) e = elim (Bool-cases (is_link_char c)) [
  | inl h ↦ (link_char_lem c h, all-IsLinkChar s (rw h at e))
  | inr h ↦ absurd (cc (rw h at e))
]

is_link_id-IsLinkId : (s : Text) → is_link_id s ≡ true → IsLinkId s
unfolding is_link_id
is_link_id-IsLinkId s e = elim (Bool-cases (length s == 16)) [
  | inl h ↦ ((==_iff _ _).0 h, all-IsLinkChar s (rw h at e))
  | inr h ↦ absurd (cc (rw h at e))
]

-- What an accepted request asks for: a valid id, a positive bound on its opens or -1, an expiry after
-- now and within the ceiling, a blob within its bounds, in a body within its bound.
pub record IsAccepted (now max_retention : ℕ) (raw : Text) (a : Accepted) : Type 0 where
  pub body : length raw ≤ 37 * 1024 * 1024
  pub id : IsLinkId a.id
  pub opens : IsMaxOpens a.max_opens
  pub later : now < a.expires_at
  pub ceiling : a.expires_at ≤ now + max_retention + 60 * 60 * 1000
  pub at_least : 32 ≤ length a.blob
  pub at_most : length a.blob ≤ 26 * 1024 * 1024

opens_of-IsMaxOpens : (n : JsonNumber) (m : ℤ) → opens_of n ≡ some m → IsMaxOpens m
opens_of-IsMaxOpens n m e = ground arith

expiry_of_bounds :
    (now max_retention t : ℕ) (d : Option ℤ)
    → expiry_of now max_retention d ≡ some t
    → (now < t) × (t ≤ now + max_retention + retention_grace_ms)
expiry_of_bounds now max_retention t d e = ground arith

blob_of_bounds :
    (d : Option Bytes) (blob : Bytes)
    → blob_of d ≡ some blob
    → (min_ciphertext_bytes ≤ length blob) × (length blob ≤ max_ciphertext_bytes)
blob_of_bounds d blob e = ground arith

>>=-eq-some {ℓ κ} :
    {A : Type ℓ} {B : Type κ} (m : Option A) (f : A → Option B) {b : B}
    → (m >>= f) ≡ some b
    → (a : A) × (m ≡ some a) × (f a ≡ some b)
>>=-eq-some none f h = absurd (cc)
>>=-eq-some (some a) f h = (a, refl, h)

checked_id_lem : (s id : Text) → checked_id s ≡ some id → is_link_id id ≡ true
checked_id_lem s id e = ground arith

accept_body-IsAccepted :
    (p : Platform) (now max_retention : ℕ) (raw : Text) (body : RequestBody) (a : Accepted)
    → length raw ≤ max_body_bytes
    → accept_body p now max_retention body ≡ some a
    → IsAccepted now max_retention raw a
accept_body-IsAccepted p now max_retention raw body a fits e =
    let (id, e1, r1) = >>=-eq-some (checked_id body.id) _ e in
    let (opens, e2, r2) = >>=-eq-some (opens_of body.max_opens) _ r1 in
    let (t, e3, r3) = >>=-eq-some (expiry_of now max_retention (p.date_ms body.expires_at)) _ r2 in
    let (blob, e4, r4) = >>=-eq-some (blob_of (decode_base64 p body.ciphertext)) _ r3 in
    ground (
      arith,
      is_link_id-IsLinkId id (checked_id_lem body.id id e1),
      opens_of-IsMaxOpens body.max_opens opens e2,
      expiry_of_bounds now max_retention t (p.date_ms body.expires_at) e3,
      blob_of_bounds (decode_base64 p body.ciphertext) blob e4,
      r4,
      fits,
    )

-- A request that is accepted has a link id, a positive bound on opens or -1, an expiry after now and
-- within the ceiling and its grace, a blob within its bounds and a body within its bound.
pub accept-IsAccepted :
    (p : Platform) (now max_retention : ℕ) (raw : Text) (a : Accepted)
    → accept p now max_retention raw ≡ some a
    → IsAccepted now max_retention raw a
unfolding accept
accept-IsAccepted p now max_retention raw a e =
    elim (Bool-cases (ltb max_body_bytes (length raw))) [
      | inl big ↦ absurd (cc (big, e))
      | inr fits ↦
          let (body, e1, e2) =
            >>=-eq-some (parse_body p raw) (accept_body p now max_retention) (rw fits at e) in
          accept_body-IsAccepted p now max_retention raw body a (ground arith) e2
    ]

-- The body is JSON of an object whose fields are the id, the bound on opens, a date at the expiry and
-- the base64 of the ciphertext.
pub record IsRequested (p : Platform) (raw : Text) (a : Accepted) : Type 0 where
  pub fields : Fields
  pub expires_at : Text
  pub ciphertext : Text
  pub is_json : p.json_parse raw ≡ some (obj fields)
  pub id_field : field_at (codes "id") fields ≡ some (str a.id)
  pub opens_field : field_at (codes "maxOpens") fields ≡ some (num (integer a.max_opens))
  pub expires_field : field_at (codes "expiresAt") fields ≡ some (str expires_at)
  pub ciphertext_field : field_at (codes "ciphertext") fields ≡ some (str ciphertext)
  pub is_date : p.date_ms expires_at ≡ some (pos a.expires_at)
  pub is_blob : p.atob ciphertext ≡ some a.blob

-- The fields that a parsed body was read from.
IsBody : Platform → Text → RequestBody → Type 0
IsBody p raw body =
    (fields : Fields) × (p.json_parse raw ≡ some (obj fields))
    × (field_at (codes "id") fields ≡ some (str body.id))
    × (field_at (codes "ciphertext") fields ≡ some (str body.ciphertext))
    × (field_at (codes "expiresAt") fields ≡ some (str body.expires_at))
    × (field_at (codes "maxOpens") fields ≡ some (num body.max_opens))

body_of_lem :
    (id ciphertext expires_at max_opens : Option Json) (body : RequestBody)
    → body_of id ciphertext expires_at max_opens ≡ some body
    → (id ≡ some (str body.id))
      × (ciphertext ≡ some (str body.ciphertext))
      × (expires_at ≡ some (str body.expires_at))
      × (max_opens ≡ some (num body.max_opens))
body_of_lem id ciphertext expires_at max_opens body e = ground arith

body_of_json_lem :
    (o : Option Json) (body : RequestBody)
    → body_of_json o ≡ some body
    → (fields : Fields) × (o ≡ some (obj fields))
      × (body_of
            (field_at (codes "id") fields)
            (field_at (codes "ciphertext") fields)
            (field_at (codes "expiresAt") fields)
            (field_at (codes "maxOpens") fields)
          ≡ some body)
body_of_json_lem (some (obj fields)) body e = (fields, refl, e)
body_of_json_lem _ body e = absurd (cc)

parse_body-IsBody :
    (p : Platform) (raw : Text) (body : RequestBody)
    → parse_body p raw ≡ some body
    → IsBody p raw body
unfolding parse_body IsBody
parse_body-IsBody p raw body e =
    let (fields, is_json, read) = body_of_json_lem (p.json_parse raw) body e in
    let (id, ciphertext, expires_at, max_opens) = body_of_lem _ _ _ _ body read in
    (fields, is_json, id, ciphertext, expires_at, max_opens)

opens_of_lem : (n : JsonNumber) (m : ℤ) → opens_of n ≡ some m → n ≡ integer m
opens_of_lem n m e = ground arith

expiry_of_lem :
    (now max_retention t : ℕ) (d : Option ℤ)
    → expiry_of now max_retention d ≡ some t
    → d ≡ some (pos t)
expiry_of_lem now max_retention t d e = ground arith

blob_of_lem : (d : Option Bytes) (blob : Bytes) → blob_of d ≡ some blob → d ≡ some blob
blob_of_lem d blob e = ground arith

decode_base64_lem :
    (p : Platform) (s : Text) (blob : Bytes) → decode_base64 p s ≡ some blob → p.atob s ≡ some blob
unfolding decode_base64
decode_base64_lem p s blob e = elim (Bool-cases (is_base64 s)) [
  | inl b ↦ rw b at e
  | inr b ↦ absurd (cc (b, e))
]

checked_id_eq : (s id : Text) → checked_id s ≡ some id → s ≡ id
checked_id_eq s id e = ground arith

accept_body-IsRequested :
    (p : Platform) (now max_retention : ℕ) (raw : Text) (body : RequestBody) (a : Accepted)
    → IsBody p raw body
    → accept_body p now max_retention body ≡ some a
    → IsRequested p raw a
unfolding IsBody
accept_body-IsRequested p now max_retention raw body a (fields, is_json, fi, fc, fe, fo) e =
    let (id, e1, r1) = >>=-eq-some (checked_id body.id) _ e in
    let (opens, e2, r2) = >>=-eq-some (opens_of body.max_opens) _ r1 in
    let (t, e3, r3) = >>=-eq-some (expiry_of now max_retention (p.date_ms body.expires_at)) _ r2 in
    let (blob, e4, r4) = >>=-eq-some (blob_of (decode_base64 p body.ciphertext)) _ r3 in
    let same_id = checked_id_eq body.id id e1 in
    let same_opens = opens_of_lem body.max_opens opens e2 in
    let date = expiry_of_lem now max_retention t (p.date_ms body.expires_at) e3 in
    let bytes =
      decode_base64_lem p body.ciphertext blob
        (blob_of_lem (decode_base64 p body.ciphertext) blob e4) in
    record {
      fields = fields;
      expires_at = body.expires_at;
      ciphertext = body.ciphertext;
      is_json = is_json;
      id_field = cc (fi, same_id, r4);
      opens_field = cc (fo, same_opens, r4);
      expires_field = fe;
      ciphertext_field = fc;
      is_date = cc (date, r4);
      is_blob = cc (bytes, r4);
    }

-- A request that is accepted asked for what was accepted.
pub accept-IsRequested :
    (p : Platform) (now max_retention : ℕ) (raw : Text) (a : Accepted)
    → accept p now max_retention raw ≡ some a
    → IsRequested p raw a
unfolding accept
accept-IsRequested p now max_retention raw a e =
    elim (Bool-cases (ltb max_body_bytes (length raw))) [
      | inl big ↦ absurd (cc (big, e))
      | inr fits ↦
          let (body, e1, e2) =
            >>=-eq-some (parse_body p raw) (accept_body p now max_retention) (rw fits at e) in
          accept_body-IsRequested p now max_retention raw body a (parse_body-IsBody p raw body e1)
            e2
    ]
