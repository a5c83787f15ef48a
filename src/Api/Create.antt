-- ===== src/Api/Create.antt =====
-- POST /api/messages: `createMessagesHandler` of apps/api/src/handlers/messages-handler.ts. The times
-- are milliseconds; `token` is what `mintRevocationToken` drew.
pub mod Guards
pub mod Outcome
use aesmsg.Prelude.{
  text_eq, ℕ, ◌+◌, ◌-◌, ◌*◌, ◌<◌, Bool, true, false, ◌&&◌, ◌||◌, not, Option, none, some, List, [],
  ◌∷◌, ◌++◌, Text, leb, ltb, ◌==◌, length, all, codes, if◌then◌else◌,
}
use aesmsg.Link.{ℤ, pos, negsuc, Bytes, LinkMetadata, CreateLinkRecord, is_some}
use aesmsg.Link.Interface.{LinkStore}
use aesmsg.Memory.Sweep.{Number, finite, between}
use aesmsg.RateLimit.{RateLimitStore}
use aesmsg.Api.{
  Platform, Request, Response, created, thrown, bad_request, rate_limited, id_conflict,
  internal_error, Json, JsonNumber, integer, fractional, null, bool, num, str, arr, obj, Fields,
  field_at, is_link_id, rate_limit_max, throws, over, pass,
}
use aesmsg.Api.Limit.{limit}

abbrev pub max_body_bytes : ℕ
max_body_bytes = 37 * 1024 * 1024

abbrev pub max_ciphertext_bytes : ℕ
max_ciphertext_bytes = 26 * 1024 * 1024

abbrev pub min_ciphertext_bytes : ℕ
min_ciphertext_bytes = 32

abbrev pub default_max_retention_ms : ℕ
default_max_retention_ms = 365 * 24 * 60 * 60 * 1000

abbrev pub retention_grace_ms : ℕ
retention_grace_ms = 60 * 60 * 1000

pub record RequestBody : Type 0 where
  pub id : Text
  pub ciphertext : Text
  pub expires_at : Text
  pub max_opens : JsonNumber

abbrev pub body_of : Option Json → Option Json → Option Json → Option Json → Option RequestBody
body_of (some (str id)) (some (str ciphertext)) (some (str expires_at)) (some (num max_opens)) =
    some
      (record { id = id; ciphertext = ciphertext; expires_at = expires_at; max_opens = max_opens })
body_of _ _ _ _ = none

abbrev pub body_of_json : Option Json → Option RequestBody
body_of_json (some (obj fields)) =
    body_of (field_at (codes "id") fields) (field_at (codes "ciphertext") fields)
      (field_at (codes "expiresAt") fields) (field_at (codes "maxOpens") fields)
body_of_json _ = none

unfoldable pub parse_body : Platform → Text → Option RequestBody
parse_body p raw = body_of_json (p.json_parse raw)

-- `/^[A-Za-z0-9+/]*={0,2}$/`
abbrev is_base64_char : ℕ → Bool
is_base64_char c =
    (leb b'A' c && leb c b'Z')
    || (leb b'a' c && leb c b'z')
    || (leb b'0' c && leb c b'9')
    || c == b'+'
    || c == b'/'

abbrev is_padding : Text → Bool
is_padding [] = true
is_padding (c ∷ []) = c == b'='
is_padding (c ∷ d ∷ []) = c == b'=' && d == b'='
is_padding (c ∷ d ∷ e ∷ rest) = false

unfoldable pub is_base64 : Text → Bool
is_base64 [] = true
is_base64 (c ∷ rest) = is_padding (c ∷ rest) || (is_base64_char c && is_base64 rest)

unfoldable pub decode_base64 : Platform → Text → Option Bytes
unfolding is_base64
decode_base64 p s = if is_base64 s then p.atob s else none

-- What a request asks for once every guard has let it pass.
pub record Accepted : Type 0 where
  pub id : Text
  pub expires_at : ℕ
  pub max_opens : ℤ
  pub blob : Bytes

-- `Number.isInteger(maxOpens) && !(maxOpens <= 0 && maxOpens !== -1)`
abbrev pub opens_of : JsonNumber → Option ℤ
opens_of fractional = none
opens_of (integer (pos n)) = if ltb 0 n then some (pos n) else none
opens_of (integer (negsuc n)) = if n == 0 then some (negsuc n) else none

-- Not NaN, after now, and not past the retention ceiling and its grace. A time before 1970 is past.
abbrev pub expiry_of : ℕ → ℕ → Option ℤ → Option ℕ
expiry_of now max_retention none = none
expiry_of now max_retention (some (negsuc n)) = none
expiry_of now max_retention (some (pos t)) =
    if leb t now
    then none
    else if ltb (max_retention + retention_grace_ms) (t - now)
    then none
    else some t

abbrev pub blob_of : Option Bytes → Option Bytes
blob_of none = none
blob_of (some blob) =
    if ltb (length blob) min_ciphertext_bytes || ltb max_ciphertext_bytes (length blob)
    then none
    else some blob

infixl 5 ◌>>=◌
abbrev pub ◌>>=◌ {ℓ κ} : {A : Type ℓ} {B : Type κ} → Option A → (A → Option B) → Option B
none >>= f = none
some a >>= f = f a

abbrev pub checked_id : Text → Option Text
checked_id id = if is_link_id id then some id else none

abbrev pub accept_body : Platform → ℕ → ℕ → RequestBody → Option Accepted
accept_body p now max_retention body = do
  id ← checked_id body.id
  max_opens ← opens_of body.max_opens
  expires_at ← expiry_of now max_retention (p.date_ms body.expires_at)
  blob ← blob_of (decode_base64 p body.ciphertext)
  some (record { id = id; expires_at = expires_at; max_opens = max_opens; blob = blob })

-- Every refusal of these guards is the same 400.
unfoldable pub accept : Platform → ℕ → ℕ → Text → Option Accepted
unfolding parse_body decode_base64
accept p now max_retention raw =
    if ltb max_body_bytes (length raw)
    then none
    else parse_body p raw >>= accept_body p now max_retention

pub record Settings : Type 0 where
  pub public_link_origin : Text
  pub max_retention_ms : Option ℕ

-- What `Number.isFinite(parsed) && parsed > 0` lets pass; a fraction bounds the whole
-- milliseconds of a lifetime as the integer below it does.
abbrev positive_or : ℕ → Number → ℕ
positive_or default (finite (pos n)) = if n == 0 then default else n
positive_or default (between (pos n)) = n
positive_or default _ = default

-- `trim` is `String.prototype.trim`, `to_number` JavaScript's `Number`, and `raw` is
-- AESMSG_MAX_RETENTION_MS.
unfoldable pub resolve_max_retention_ms : (Text → Text) → (Text → Number) → Option Text → ℕ
resolve_max_retention_ms trim to_number none = default_max_retention_ms
resolve_max_retention_ms trim to_number (some raw) =
    if text_eq (trim raw) []
    then default_max_retention_ms
    else positive_or default_max_retention_ms (to_number raw)

abbrev pub retention_of : Settings → ℕ
retention_of settings = elim settings.max_retention_ms [
  | none ↦ default_max_retention_ms
  | some ms ↦ ms
]

abbrev pub record_of : Platform → Text → Accepted → CreateLinkRecord
record_of p token a = record {
  id = a.id;
  expires_at = a.expires_at;
  max_opens = a.max_opens;
  revocation_token_hash = some (p.sha256_hex token);
}

abbrev answer : Settings → Text → Accepted → Option LinkMetadata → Response
answer settings token a none = internal_error
answer settings token a (some meta) =
    created a.id (settings.public_link_origin ++ (codes "/l/" ++ a.id)) token

module _ (S : LinkStore) (R : RateLimitStore) (p : Platform) (settings : Settings) where
  abbrev pub store_link : Text → Accepted → S.State → Response × S.State
  store_link token a s =
      let (meta, s') = S.create_with_ciphertext (record_of p token a) a.blob s in
      (answer settings token a meta, s')

  abbrev pub create_accepted : Text → Option Accepted → S.State → Response × S.State
  create_accepted token none s = (bad_request, s)
  create_accepted token (some a) s =
      if is_some (S.get a.id s) then (id_conflict, s) else store_link token a s

  -- The handler after the rate limit.
  unfoldable pub create_body : ℕ → Text → Request → S.State → Response × S.State
  create_body now token request s =
      create_accepted token (accept p now (retention_of settings) request.body) s

  unfoldable pub create_message :
      ℕ → ℕ → Text → Request → S.State → R.State → Response × S.State × R.State
  create_message limit_now now token request s windows =
      let (verdict, windows') =
        limit R p limit_now (codes "messages:") rate_limit_max request windows in
      elim verdict [
        | throws ↦ (thrown, s, windows')
        | over ↦ (rate_limited, s, windows')
        | pass ↦ let (response, s') = create_body now token request s in (response, s', windows')
      ]
