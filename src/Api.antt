-- ===== src/Api.antt =====
-- apps/api/src/handlers/messages-handler.ts and apps/api/src/lib: what the message handlers share. A
-- request is what the handlers read of it, and `Platform` holds the calls of the JavaScript runtime
-- and of node:crypto that they make.
pub mod Limit
pub mod Salt
pub mod Create
pub mod Read
pub mod Open
pub mod Revoke
use aesmsg.Prelude.{
  ℕ, suc, ◌+◌, ◌*◌, ◌≡◌, Bool, true, false, ◌&&◌, ◌||◌, not, Option, none, some, List, [], ◌∷◌,
  ◌++◌, Text, leb, ltb, ◌==◌, length, all, codes, text_eq, if◌then◌else◌, String, ◌⊎◌, inl, inr,
  refl,
}
use aesmsg.Link.{ℤ, Bytes, LinkStatus}

-- A number in JSON: an integer, or one that is none.
pub data JsonNumber : Type 0 where
  integer : ℤ → JsonNumber
  fractional : JsonNumber

mutual
  pub data Json : Type 0 where
    null : Json
    bool : Bool → Json
    num : JsonNumber → Json
    str : Text → Json
    arr : Items → Json
    obj : Fields → Json

  pub data Items : Type 0 where
    nil : Items
    cons : Json → Items → Items

  pub data Fields : Type 0 where
    end : Fields
    field : Text → Json → Fields → Fields

-- `p.name` on a parsed object, whose keys are distinct.
unfoldable pub field_at : Text → Fields → Option Json
field_at name end = none
field_at name (field key value rest) = if text_eq key name then some value else field_at name rest

-- The JSON of the JavaScript runtime, for the code that runs in an app.
pub record JsonRuntime : Type 1 where
  -- `JSON.parse`, `none` where it throws, and `JSON.stringify`.
  pub parse : Text → Option Json
  pub stringify : Json → Text
  -- The values that `JSON.stringify` writes faithfully: no infinite number and no lone surrogate.
  pub IsPlain : Json → Type 0
  pub parse-stringify : (j : Json) → IsPlain j → parse (stringify j) ≡ some j
  -- `JSON.parse("")` throws.
  pub parse_nil : parse [] ≡ none
  -- `Number.isFinite` of a parsed number, which can be too large for one.
  pub is_finite : JsonNumber → Bool

pub record Platform : Type 0 where
  -- `JSON.parse`, `none` where it throws.
  pub json_parse : Text → Option Json
  -- `new Date(s).getTime()`, `none` for NaN.
  pub date_ms : Text → Option ℤ
  pub to_iso_string : ℕ → Text
  -- `atob`, `none` where it throws, and `btoa`.
  pub atob : Text → Option Bytes
  pub btoa : Bytes → Text
  -- `createHmac("sha256", salt).update(ip).digest("hex")`
  pub hmac_sha256_hex : Text → Text → Text
  pub sha256_hex : Text → Text
  -- `Buffer.byteLength(s, "utf8")`
  pub byte_length : Text → ℕ
  -- RATE_LIMIT_IP_SALT and NODE_ENV === "production"
  pub salt : Option Text
  pub production : Bool

pub record Request : Type 0 where
  pub client_ip_header : Option Text
  pub revocation_token_header : Option Text
  pub body : Text

-- The answer for one id of a list request.
pub data Entry : Type 0 where
  gone : Text → Entry
  present : Text → LinkStatus → Text → ℤ → ℕ → Entry

pub data Response : Type 0 where
  -- `jsonError(status, code)`
  error : ℕ → Text → Response
  created : Text → Text → Text → Response
  preview : LinkStatus → Text → ℤ → ℕ → Response
  opened : Text → Option Text → Text → ℕ → ℤ → LinkStatus → Response
  listed : List Entry → Response
  revoked_ok : Text → Response
  -- The handler's promise rejects.
  thrown : Response

abbrev pub bad_request : Response
bad_request = error 400 (codes "bad_request")

abbrev pub rate_limited : Response
rate_limited = error 429 (codes "rate_limited")

abbrev pub not_found : Response
not_found = error 404 (codes "not_found")

abbrev pub no_longer_available : Response
no_longer_available = error 410 (codes "no_longer_available")

abbrev pub id_conflict : Response
id_conflict = error 409 (codes "id_conflict")

abbrev pub internal_error : Response
internal_error = error 500 (codes "internal_error")

abbrev pub is_alnum : ℕ → Bool
is_alnum c = (leb b'A' c && leb c b'Z') || (leb b'a' c && leb c b'z') || (leb b'0' c && leb c b'9')

-- LINK_ID_REGEX = /^[A-Za-z0-9_-]{16}$/
abbrev pub is_link_char : ℕ → Bool
is_link_char c = is_alnum c || c == b'_' || c == b'-'

unfoldable pub is_link_id : Text → Bool
is_link_id s = (length s == 16) && all is_link_char s

-- hash-ip.ts: the throw of `hashIpWith` is `none`.
unfoldable pub hash_ip_with : Platform → Text → Text → Bool → Option Text
hash_ip_with p ip salt production =
    if production && ltb (p.byte_length salt) 32 then none else some (p.hmac_sha256_hex salt ip)

abbrev or_empty : Option Text → Text
or_empty none = []
or_empty (some s) = s

unfoldable pub hash_ip : Platform → Text → Option Text
unfolding hash_ip_with
hash_ip p ip = hash_ip_with p ip (or_empty p.salt) p.production

-- client-ip.ts
unfoldable pub get_client_ip : Request → Text
get_client_ip request = elim request.client_ip_header [ none ↦ codes "unknown" | some ip ↦ ip ]

-- `raw.length === 0 || raw === "\0"`
unfoldable pub is_empty_body : Text → Bool
is_empty_body raw = (length raw == 0) || text_eq raw (0 ∷ [])

abbrev pub rate_limit_window_seconds : ℕ
rate_limit_window_seconds = 60

abbrev pub rate_limit_max : ℕ
rate_limit_max = 30

abbrev pub get_rate_limit_max : ℕ
get_rate_limit_max = 60

-- What the limiter says of a request: it throws, it is over the limit, or the handler goes on.
pub data Verdict : Type 0 where
  throws over pass : Verdict

abbrev pub verdict_of : ℕ → Option ℕ → Verdict
verdict_of max none = throws
verdict_of max (some count) = if ltb max count then over else pass

pub verdict_cases : (v : Verdict) → (v ≡ throws) ⊎ ((v ≡ over) ⊎ (v ≡ pass))
verdict_cases throws = inl refl
verdict_cases over = inr (inl refl)
verdict_cases pass = inr (inr refl)
