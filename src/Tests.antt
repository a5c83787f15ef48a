-- ===== src/Tests.antt =====
-- The data of the tests: a link that allows two opens, and the environment of a server.
pub mod Stores
pub mod Handlers
pub mod Codecs
pub mod Jobs
pub mod Identity
pub mod Messages
pub mod Storage
pub mod Contacts
pub mod Notifications
use aesmsg.Prelude.{refl, true, none, some, arith, [], ◌∷◌, Text, codes, replicate, text_eq, ◌≡◌}
use aesmsg.Dict
use aesmsg.Link.{Bytes, pos, LinkMetadata, CreateLinkRecord, active}
use aesmsg.Link.Sound.{IsSound}
use aesmsg.ConstantTime.{IsHexDigest}
use aesmsg.Api.{Platform, Request, integer, Json, str, num, arr, obj, cons, nil, field, end}
use aesmsg.Api.Create.{Settings}
use aesmsg.Memory.{MemoryStore}
use aesmsg.Memory.Step.{cell}
use aesmsg.Memory.Impl.{IsState}

abbrev pub id_a : Text
id_a = codes "AAAAAAAAAAAAAAAA"

abbrev pub id_b : Text
id_b = codes "BBBBBBBBBBBBBBBB"

abbrev pub digest : Text
digest = codes "ab12"

abbrev pub other_digest : Text
other_digest = codes "ab"

abbrev pub blob : Bytes
blob = replicate 32 7

abbrev pub two_opens : CreateLinkRecord
two_opens = record {
  id = id_a;
  expires_at = 1000;
  max_opens = pos 2;
  revocation_token_hash = some digest;
}

abbrev pub row_a : LinkMetadata
row_a = record {
  id = id_a;
  status = active;
  created_at = none;
  expires_at = 1000;
  max_opens = pos 2;
  opens_count = 0;
}

-- A memory store that holds the link.
abbrev pub one_link : MemoryStore
one_link = record {
  rows = (id_a, row_a) ∷ [];
  revocation_token_hashes = (id_a, some digest) ∷ [];
  terminal_at = [];
  ciphertexts = some ((id_a, blob) ∷ []);
}

pub one_link-IsState : IsState one_link
unfolding Dict.get
one_link-IsState = record { maps = record { uniq = (refl, tt) }; wired = refl }

pub one_link-row : (cell one_link id_a).row ≡ some row_a
unfolding Dict.get text_eq
one_link-row = refl

pub one_link-IsSound : IsSound id_a (cell one_link id_a)
unfolding Dict.get text_eq
one_link-IsSound = (refl, (refl, refl, omega arith))

pub digest-IsHexDigest : IsHexDigest digest
digest-IsHexDigest = (refl, refl, (refl, refl, tt))

-- The body of a create request, and that of a list request, parsed.
abbrev pub create_json : Json
create_json = obj (
    field (codes "id") (str id_b) (
      field (codes "ciphertext") (str (codes "AAAA")) (
        field (codes "expiresAt") (str (codes "2026-01-01"))
          (field (codes "maxOpens") (num (integer (pos 3))) end))))

abbrev pub list_json : Json
list_json = obj (field (codes "ids") (arr (cons (str id_a) (cons (str id_b) nil))) end)

abbrev pub platform : Json → Platform
platform json = record {
  json_parse = λ raw. some json;
  date_ms = λ s. some (pos 5000);
  to_iso_string = λ t. t ∷ [];
  atob = λ s. some blob;
  btoa = λ b. b;
  hmac_sha256_hex = λ salt ip. salt;
  sha256_hex = λ s. digest;
  byte_length = λ s. 32;
  salt = some (codes "salt");
  production = true;
}

abbrev pub settings : Settings
settings = record { public_link_origin = codes "https://aesmsg.com"; max_retention_ms = none }

abbrev pub request : Text → Request
request body = record {
  client_ip_header = some (codes "1.2.3.4");
  revocation_token_header = some (codes "token");
  body = body;
}
