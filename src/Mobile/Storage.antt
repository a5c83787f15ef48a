-- ===== src/Mobile/Storage.antt =====
-- apps/mobile/src/storage: encrypted-store.ts over the blobs of file-blob-store.ts, and data-key.ts. A
-- blob is its bytes, before base64; its file is found by its key.
pub mod Calls
use aesmsg.Prelude.{
  ℕ, ◌+◌, ◌≡◌, Option, none, some, List, [], ◌∷◌, ◌++◌, Text, leb, if◌then◌else◌, length, take,
  drop,
}
use aesmsg.Dict.{Dict, get, set, remove}
use aesmsg.Api.{JsonRuntime, Json}
use aesmsg.Crypto.Payload.{Utf8}

-- AES-GCM of WebCrypto under a data key: a key, a nonce and a text. It adds a tag of 16 bytes.
pub record Aead : Type 0 where
  pub encrypt : List ℕ → List ℕ → List ℕ → List ℕ
  pub decrypt : List ℕ → List ℕ → List ℕ → Option (List ℕ)
  pub decrypt-encrypt :
      (key nonce plaintext : List ℕ)
      → decrypt key nonce (encrypt key nonce plaintext) ≡ some plaintext
  pub length-encrypt :
      (key nonce plaintext : List ℕ) → length (encrypt key nonce plaintext) ≡ length plaintext + 16

abbrev pub nonce_len : ℕ
nonce_len = 12

abbrev pub Blobs : Type 0
Blobs = Dict (List ℕ)

-- What reading gives: no blob, a value, or a DecryptionError.
pub data Read : Type 0 where
  absent decryption_error : Read
  found : Json → Read

-- getOrCreateDEK: the key that is stored, or the one that is drawn, with what is stored then.
unfoldable pub get_or_create_dek : List ℕ → Option (List ℕ) → List ℕ × Option (List ℕ)
get_or_create_dek drawn none = (drawn, some drawn)
get_or_create_dek drawn (some existing) = (existing, some existing)

unfoldable pub delete_dek : Option (List ℕ) → Option (List ℕ)
delete_dek existing = none

unfoldable pub remove_blob : Text → Blobs → Blobs
unfolding remove
remove_blob key blobs = remove key blobs

-- The loop over the keys of the blobs.
unfoldable pub remove_all : List Text → Blobs → Blobs
unfolding remove_blob
remove_all [] blobs = blobs
remove_all (key ∷ keys) blobs = remove_all keys (remove_blob key blobs)

unfoldable pub keys : Blobs → List Text
keys [] = []
keys ((key, blob) ∷ blobs) = key ∷ keys blobs

unfoldable pub clear : Blobs → Blobs
unfolding keys remove_all
clear blobs = remove_all (keys blobs) blobs

module _ (A : Aead) (J : JsonRuntime) (U : Utf8) where
  -- `nonce` is drawn.
  unfoldable pub set_json : List ℕ → List ℕ → Text → Json → Blobs → Blobs
  unfolding set
  set_json dek nonce key value blobs =
      set key (nonce ++ A.encrypt dek nonce (U.encode (J.stringify value))) blobs

  abbrev parsed : Option Json → Read
  parsed none = decryption_error
  parsed (some value) = found value

  abbrev decoded : Option (List ℕ) → Read
  decoded none = decryption_error
  decoded (some plaintext) = parsed (J.parse (U.decode plaintext))

  abbrev read_frame : List ℕ → Option (List ℕ) → Read
  read_frame dek none = absent
  read_frame dek (some frame) =
      if leb (length frame) nonce_len
      then decryption_error
      else decoded (A.decrypt dek (take nonce_len frame) (drop nonce_len frame))

  unfoldable pub get_json : List ℕ → Text → Blobs → Read
  unfolding get
  get_json dek key blobs = read_frame dek (get key blobs)
