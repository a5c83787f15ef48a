-- ===== src/Mobile/Storage/Calls.antt =====
-- What apps/mobile/src/storage/encrypted-store.ts reads after any calls.
use aesmsg.Prelude.{
  ℕ, ◌≡◌, refl, sym, ap, ◌∙◌, inl, inr, false, none, some, List, [], ◌∷◌, ◌++◌, Text, text_eq,
  text_eq_iff, text_eq_refl, ◌⊎◌, leb, All, arith, if◌then◌else◌, length, length-append, take, drop,
  take-append, drop-append, Bool-cases,
}
use aesmsg.Dict.{get, get-set, get-remove}
use aesmsg.Api.{JsonRuntime, Json}
use aesmsg.Crypto.Payload.{Utf8}
use aesmsg.Mobile.Storage.{
  Aead, nonce_len, Blobs, Read, absent, found, remove_blob, remove_all, keys, clear, set_json,
  get_json, read_frame,
}

-- A call that changes the store; a set comes with the nonce that it draws.
pub data Call : Type 0 where
  sets : List ℕ → Text → Json → Call
  removes : Text → Call
  clears : Call

abbrev IsIn : Text → List Text → Type 0
IsIn key [] = ⊥
IsIn key (k ∷ ks) = (k ≡ key) ⊎ IsIn key ks

remove_blob-absent :
    (k key : Text) (blobs : Blobs) → get key blobs ≡ none → get key (remove_blob k blobs) ≡ none
unfolding remove_blob
remove_blob-absent k key blobs h = elim (Bool-cases (text_eq k key)) [
  | inl t ↦ rw (get-remove k key blobs, t) refl
  | inr t ↦ rw (get-remove k key blobs, t) h
]

remove_blob-same : (key : Text) (blobs : Blobs) → get key (remove_blob key blobs) ≡ none
unfolding remove_blob
remove_blob-same key blobs = rw (get-remove key key blobs, text_eq_refl key) refl

-- Removing keys in turn leaves no blob under a key that had none or is one of them.
remove_all-absent :
    (ks : List Text) (key : Text) (blobs : Blobs)
    → (get key blobs ≡ none) ⊎ IsIn key ks
    → get key (remove_all ks blobs) ≡ none
unfolding remove_all
remove_all-absent [] key blobs (inl h) = h
remove_all-absent [] key blobs (inr h) = elim h [ ]
remove_all-absent (k ∷ ks) key blobs (inl h) =
    remove_all-absent ks key (remove_blob k blobs) (inl (remove_blob-absent k key blobs h))
remove_all-absent (k ∷ ks) key blobs (inr (inl same)) =
    remove_all-absent ks key (remove_blob k blobs) (inl (rw same (remove_blob-same key blobs)))
remove_all-absent (k ∷ ks) key blobs (inr (inr h)) =
    remove_all-absent ks key (remove_blob k blobs) (inr h)

keys-IsIn : (key : Text) (blobs : Blobs) → (get key blobs ≡ none) ⊎ IsIn key (keys blobs)
unfolding get keys
keys-IsIn key [] = inl refl
keys-IsIn key ((k, b) ∷ blobs) = elim (Bool-cases (text_eq k key)) [
  | inl t ↦ inr (inl ((text_eq_iff k key).0 t))
  | inr t ↦ elim (keys-IsIn key blobs) [ inl h ↦ inl (rw (t, h) refl) | inr h ↦ inr (inr h) ]
]

clear-absent : (key : Text) (blobs : Blobs) → get key (clear blobs) ≡ none
unfolding clear
clear-absent key blobs = remove_all-absent (keys blobs) key blobs (keys-IsIn key blobs)

module _ (A : Aead) (J : JsonRuntime) (U : Utf8) where
  unfoldable pub run : List ℕ → List Call → Blobs → Blobs
  unfolding set_json remove_blob clear
  run dek [] blobs = blobs
  run dek (sets nonce key value ∷ cs) blobs = run dek cs (set_json A J U dek nonce key value blobs)
  run dek (removes key ∷ cs) blobs = run dek cs (remove_blob key blobs)
  run dek (clears ∷ cs) blobs = run dek cs (clear blobs)

  -- A value that the runtime writes faithfully, under a nonce of its size.
  abbrev pub IsStorable : Call → Type 0
  IsStorable (sets nonce key value) =
      (length nonce ≡ nonce_len) × J.IsPlain value × U.IsText (J.stringify value)
  IsStorable (removes key) = Unit {0}
  IsStorable clears = Unit {0}

  -- What the calls make of one key.
  abbrev pub run_one : Text → List Call → Read → Read
  run_one key [] r = r
  run_one key (sets nonce k value ∷ cs) r =
      run_one key cs (if text_eq k key then found value else r)
  run_one key (removes k ∷ cs) r = run_one key cs (if text_eq k key then absent else r)
  run_one key (clears ∷ cs) r = run_one key cs absent

  read_frame-encrypt :
      (dek nonce : List ℕ) (value : Json)
      → (length nonce ≡ nonce_len) × J.IsPlain value × U.IsText (J.stringify value)
      → read_frame A J U dek (some (nonce ++ A.encrypt dek nonce (U.encode (J.stringify value))))
        ≡ found value
  read_frame-encrypt dek nonce value h =
      let plaintext = U.encode (J.stringify value) in
      let body = A.encrypt dek nonce plaintext in
      let long : leb (length (nonce ++ body)) nonce_len ≡ false =
        ground (arith, h.0, length-append nonce body, A.length-encrypt dek nonce plaintext) in
      let front : take nonce_len (nonce ++ body) ≡ nonce =
        ap (λ n. take n (nonce ++ body)) (sym h.0) ∙ take-append nonce body in
      let back : drop nonce_len (nonce ++ body) ≡ body =
        ap (λ n. drop n (nonce ++ body)) (sym h.0) ∙ drop-append nonce body in
      rw
        (
          long,
          front,
          back,
          A.decrypt-encrypt dek nonce plaintext,
          U.decode-encode (J.stringify value) h.2,
          J.parse-stringify value h.1,
        )
        refl

  set_json-get :
      (dek nonce : List ℕ) (k key : Text) (value : Json) (blobs : Blobs)
      → (length nonce ≡ nonce_len) × J.IsPlain value × U.IsText (J.stringify value)
      → get_json A J U dek key (set_json A J U dek nonce k value blobs)
        ≡ (if text_eq k key then found value else get_json A J U dek key blobs)
  unfolding set_json get_json
  set_json-get dek nonce k key value blobs h =
      let frame = nonce ++ A.encrypt dek nonce (U.encode (J.stringify value)) in
      elim (Bool-cases (text_eq k key)) [
        | inl t ↦ rw (get-set k key frame blobs, t) (read_frame-encrypt dek nonce value h)
        | inr t ↦ rw (get-set k key frame blobs, t) refl
      ]

  remove_blob-get :
      (dek : List ℕ) (k key : Text) (blobs : Blobs)
      → get_json A J U dek key (remove_blob k blobs)
        ≡ (if text_eq k key then absent else get_json A J U dek key blobs)
  unfolding remove_blob get_json
  remove_blob-get dek k key blobs = elim (Bool-cases (text_eq k key)) [
    | inl t ↦ rw (get-remove k key blobs, t) refl
    | inr t ↦ rw (get-remove k key blobs, t) refl
  ]

  clear-get :
      (dek : List ℕ) (key : Text) (blobs : Blobs) → get_json A J U dek key (clear blobs) ≡ absent
  unfolding get_json
  clear-get dek key blobs = rw (clear-absent key blobs) refl

  -- Whatever calls came before, a key reads as the value that was last set under it, if the runtime
  -- writes the values faithfully and the nonces have their size; it is absent after it was removed or
  -- the store was cleared. No call of one key touches another.
  pub run-get_json :
      (dek : List ℕ) (key : Text) (calls : List Call) (blobs : Blobs)
      → All IsStorable calls
      → get_json A J U dek key (run dek calls blobs)
        ≡ run_one key calls (get_json A J U dek key blobs)
  unfolding run
  run-get_json dek key [] blobs h = refl
  run-get_json dek key (sets nonce k value ∷ cs) blobs h =
      rw
        (
          run-get_json dek key cs (set_json A J U dek nonce k value blobs) h.1,
          set_json-get dek nonce k key value blobs h.0,
        )
        refl
  run-get_json dek key (removes k ∷ cs) blobs h =
      rw (run-get_json dek key cs (remove_blob k blobs) h.1, remove_blob-get dek k key blobs) refl
  run-get_json dek key (clears ∷ cs) blobs h =
      rw (run-get_json dek key cs (clear blobs) h.1, clear-get dek key blobs) refl
