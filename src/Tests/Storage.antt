-- ===== src/Tests/Storage.antt =====
-- The theorem on the app's encrypted store, with one value and an AEAD that only adds a tag.
use aesmsg.Prelude.{
  ◌≡◌, refl, sym, ap, none, some, true, List, [], ◌∷◌, ◌++◌, codes, drop, replicate, arith,
}
use aesmsg.Api.{JsonRuntime, str}
use aesmsg.Mobile.Storage.{Aead, get_json}
use aesmsg.Mobile.Storage.Calls.{Call, sets, removes, clears, run, run_one, run-get_json}
use aesmsg.Tests.Codecs.{ascii}

abbrev aead : Aead
aead = record {
  encrypt = λ key nonce plaintext. replicate 16 0 ++ plaintext;
  decrypt = λ key nonce ct. some (drop 16 ct);
  decrypt-encrypt = λ key nonce plaintext. refl;
  length-encrypt = λ key nonce plaintext. omega arith;
}

abbrev runtime : JsonRuntime
runtime = record {
  parse = λ raw. elim raw [ [] ↦ none | c ∷ cs ↦ some (str (codes "a")) ];
  stringify = λ j. codes "\"a\"";
  IsPlain = λ j. j ≡ str (codes "a");
  parse-stringify = λ j h. ap some (sym h);
  parse_nil = refl;
  is_finite = λ n. true;
}

abbrev calls : List Call
calls =
    clears
    ∷ sets (replicate 12 1) (codes "contacts") (str (codes "a"))
    ∷ removes (codes "sent-links")
    ∷ []

run-get_json_example :
    get_json aead runtime ascii
      (codes "key")
      (codes "contacts")
      (run aead runtime ascii (codes "key") calls [])
    ≡ run_one aead runtime ascii
        (codes "contacts")
        calls
        (get_json aead runtime ascii (codes "key") (codes "contacts") [])
run-get_json_example =
    run-get_json aead runtime ascii (codes "key") (codes "contacts") calls []
      (tt, ((refl, refl, tt), (tt, tt)))
