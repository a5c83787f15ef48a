-- ===== src/Tests/Stores.antt =====
-- The theorems on stores and limiters, on the link of the tests.
use aesmsg.Prelude.{
  Text, ℕ, ◌+◌, length, ◌≢◌, ◌↔◌, text_eq, ◌≡◌, ◌≤◌, refl, true, some, List, [], ◌∷◌, arith,
}
use aesmsg.Dict
use aesmsg.Link.Sound.{IsSound}
use aesmsg.Link.History.{Call, create, opens, revokes, sweeps, purges, run, run-IsSound}
use aesmsg.Link.History.Opens.{deliveries, deliveries-le-max_opens}
use aesmsg.ConstantTime.{timing_safe_equal_hex, timing_safe_equal_hex_iff}
use aesmsg.Memory.{init, increment_opens, create_with_ciphertext}
use aesmsg.Memory.Step.{cell}
use aesmsg.Agreement.{pg_run, Agree, run-Agree}
use aesmsg.Link.History.{step}
use aesmsg.Link.History.Blob.{opened-blob_read_before}
use aesmsg.Link.{Bytes, LinkMetadata, expired}
use aesmsg.Memory.Sweep.{expire_past_due, prune_terminal}
use aesmsg.Pg
use aesmsg.Pg.Sweep
use aesmsg.Pg.Sweep.{cell-prune_terminal}
use aesmsg.Pg.Overflow.{count_of, max_integer}
use aesmsg.Pg.Impl.{pg_links, init-IsTables, create-IsTables}
use aesmsg.RateLimit.Windows.{results, numbered, results-numbered}
use aesmsg.Memory.Impl.{memory_links, init-IsState}
use aesmsg.Tests.{
  id_a, digest, blob, two_opens, row_a, one_link, one_link-IsState, one_link-IsSound, one_link-row,
  digest-IsHexDigest,
}

abbrev opens_a : List Call
opens_a = opens 5 id_a ∷ sweeps 10 6 7 ∷ opens 8 id_a ∷ opens 9 id_a ∷ []

deliveries-le-max_opens_example : deliveries memory_links id_a opens_a one_link ≤ 2
deliveries-le-max_opens_example =
    deliveries-le-max_opens memory_links id_a opens_a one_link row_a 2 one_link-IsState
      (tt, (tt, (tt, (tt, tt)))) one_link-IsSound one_link-row refl

abbrev calls_a : List Call
calls_a = create two_opens blob ∷ opens 5 id_a ∷ revokes 6 id_a (some digest) ∷ purges 7 id_a ∷ []

run-IsSound_example : IsSound id_a (cell (run memory_links calls_a init) id_a)
unfolding Dict.get
run-IsSound_example =
    run-IsSound memory_links calls_a init (omega arith, (tt, (tt, (tt, tt)))) init-IsState
      (λ j. (refl, refl, refl)) id_a

-- The tables after a create.
abbrev tables : Pg.Tables
tables = (Pg.create_with_ciphertext two_opens blob Pg.init).1

tables-IsTables : Pg.Sweep.IsTables tables
tables-IsTables = create-IsTables two_opens blob Pg.init init-IsTables

timing_safe_equal_hex_iff_example :
    (timing_safe_equal_hex digest digest ≡ true) ↔ ((digest ≡ digest) × (digest ≢ []))
timing_safe_equal_hex_iff_example =
    timing_safe_equal_hex_iff digest digest digest-IsHexDigest digest-IsHexDigest

abbrev times : List ℕ
times = 1000 ∷ 2000 ∷ 61000 ∷ 59999 ∷ []

numbered_in_windows : numbered 60 [] times ≡ some 1 ∷ some 2 ∷ some 1 ∷ some 3 ∷ []
numbered_in_windows = refl

results-numbered_example : results 60 digest times [] ≡ numbered 60 [] times
results-numbered_example = results-numbered 60 digest times (omega arith)

empty_state : (j : Text) → IsSound j (memory_links.cell init j)
unfolding Dict.get
empty_state j = (refl, refl, refl)

empty_agreement : Agree init Pg.init
unfolding Dict.get
empty_agreement j = refl

few_opens : (j : Text) → count_of (pg_links.cell Pg.init j) + length calls_a ≤ max_integer
unfolding Dict.get
few_opens j = omega arith

run-Agree_example : Agree (run memory_links calls_a init) (pg_run calls_a Pg.init)
run-Agree_example =
    run-Agree calls_a init Pg.init (refl, (tt, (tt, (tt, tt)))) init-IsState init-IsTables
      empty_state (λ j. few_opens j) empty_agreement

one_link-AllSound : (j : Text) → IsSound j (cell one_link j)
unfolding run step Dict.get text_eq create_with_ciphertext Dict.set
one_link-AllSound j =
    run-IsSound memory_links (create two_opens blob ∷ []) init (omega arith, tt) init-IsState
      empty_state j

abbrev between : List Call
between = opens 5 id_a ∷ sweeps 10 6 7 ∷ []

abbrev row_after : LinkMetadata
row_after = record row_a { opens_count = 2; status = expired }

second_open :
    (memory_links.increment_opens 8 id_a (run memory_links between one_link)).0 ≡ some row_after
unfolding run step increment_opens expire_past_due prune_terminal Dict.get Dict.set Dict.remove
    Dict.for_each text_eq
second_open = refl

opened-blob_read_before_example :
    (read : Bytes) × (memory_links.get_blob id_a one_link ≡ some read)
    × ((memory_links.cell (run memory_links between one_link) id_a).blob ≡ some read)
opened-blob_read_before_example =
    opened-blob_read_before memory_links id_a between one_link 8 row_after (tt, (tt, tt))
      (tt, (tt, tt)) one_link-IsState one_link-AllSound second_open
