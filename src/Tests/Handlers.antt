-- ===== src/Tests/Handlers.antt =====
-- The theorems on the handlers, on the link of the tests.
use aesmsg.Prelude.{
  not, ℕ, ◌≡◌, ◌≢◌, ap, length, refl, none, some, [], Text, codes, text_eq, if◌then◌else◌, arith,
}
use aesmsg.Dict
use aesmsg.Link.{revoked}
use aesmsg.ConstantTime.{IsHexDigest}
use aesmsg.Link.Cell
use aesmsg.Memory.{MemoryStore, init}
use aesmsg.Memory.Step.{cell}
use aesmsg.Memory.Impl.{memory_links}
use aesmsg.RateLimit.{memory_rate_limit, increment_and_get}
use aesmsg.Api.{
  Platform, Response, revoked_ok, is_link_id, hash_ip, hash_ip_with, get_client_ip, rate_limit_max,
  pass, is_empty_body,
}
use aesmsg.Api.Limit.{limit}
use aesmsg.Api.Salt.{salt_config_error, hash_ip-salt_config_error}
use aesmsg.Link.{is_some}
use aesmsg.Api.Create.{create_message}
use aesmsg.Api.Create.Outcome.{Answered, create_message-Answered}
use aesmsg.Api.Read.{get_message}
use aesmsg.Api.Read.Opaque.{get_message_opaque}
use aesmsg.Api.Open.{open_message}
use aesmsg.Api.Open.Delivery.{Delivered, open_message-Delivered}
use aesmsg.Api.Revoke.{provided_hash, revoke_message}
use aesmsg.Api.Revoke.Authority.{
  revoke_message_opaque, revoke_message-refused, revoke_message-accepted,
}
use aesmsg.Tests.{
  id_a, digest, other_digest, row_a, one_link, one_link-IsState, one_link-IsSound,
  digest-IsHexDigest, create_json, platform, settings, request,
}

abbrev create_platform : Platform
create_platform = platform create_json

create_message-Answered_example :
    Answered memory_links memory_rate_limit create_platform settings 1
      (codes "token")
      (codes "{}")
      one_link
      (create_message memory_links memory_rate_limit create_platform settings 1 1
        (codes "token")
        (request (codes "{}"))
        one_link
        []).0
      (create_message memory_links memory_rate_limit create_platform settings 1 1
        (codes "token")
        (request (codes "{}"))
        one_link
        []).1
create_message-Answered_example =
    create_message-Answered memory_links memory_rate_limit create_platform settings 1 1
      (codes "token") (request (codes "{}")) one_link [] one_link-IsState

get_message_opaque_example :
    get_message memory_links memory_rate_limit create_platform 1 2000 id_a (request []) one_link []
    ≡ get_message memory_links memory_rate_limit create_platform 1 2000 id_a (request []) init []
unfolding Dict.get text_eq
get_message_opaque_example =
    get_message_opaque memory_links memory_rate_limit create_platform 1 2000 id_a (request [])
      one_link init [] refl refl

open_message-Delivered_example :
    Delivered memory_links memory_rate_limit create_platform 5 id_a one_link
      (open_message memory_links memory_rate_limit create_platform 1 5 id_a
        (request [])
        one_link
        []).0
      (open_message memory_links memory_rate_limit create_platform 1 5 id_a
        (request [])
        one_link
        []).1
open_message-Delivered_example =
    open_message-Delivered memory_links memory_rate_limit create_platform 1 5 id_a (request [])
      one_link [] one_link-IsSound

revoke_message_opaque_example :
    ((revoke_message memory_links memory_rate_limit create_platform 1 2 id_a
        (request [])
        one_link
        []).0
      ≡ (revoke_message memory_links memory_rate_limit create_platform 1 3 id_a
          (record (request []) { revocation_token_header = none })
          init
          []).0)
    × ((revoke_message memory_links memory_rate_limit create_platform 1 2 id_a
          (request [])
          one_link
          []).2
        ≡ (revoke_message memory_links memory_rate_limit create_platform 1 3 id_a
            (record (request []) { revocation_token_header = none })
            init
            []).2)
revoke_message_opaque_example =
    revoke_message_opaque memory_links memory_rate_limit create_platform 1 2 3 id_a (request [])
      none one_link init []

-- The hash that the test's runtime gives every token is another one than this link's.
abbrev other_platform : Platform
other_platform = record create_platform { sha256_hex = λ s. other_digest }

other_hash :
    (t : Text)
    → provided_hash other_platform (some (codes "token")) ≡ some t
    → IsHexDigest t × (t ≢ digest)
unfolding provided_hash
other_hash t e =
    let same : other_digest ≡ t = cc in
    rw (← same) ((refl, refl, tt), λ k. omega (arith, ap length k))

revoke_message-refused_example :
    cell
      (revoke_message memory_links memory_rate_limit other_platform 1 2 id_a
        (request [])
        one_link
        []).1
      id_a
    ≡ cell one_link id_a
unfolding Dict.get text_eq
revoke_message-refused_example =
    revoke_message-refused memory_links memory_rate_limit other_platform 1 2 id_a digest
      (request []) one_link [] refl digest-IsHexDigest other_hash id_a

limit_passes :
    (limit memory_rate_limit create_platform 1
      (codes "messages:revoke:")
      rate_limit_max
      (request [])
      []).0
    ≡ pass
unfolding limit hash_ip hash_ip_with get_client_ip increment_and_get Dict.get Dict.set
limit_passes = refl

abbrev after_revoke : Response × MemoryStore × Dict.Dict ℕ
after_revoke =
    revoke_message memory_links memory_rate_limit create_platform 1 2 id_a (request []) one_link []

revoke_message-accepted_example :
    (after_revoke.0 ≡ revoked_ok id_a)
    × ((j : Text)
        → cell after_revoke.1 j ≡ (
            if text_eq id_a j
            then Cell.retire revoked 2 row_a (cell one_link j)
            else cell one_link j))
unfolding Dict.get text_eq is_link_id is_empty_body provided_hash
revoke_message-accepted_example =
    revoke_message-accepted memory_links memory_rate_limit create_platform 1 2 id_a digest
      (request []) one_link [] row_a refl refl limit_passes refl refl refl refl digest-IsHexDigest
      (λ e. cc e)

-- The test's runtime, but with texts that are as long as they have characters.
abbrev salted_platform : Platform
salted_platform = record create_platform { byte_length = length }

hash_ip-salt_config_error_example :
    is_some (hash_ip salted_platform (codes "1.2.3.4"))
    ≡ not (is_some (salt_config_error salted_platform))
hash_ip-salt_config_error_example = hash_ip-salt_config_error salted_platform (codes "1.2.3.4") refl
