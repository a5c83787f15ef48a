-- ===== src/Tests/Contacts.antt =====
-- The theorems on the app's contacts, its sent links, the wipe, the reader and
-- the expiry of a link.
use aesmsg.Prelude.{
  arith, ℕ, zero, suc, ◌+◌, ◌≤◌, ◌≡◌, ◌↔◌, refl, ltb, leb, true, none, some, List, [], ◌∷◌, ◌++◌,
  codes, text_eq, All, length,
}
use aesmsg.Link.{pos}
use aesmsg.Mobile.Contacts.{
  ContactsRuntime, ContactRecord, throws, same_key, Outcome, add_contact, update_contact_key,
  commit, resolves, returned, new_contact, detect_key_change, update_contact, find_index,
  contact_at, change_key,
}
use aesmsg.Mobile.Contacts.Errors.{IsUnused, added, add_contact_iff}
use aesmsg.Mobile.Contacts.Update.{Updates, rotation_result, update_contact_key-get}
use aesmsg.Dict
use aesmsg.Mobile.Links.{Numbers, SentLinkRecord, gone, reconcile_sent_links}
use aesmsg.Mobile.Links.Status.{IsRevokedTruly, derive_link_status-reconcile}
use aesmsg.Mobile.Links.Sent.{
  Call, records, deletes, reminds, is_inherited, lookup, assign, only_reminder,
  set_sent_link_reminder_notification_id,
}
use aesmsg.Api.Create.{expiry_of, default_max_retention_ms}
use aesmsg.Mobile.Expiry.{expiry_to_date, preset, one_year, expiry_of-Picked}
use aesmsg.Mobile.Wipe
use aesmsg.Mobile.Wipe.Sequence
use aesmsg.Mobile.Reader.{Coordinator, begin}
use aesmsg.Mobile.Reader.Once.{begins, answers, steps, step, steps-posts}
use aesmsg.Mobile.Reader.Own.{begun, after, IsFor, Reached-IsFor}

abbrev runtime : ContactsRuntime
runtime = record { trim = λ raw. raw; fingerprint = λ pk. some pk }

abbrev ada : ContactRecord
ada = new_contact (codes "1") (codes "now") (codes "Ada") (codes "key") (codes "key")

update_contact_key-get_example :
    Updates
      (λ c.
        rotation_result (codes "then") (codes "new") c (detect_key_change runtime c (codes "new")))
      (codes "1")
      (ada ∷ [])
      (update_contact_key runtime (codes "then") (codes "1") (codes "new") (ada ∷ []))
      (codes "1")
update_contact_key-get_example =
    update_contact_key-get runtime (codes "then") (codes "1") (codes "new") (ada ∷ []) (codes "1")

abbrev refused : Outcome
refused = update_contact_key runtime (codes "then") (codes "1") (codes "key") (ada ∷ [])

refused-same_key : refused.result ≡ throws same_key
unfolding update_contact_key update_contact change_key find_index contact_at text_eq
refused-same_key = refl

add_contact_iff_example :
    ((commit resolves
        (add_contact runtime (codes "1") (codes "now") (codes "Ada") (codes "key") [])).ended
      ≡ returned ada)
    ↔ ((1 ≤ length (runtime.trim (codes "Ada")))
        × (length (runtime.trim (codes "Ada")) ≤ 80)
        × All (IsUnused runtime (codes "key")) []
        × (resolves ≡ resolves)
        × (added runtime (codes "1") (codes "now") (codes "Ada") (codes "key") (codes "key") ≡ ada))
add_contact_iff_example =
    add_contact_iff runtime resolves (codes "1") (codes "now") (codes "Ada") (codes "key")
      (codes "key") [] ada refl

-- Numbers that are natural, and a date that is read off its first code unit.
abbrev numbers : Numbers
numbers = record {
  Num = ℕ;
  lt = ltb;
  le = leb;
  sub = λ a b. a;
  mul = λ a b. a;
  of_nat = λ n. n;
  one_fifth = 0;
  get_time = λ s. elim s [ [] ↦ 0 | c ∷ cs ↦ c ];
}

abbrev sent : SentLinkRecord
sent = record {
  id = codes "a";
  recipient_fingerprint = codes "fp";
  created_at = codes "1";
  expires_at = codes "9";
  max_opens = pos 1;
  label = none;
  revocation_token = some (codes "token");
  reminder_notification_id = none;
}

derive_link_status-reconcile_example :
    All
      (IsRevokedTruly numbers (some ((codes "a", gone) ∷ [])) 10)
      (reconcile_sent_links numbers (sent ∷ []) (some ((codes "a", gone) ∷ [])) 10)
derive_link_status-reconcile_example =
    derive_link_status-reconcile numbers (sent ∷ []) (some ((codes "a", gone) ∷ [])) 10

abbrev calls : List Call
calls = records sent ∷ deletes (codes "a") ∷ reminds (codes "a") (codes "n") ∷ []

-- A reminder for an identifier of link shape that was never recorded.
inherited_reminder :
    set_sent_link_reminder_notification_id (codes "__defineGetter__") (codes "n") []
    ≡ (codes "__defineGetter__", only_reminder (codes "n")) ∷ []
unfolding set_sent_link_reminder_notification_id lookup assign is_inherited text_eq Dict.get
    Dict.set
inherited_reminder = refl

-- Two links, of which the first cannot be revoked; the user goes on.
abbrev two_links : List Wipe.WipeLinkRef
two_links = record { id = codes "a"; label = none } ∷ record { id = codes "b"; label = none } ∷ []

abbrev deps : Wipe.RevokeThenWipeDeps
deps = record {
  links = some two_links;
  revoke = λ i id. elim i [ zero ↦ Wipe.rejects none | suc j ↦ Wipe.rejects (some 404) ];
  confirm = λ failures. some true;
  wipe = true;
}

revoke_all_then_wipe-calls_example :
    (Wipe.revoke_all_then_wipe deps).calls
    ≡ Sequence.revokes_all deps 0 2 two_links
      ++ Sequence.last_calls deps (Sequence.stranded deps 0 two_links)
revoke_all_then_wipe-calls_example = Sequence.revoke_all_then_wipe-calls deps two_links refl

abbrev wiped : Wipe.RevokeThenWipeResult
wiped = record {
  wiped = true;
  revoked_count = 1;
  failures = record { link = record { id = codes "a"; label = none }; error = none } ∷ [];
}

deps-result : (Wipe.revoke_all_then_wipe deps).result ≡ some wiped
unfolding Wipe.revoke_all_then_wipe Wipe.revoke_from Wipe.is_already_gone_revoke_error
deps-result = refl

revoke_all_then_wipe-result_example :
    (wiped.failures ≡ Sequence.stranded deps 0 two_links)
    × (wiped.revoked_count + length wiped.failures ≡ 2)
    × (wiped.wiped ≡ Sequence.proceeds deps (Sequence.stranded deps 0 two_links))
revoke_all_then_wipe-result_example =
    Sequence.revoke_all_then_wipe-result deps two_links wiped refl deps-result

abbrev empty : Coordinator ℕ
empty = record { current = none; posts = [] }

steps-posts_example :
    (steps ℕ (begins (codes "a") ∷ begins (codes "a") ∷ answers 0 7 ∷ []) empty).posts
    ≡ (begin ℕ (codes "a") empty).1.posts
steps-posts_example =
    steps-posts ℕ (codes "a") (begins (codes "a") ∷ answers 0 7 ∷ []) empty (refl, (tt, tt))

Reached-IsFor_example :
    IsFor ℕ
      (codes "a")
      (answers 0 7 ∷ begins (codes "a") ∷ [])
      (begin ℕ (codes "a") (step ℕ (answers 0 7) (step ℕ (begins (codes "a")) empty)))
Reached-IsFor_example =
    Reached-IsFor ℕ (codes "a") (answers 0 7 ∷ begins (codes "a") ∷ []) _
      (after (answers 0 7) (after (begins (codes "a")) begun))

-- A year from a clock that is half an hour ahead of the server's.
expiry_of-Picked_example :
    expiry_of 0 default_max_retention_ms (some (pos (expiry_to_date one_year 1800000)))
    ≡ some (expiry_to_date one_year 1800000)
expiry_of-Picked_example =
    expiry_of-Picked 1800000 0 (expiry_to_date one_year 1800000) (preset one_year) (omega arith)
      (omega arith)
