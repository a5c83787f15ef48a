-- ===== src/Mobile/Links/Sent.antt =====
-- apps/mobile/src/links/sent-links-store.ts and reminder-cancel.ts: the links that the device sent,
-- in one encrypted map keyed by identifier.
use aesmsg.Prelude.{
  Option, none, some, List, [], ◌∷◌, Text, codes, text_eq, Bool, ◌||◌, if◌then◌else◌,
}
use aesmsg.Dict.{Dict, get, set, remove}
use aesmsg.Mobile.Links.{SentLinkRecord}

-- A property name that a plain object inherits from `Object.prototype`.
unfoldable pub is_inherited : Text → Bool
is_inherited id =
    text_eq id (codes "constructor")
    || text_eq id (codes "__defineGetter__")
    || text_eq id (codes "__defineSetter__")
    || text_eq id (codes "hasOwnProperty")
    || text_eq id (codes "__lookupGetter__")
    || text_eq id (codes "__lookupSetter__")
    || text_eq id (codes "isPrototypeOf")
    || text_eq id (codes "propertyIsEnumerable")
    || text_eq id (codes "toString")
    || text_eq id (codes "valueOf")
    || text_eq id (codes "__proto__")
    || text_eq id (codes "toLocaleString")

-- What an own property of the map holds: a record, or only the reminder that was spread over an
-- inherited value.
pub data Entry : Type 0 where
  whole : SentLinkRecord → Entry
  only_reminder : Text → Entry

abbrev pub SentLinkMap : Type 0
SentLinkMap = Dict Entry

-- What `map[id]` is.
pub data Found : Type 0 where
  absent inherited : Found
  own : Entry → Found

abbrev pub found_in : Bool → Option Entry → Found
found_in is_proto (some e) = own e
found_in is_proto none = if is_proto then inherited else absent

unfoldable pub lookup : Text → SentLinkMap → Found
unfolding get is_inherited
lookup id m = found_in (is_inherited id) (get id m)

-- `map[id] = entry`, as it is saved: an assignment to `__proto__` makes no own property.
unfoldable pub assign : Text → Entry → SentLinkMap → SentLinkMap
unfolding set
assign id entry m = if text_eq id (codes "__proto__") then m else set id entry m

unfoldable pub record_sent_link : SentLinkRecord → SentLinkMap → SentLinkMap
unfolding assign
record_sent_link r m = assign r.id (whole r) m

-- `{ ...existing, reminderNotificationId }`
abbrev pub with_reminder : Text → Entry → Entry
with_reminder notification (whole r) =
    whole (record r { reminder_notification_id = some notification })
with_reminder notification (only_reminder old) = only_reminder notification

unfoldable pub set_sent_link_reminder_notification_id : Text → Text → SentLinkMap → SentLinkMap
unfolding lookup assign
set_sent_link_reminder_notification_id id notification m = elim (lookup id m) [
  | absent ↦ m
  | inherited ↦ assign id (only_reminder notification) m
  | own existing ↦ assign id (with_reminder notification existing) m
]

unfoldable pub get_sent_link : Text → SentLinkMap → Found
unfolding lookup
get_sent_link id m = lookup id m

unfoldable pub delete_sent_link : Text → SentLinkMap → SentLinkMap
unfolding lookup remove
delete_sent_link id m = elim (lookup id m) [ absent ↦ m | _ ↦ remove id m ]

unfoldable pub clear_sent_links : SentLinkMap → SentLinkMap
clear_sent_links m = []

unfoldable pub reminder_cancel_target : Option SentLinkRecord → Option Text
reminder_cancel_target none = none
reminder_cancel_target (some r) = r.reminder_notification_id

-- A call that changes the store.
pub data Call : Type 0 where
  records : SentLinkRecord → Call
  reminds : Text → Text → Call
  deletes : Text → Call
  clears : Call

unfoldable pub run : List Call → SentLinkMap → SentLinkMap
unfolding record_sent_link set_sent_link_reminder_notification_id delete_sent_link clear_sent_links
run [] m = m
run (records r ∷ cs) m = run cs (record_sent_link r m)
run (reminds id notification ∷ cs) m =
    run cs (set_sent_link_reminder_notification_id id notification m)
run (deletes id ∷ cs) m = run cs (delete_sent_link id m)
run (clears ∷ cs) m = run cs (clear_sent_links m)

abbrev remind : Text → Found → Found
remind notification (own e) = own (with_reminder notification e)
remind notification found = found

-- What the calls make of one link.
abbrev pub run_one : Text → List Call → Found → Found
run_one id [] link = link
run_one id (records r ∷ cs) link = run_one id cs (if text_eq r.id id then own (whole r) else link)
run_one id (reminds j notification ∷ cs) link =
    run_one id cs (if text_eq j id then remind notification link else link)
run_one id (deletes j ∷ cs) link = run_one id cs (if text_eq j id then absent else link)
run_one id (clears ∷ cs) link = run_one id cs absent
