-- ===== src/Mobile/Contacts/Reachable.antt =====
-- What holds of every directory that the operations of
-- apps/mobile/src/contacts/contacts-store.ts build.
use aesmsg.Prelude.{Bool, List, [], Text}
use aesmsg.Mobile.Contacts.{
  ContactsRuntime, ContactRecord, add_contact, delete_contact, update_contact_key,
  set_contact_verified, rename_contact,
}
use aesmsg.Mobile.Contacts.Sound.{Confirmed, confirm}

-- The directory, and what the user confirmed so far.
pub record World : Type 0 where
  pub contacts : List ContactRecord
  pub confirmed : Confirmed

module _ (R : ContactsRuntime) where
  -- The directories that the operations build from an empty one, each with its arguments.
  pub data Reachable : World → Type 0 where
    starts : Reachable (record { contacts = []; confirmed = [] })
    adds :
        {w : World} (id now label pk : Text)
        → Reachable w
        → Reachable (record w { contacts = (add_contact R id now label pk w.contacts).contacts })
    updates_key :
        {w : World} (now id pk : Text)
        → Reachable w
        → Reachable (record w { contacts = (update_contact_key R now id pk w.contacts).contacts })
    sets_verified :
        {w : World} (now id : Text) (verified : Bool)
        → Reachable w
        → Reachable (record {
          contacts = (set_contact_verified now id verified w.contacts).contacts;
          confirmed =
              confirm verified (set_contact_verified now id verified w.contacts).result w.confirmed;
        })
    renames :
        {w : World} (now id label : Text)
        → Reachable w
        → Reachable (record w { contacts = (rename_contact R now id label w.contacts).contacts })
    deletes :
        {w : World} (id : Text)
        → Reachable w
        → Reachable (record w { contacts = delete_contact id w.contacts })
