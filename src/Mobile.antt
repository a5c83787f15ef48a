-- ===== src/Mobile.antt =====
-- apps/mobile/src: the parts of the app that are free of screens.
pub mod Identity
pub mod Contacts
pub mod Links
pub mod Wipe
pub mod Message
pub mod Storage
pub mod Expiry
pub mod QuietHours
pub mod Reader
