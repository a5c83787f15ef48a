-- ===== src/Mobile/Identity.antt =====
-- apps/mobile/src/identity: the active key and the retired keys of a device.
pub mod Bundle
pub mod Machine
pub mod Decrypt
pub mod IdleLock
