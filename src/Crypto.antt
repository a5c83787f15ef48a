-- ===== src/Crypto.antt =====
-- packages/crypto/src: the wire formats. A byte sequence is a list of numbers below 256.
pub mod BigEndian
pub mod Pad
pub mod Payload
pub mod Aad
pub mod Wire
pub mod Fingerprint
pub mod Seal
pub mod Wrap
