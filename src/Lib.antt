-- ===== src/Lib.antt =====
-- aesmsg: one-time encrypted messages. A sender's client seals a payload, uploads the ciphertext under
-- a random link id with an expiry and a bound on opens, and gets a link and a revocation token; a
-- recipient's client opens the link, which counts one open and hands out the ciphertext. The server
-- keeps a row and a blob for each link, and the worker's sweep expires and prunes them.
--
-- The parts, with the code that they model:
--   Prelude, Dict: tests, lists and texts of native numbers; a JavaScript `Map` in insertion order.
--   Link: packages/server-store/src/types.ts and interfaces.ts. Link/Cell is the specification of a
--     store, one link at a time, Link/Sound its invariant, Link/Interface the record of the store's
--     operations (get, createWithCiphertext, incrementOpens, revoke, expirePastDue, pruneTerminal,
--     adminPurge) with their laws, and Link/History sequences of calls of any store.
--   ConstantTime: packages/server-store/src/constant-time.ts.
--   Memory: packages/server-store/src/memory, with retention.ts; Memory/Impl meets the interface.
--   Pg: packages/server-store/src/pg; Pg/Impl meets the interface, and Pg/Overflow bounds the counter.
--   RateLimit: the limiters of packages/server-store/src/memory and redis.
--   Api: apps/api/src/handlers/messages-handler.ts and apps/api/src/lib. The handlers take a store and
--     a limiter as parameters: create_message is createMessagesHandler, open_message
--     createOpenMessageHandler, and so on.
--   Agreement: the memory store and the Postgres store over the same calls.
--   Crypto: packages/crypto/src: Pad is pad.ts, Payload payload.ts, Aad aad.ts, Wire wire.ts,
--     Fingerprint fingerprint.ts, Seal seal.ts with identity.ts,
--     Wrap wrap.ts.
--   Worker: apps/worker/src/scheduler.ts.
--   Mobile: apps/mobile/src. Identity is identity/ (Bundle is identity-bundle.ts, Machine
--     identity-machine.ts with secure-store.ts, Decrypt decrypt-keys.ts, IdleLock
--     idle-lock-timer.ts), Contacts is contacts/contacts-store.ts with key-change.ts and label.ts, Links
--     the reconciliation, status and filters of links/, Links/Sent sent-links-store.ts, Wipe is
--     settings/wipe-orchestration.ts, and Reader is reader/open-coordinator.ts with the classifiers of
--     errors. Message seals as create/create-and-seal.ts does and opens as reader/fetch-and-open.ts.
--     Storage is storage/encrypted-store.ts over its blobs, with data-key.ts, and
--     Expiry create/expiry.ts with pro/custom-expiry.ts, and QuietHours notifications/quiet-hours.ts.
--     An action of the identity machine is a plan of writes and the state after them, which a crash
--     cuts off; a run of the wipe is the list of the calls that it makes.
--   Tests: runs of the theorems on concrete data.
--
-- Conventions. A `Date` is its milliseconds since 1970, a clock reading is an argument, one for
-- each reading that the code makes, save that the rows that one sweep expires share one. A string is the list of its UTF-16 code units, a byte array a
-- list of numbers. A throw is `none`, or an error value where callers tell errors apart. A method
-- of a class is a function from the state to the state. A statement or transaction of Postgres is
-- one atomic step, and the memory store's methods run to their end without another call between: a
-- history is a sequence of whole calls. A handler's run is one sequence of its own calls, but
-- Link/History/Blob lets other calls come between those of an open.
--
-- Parameters: the JavaScript runtime's JSON, dates, base64 and UTF-8, node:crypto, the Redis server,
-- the arithmetic of doubles, Argon2id and AES-GCM, the HPKE library, whose AEAD authenticates its
-- associated data.
--
-- Fuel: printing a number takes one more than the number, and a logarithm its argument, both more
-- than the steps that they need; the inner loop of base64 and base32 goes round at most twice.
--
-- Not modelled: network, SQL parsing, connection failures, process signals, user interface,
-- cryptographic primitives, biometric prompts, a retention whose cutoff is no valid `Date`, and actions
-- of the identity machine that overlap, other than its migration.
pub mod Prelude
pub mod Dict
pub mod Link
pub mod ConstantTime
pub mod Memory
pub mod Pg
pub mod RateLimit
pub mod Api
pub mod Crypto
pub mod Agreement
pub mod Worker
pub mod Mobile
pub mod Tests
