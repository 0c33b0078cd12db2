-- ===== src/Storage.antt =====
-- src/storage: the durable state behind the `StorageDriver` boundary. `Types` has the records of
-- driver.ts; `Driver` has the state of the in-memory driver (memory.ts), and each child below has
-- one group of its operations, with the proofs in the modules below that.
pub mod Types
pub mod Driver
pub mod Actors
pub mod Snapshots
pub mod Events
pub mod Inbox
pub mod Reminders
pub mod Classes
pub mod Idempotency
pub mod Fencing
pub mod Examples
