-- ===== src/Runtime/Host.antt =====
-- `ActorHost` of src/runtime/host.ts: its state, and actions on the host, the storage driver and the
-- clock. What was changed before a throw stays changed. `Commit` has the turn of the worker,
-- `Activate` the activation, `Lifecycle` tells, calls and deactivation.
pub mod State
pub mod Commit
pub mod Activate
pub mod Lifecycle
pub mod Same
pub mod Replay
pub mod Sourcing
pub mod Recovery
