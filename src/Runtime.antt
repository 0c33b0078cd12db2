-- ===== src/Runtime.antt =====
-- src/runtime: the actor host, its mailbox, and the directory of live hosts.
pub mod Mailbox
pub mod Value
pub mod ActorClass
pub mod Host
pub mod Directory
pub mod Access
pub mod Facade
pub mod Loader
pub mod Reminders
pub mod Examples
pub mod PartExamples
pub mod FacadeExamples
