-- ===== src/Registry.antt =====
-- src/registry: the resolver of class versions.
pub mod Resolver
pub mod Signing
pub mod Publisher
pub mod Examples
pub mod PublishExamples
