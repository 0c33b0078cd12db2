-- ===== src/Server.antt =====
-- src/server: the hooks around a request, the usage tracker, the subscriptions and the errors.
pub mod ManifestTracker
pub mod Pin
pub mod IdempotencyHooks
pub mod Auth
pub mod SubscriptionRegistry
pub mod Errors
pub mod Examples
pub mod AuthExamples
