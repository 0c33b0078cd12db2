-- ===== src/Policy.antt =====
-- src/policy and src/types/principal.ts: who calls, what a call is allowed, and which capability tokens
-- hold.
pub mod Principal
pub mod Evaluate
pub mod Blocklist
pub mod Capability
pub mod Examples
