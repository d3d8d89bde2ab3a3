-- ===== src/Policy.antt =====
-- packages/policy/src: the deterministic policy engine and the approval gate.
pub mod Types
pub mod Engine
pub mod Laws
