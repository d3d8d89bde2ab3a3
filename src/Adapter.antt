-- ===== src/Adapter.antt =====
-- packages/adapters/base/src: what all adapters share, contracts.ts and health.ts.
pub mod Contracts
pub mod Health
pub mod Function
pub mod Http
pub mod HttpLaws
pub mod Completions
pub mod OpenAi
pub mod Local
pub mod Anthropic
pub mod VendorLaws
pub mod Ghl
pub mod GhlLaws
