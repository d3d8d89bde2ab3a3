-- ===== src/Access.antt =====
-- apps/control-plane: who a request comes from, and how the tables behind that are kept.
pub mod Tenancy
pub mod Principals
pub mod ClerkEvents
pub mod Provisioning
pub mod Revocation
pub mod Upserts
pub mod Membership
pub mod Tokens
pub mod Authenticate
pub mod AuthLaws
pub mod Webhook
pub mod WebhookLaws
