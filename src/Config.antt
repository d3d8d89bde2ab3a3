-- ===== src/Config.antt =====
-- packages/config/src: the model registry and the feature flags.
pub mod Models
pub mod Flags
