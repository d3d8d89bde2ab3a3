-- ===== src/Adapter/Contracts.antt =====
-- packages/adapters/base/src/contracts.ts: the contract of capability and model adapters. An
-- adapter is code of a vendor or of the environment: its methods answer from a state `W` of the
-- world outside and may change it, and they may throw. Money is in units of 10⁻¹² USD.
use donnav.Common.{ℕ, String, List, Option, Result}

pub data HealthStatus : Type 0 where
  healthy degraded offline : HealthStatus

pub data ErrorClass : Type 0 where
  transient rate_limit unavailable auth deterministic unknown : ErrorClass

pub record HealthReport : Type 0 where
  pub status : HealthStatus
  pub detail : Option String

-- The confidence of an estimate is not modelled: no code reads it.
pub record CostEstimate : Type 0 where
  pub cost_usd : ℕ
  pub latency_ms : ℕ

pub record AdapterUsage : Type 0 where
  pub cost_usd : ℕ
  pub latency_ms : ℕ

pub record CapabilitySpec : Type 0 where
  pub id : String
  pub name : String
  pub version : String
  pub capabilities : List String

pub record ExecutionContext : Type 0 where
  pub idempotency_key : Option String
  pub correlation_id : Option String

pub data ModelRole : Type 0 where
  system user assistant tool : ModelRole

pub record ModelMessage : Type 0 where
  pub role : ModelRole
  pub content : String

pub record ModelRequest : Type 0 where
  pub messages : List ModelMessage
  pub max_output_tokens : Option ℕ
  pub reasoning_tier : Option ℕ

pub record ModelUsage : Type 0 where
  pub input_tokens : ℕ
  pub cached_input_tokens : Option ℕ
  pub output_tokens : ℕ
  pub reasoning_tokens : Option ℕ
  pub cost_usd : ℕ
  pub latency_ms : ℕ

pub record ModelResult : Type 0 where
  pub text : String
  pub usage : ModelUsage
  pub finish_reason : String

-- What a promise of an adapter is settled with: a value or a thrown error, and the world after.
abbrev pub Call : Type 0 → Type 0 → Type 0 → Type 0
Call W X A = W → Result X A × W

-- `CapabilityAdapter<I, O>`: `W` is the world, `X` the values that its code may throw.
-- `reportUsage` reads the world and `classifyError` only the error; neither throws. The methods
-- `health` and `cancel`, the name and the version are not called or read by the code modelled here.
pub record CapabilityAdapter (W X I O : Type 0) : Type 0 where
  pub id : String
  pub spec : CapabilitySpec
  pub estimate : I → ExecutionContext → Call W X CostEstimate
  pub execute : I → ExecutionContext → Call W X O
  pub report_usage : W → Option AdapterUsage
  pub classify_error : X → ErrorClass

-- `modelCapabilities` is not called by the code modelled here.
abbrev pub ModelAdapter : Type 0 → Type 0 → Type 0
ModelAdapter W X = CapabilityAdapter W X ModelRequest ModelResult
