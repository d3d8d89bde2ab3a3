-- ===== src/Adapter/Health.antt =====
-- packages/adapters/base/src/health.ts: `worstHealth` and `isRetryable`.
use donnav.Common.{
  ℕ, Bool, true, false, List, [], ◌∷◌, ◌≡◌, ◌⊎◌, ◌≤◌, refl, arith, ltb, if◌then◌else◌, In, All, map,
  inl,
}
use donnav.Adapter.Contracts.{
  HealthStatus, healthy, degraded, offline, HealthReport, ErrorClass, transient, rate_limit,
  unavailable,
}

-- `SEVERITY`
abbrev pub severity : HealthStatus → ℕ
severity healthy = 0
severity degraded = 1
severity offline = 2

-- The loop of `worstHealth` from the worst status so far.
worst_from : HealthStatus → List HealthReport → HealthStatus
worst_from worst [] = worst
worst_from worst (r ∷ rs) =
    worst_from (if ltb (severity worst) (severity r.status) then r.status else worst) rs

unfoldable pub worst_health : List HealthReport → HealthStatus
unfolding worst_from
worst_health reports = worst_from healthy reports

unfoldable pub is_retryable : ErrorClass → Bool
is_retryable transient = true
is_retryable rate_limit = true
is_retryable unavailable = true
is_retryable _ = false

worst_from-bounds :
    (worst : HealthStatus) (rs : List HealthReport)
    → (severity worst ≤ severity (worst_from worst rs))
      × All (λ r. severity r.status ≤ severity (worst_from worst rs)) rs
unfolding worst_from
worst_from-bounds worst [] = (omega arith, tt)
worst_from-bounds worst (r ∷ rs) =
    let next = if ltb (severity worst) (severity r.status) then r.status else worst in
    let (above, all) = worst_from-bounds next rs in (ground arith, (ground arith, all))

worst_from-attained :
    (worst : HealthStatus) (rs : List HealthReport)
    → (worst_from worst rs ≡ worst) ⊎ In (worst_from worst rs) (map (λ r. r.status) rs)
unfolding worst_from
worst_from-attained worst [] = inl refl
worst_from-attained worst (r ∷ rs) = ground (
  arith,
  worst_from-attained (if ltb (severity worst) (severity r.status) then r.status else worst) rs,
)

-- The aggregate is at least as severe as every report, and it is the status of one of them unless
-- all are healthy.
pub worst_health-IsWorst :
    (rs : List HealthReport)
    → All (λ r. severity r.status ≤ severity (worst_health rs)) rs
      × ((worst_health rs ≡ healthy) ⊎ In (worst_health rs) (map (λ r. r.status) rs))
unfolding worst_health
worst_health-IsWorst rs = ((worst_from-bounds healthy rs).1, worst_from-attained healthy rs)
