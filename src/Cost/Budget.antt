-- ===== src/Cost/Budget.antt =====
-- packages/cost-governor/src/budget.ts and cost.ts. Money is in units of 10⁻¹² USD.
use donnav.Common.{
  ℕ, String, Bool, true, ◌≡◌, ◌↔◌, ◌+◌, ◌-◌, ◌*◌, ◌≤◌, ◌<◌, sym, subst, arith, Option, none, some,
  get_or, if◌then◌else◌,
}
use donnav.Common.Int.{ℤ, pos, sub_ℕ, leb_ℤ}
use donnav.Config.Models.{ModelEntry}

pub data BudgetScope : Type 0 where
  organization project user objective task provider model : BudgetScope

pub record Budget : Type 0 where
  pub scope : BudgetScope
  pub scope_ref : String
  pub limit_usd : ℕ

pub data BudgetReason : Type 0 where
  ok exceeds_budget : BudgetReason

pub record BudgetCheck : Type 0 where
  pub allowed : Bool
  pub remaining_usd : ℤ
  pub reason : BudgetReason

unfoldable pub check_budget : Budget → ℕ → ℕ → BudgetCheck
check_budget budget spent_usd estimate_usd =
    let remaining = sub_ℕ budget.limit_usd spent_usd in
    let allowed = leb_ℤ (pos estimate_usd) remaining in
    record {
      allowed = allowed;
      remaining_usd = remaining;
      reason = if allowed then BudgetReason.ok else exceeds_budget;
    }

pub record TokenUsage : Type 0 where
  pub input_tokens : ℕ
  pub cached_input_tokens : Option ℕ
  pub output_tokens : ℕ

-- `Math.max(0, a - b)` is the subtraction that stops at 0. The division by a million is taken up
-- by the units.
unfoldable pub estimate_cost_usd : ModelEntry → TokenUsage → ℕ
estimate_cost_usd entry usage =
    let cached = get_or usage.cached_input_tokens 0 in
    let uncached_input = usage.input_tokens - cached in
    let cached_rate = get_or entry.cached_input_cost_per_1m entry.input_cost_per_1m in
    let input_cost = uncached_input * entry.input_cost_per_1m + cached * cached_rate in
    let output_cost = usage.output_tokens * entry.output_cost_per_1m in input_cost + output_cost

-- An estimate is allowed exactly when it and what is spent stay within the limit together, also
-- when the limit has been passed already; the reason agrees with the answer.
pub check_budget_iff :
    (b : Budget) (spent estimate : ℕ)
    → ((check_budget b spent estimate).allowed ≡ true ↔ (spent + estimate ≤ b.limit_usd))
      × ((check_budget b spent estimate).reason ≡ exceeds_budget ↔ (b.limit_usd < spent + estimate))
unfolding check_budget
check_budget_iff b spent estimate = ground arith

cached_arith : (u c i r o : ℕ) → r ≤ i → u * i + c * r + o ≤ (u + c - 0) * i + 0 * r + o
cached_arith u c i r o h = grind arith

-- A model whose cached tokens cost no more than its other tokens never costs more for reading some
-- of the input from the cache, if no more tokens are cached than there are.
pub estimate_cost-cached :
    (m : ModelEntry) (tokens cached out : ℕ)
    → get_or m.cached_input_cost_per_1m m.input_cost_per_1m ≤ m.input_cost_per_1m
    → cached ≤ tokens
    → estimate_cost_usd m
        (record { input_tokens = tokens; cached_input_tokens = some cached; output_tokens = out })
      ≤ estimate_cost_usd m
          (record { input_tokens = tokens; cached_input_tokens = none; output_tokens = out })
unfolding estimate_cost_usd
estimate_cost-cached m tokens cached out r c =
    let split : tokens ≡ tokens - cached + cached = omega arith in
    subst
      (λ t.
        (tokens - cached) * m.input_cost_per_1m
          + cached * get_or m.cached_input_cost_per_1m m.input_cost_per_1m
          + out * m.output_cost_per_1m
        ≤ (t - 0) * m.input_cost_per_1m
          + 0 * get_or m.cached_input_cost_per_1m m.input_cost_per_1m
          + out * m.output_cost_per_1m)
      (sym split) (cached_arith (tokens - cached) cached m.input_cost_per_1m _ _ r)
