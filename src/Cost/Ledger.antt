-- ===== src/Cost/Ledger.antt =====
-- packages/cost-governor/src/ledger.ts: `UsageLedger`. The state of the class is its records.
use donnav.Common.{
  ℕ, String, Bool, List, [], ◌∷◌, ◌++◌, ◌≡◌, ◌+◌, refl, arith, Option, none, some, filter, not, ap,
  inl, inr, ◌∙◌, if◌then◌else◌, Bool-cases,
}

pub record UsageRecord : Type 0 where
  pub model_id : String
  pub provider : String
  pub input_tokens : ℕ
  pub cached_input_tokens : Option ℕ
  pub output_tokens : ℕ
  pub cost_usd : ℕ
  pub latency_ms : ℕ
  pub task_id : Option String
  pub objective_id : Option String

abbrev pub UsageLedger : Type 0
UsageLedger = List UsageRecord

-- `UsageLedger.record`
unfoldable pub record_usage : UsageRecord → UsageLedger → UsageLedger
record_usage entry records = records ++ entry ∷ []

-- `rows.reduce((sum, r) => sum + r.costUsd, 0)`
unfoldable pub sum_from : ℕ → List UsageRecord → ℕ
sum_from sum [] = sum
sum_from sum (r ∷ rows) = sum_from (sum + r.cost_usd) rows

abbrev rows_of : Option (UsageRecord → Bool) → UsageLedger → List UsageRecord
rows_of none records = records
rows_of (some predicate) records = filter predicate records

unfoldable pub total_usd : Option (UsageRecord → Bool) → UsageLedger → ℕ
unfolding sum_from
total_usd predicate records = sum_from 0 (rows_of predicate records)

sum_from-append :
    (xs ys : List UsageRecord) (s : ℕ) → sum_from s (xs ++ ys) ≡ sum_from (sum_from s xs) ys
unfolding sum_from
sum_from-append [] ys s = refl
sum_from-append (x ∷ xs) ys s = sum_from-append xs ys (s + x.cost_usd)

sum_from-add : (xs : List UsageRecord) (s t : ℕ) → sum_from (s + t) xs ≡ s + sum_from t xs
unfolding sum_from
sum_from-add [] s t = refl
sum_from-add (x ∷ xs) s t =
    ap (λ k. sum_from k xs) (omega arith) ∙ sum_from-add xs s (t + x.cost_usd)

filter-snoc :
    (p : UsageRecord → Bool) (xs : List UsageRecord) (e : UsageRecord)
    → filter p (xs ++ e ∷ []) ≡ filter p xs ++ (if p e then e ∷ [] else [])
filter-snoc p [] e = refl
filter-snoc p (x ∷ xs) e = elim (Bool-cases (p x)) [
  | inl t ↦ rw t (ap (◌∷◌ x) (filter-snoc p xs e))
  | inr f ↦ rw f (filter-snoc p xs e)
]

-- Recording an entry raises the total by its cost, and a filtered total by its cost if the filter
-- takes the entry.
pub total_usd-record_usage :
    (p : UsageRecord → Bool) (e : UsageRecord) (l : UsageLedger)
    → (total_usd none (record_usage e l) ≡ total_usd none l + e.cost_usd)
      × (total_usd (some p) (record_usage e l)
          ≡ total_usd (some p) l + (if p e then e.cost_usd else 0))
unfolding total_usd record_usage
total_usd-record_usage p e l = (
  sum_from-append l (e ∷ []) 0,
  rw (filter-snoc p l e) (
      sum_from-append (filter p l) (if p e then e ∷ [] else []) 0
      ∙ elim (Bool-cases (p e)) [ inl t ↦ rw t refl | inr f ↦ rw f (omega arith) ]),
)

total-split :
    (p : UsageRecord → Bool) (l : UsageLedger) (s t : ℕ)
    → sum_from s (filter p l) + sum_from t (filter (λ r. not (p r)) l) ≡ sum_from (s + t) l
unfolding sum_from
total-split p [] s t = refl
total-split p (x ∷ xs) s t = elim (Bool-cases (p x)) [
  | inl e ↦ rw e (total-split p xs (s + x.cost_usd) t ∙ ap (λ k. sum_from k xs) (omega arith))
  | inr e ↦ rw e (total-split p xs s (t + x.cost_usd) ∙ ap (λ k. sum_from k xs) (omega arith))
]

-- What a filter takes and what it leaves add up to the total.
pub total_usd_split :
    (p : UsageRecord → Bool) (l : UsageLedger)
    → total_usd (some p) l + total_usd (some (λ r. not (p r))) l ≡ total_usd none l
unfolding total_usd
total_usd_split p l = total-split p l 0 0
