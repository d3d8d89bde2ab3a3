-- ===== src/Cost/Summary.antt =====
-- packages/cost-governor/src/ledger.ts: `summarizeByModel`. A quotient of the source is kept as the
-- pair of its numerator and its denominator, so it is neither rounded nor computed. Scores are
-- whole numbers in some unit.
use donnav.Common.{
  ℕ, String, Bool, List, [], ◌∷◌, ◌++◌, ◌≡◌, ◌+◌, refl, ap, ◌∙◌, Option, none, some, filter, length,
  get_or, ◌==◌, string_eq, eq_iff, Bool-cases, inl, inr, append_assoc_lem,
}
use donnav.Common.Dict.{Dict, get, put, get-put, IsMap, put-IsMap}

pub record ModelEvaluation : Type 0 where
  pub task_class : String
  pub model_id : String
  pub reasoning_tier : ℕ
  pub quality_score : ℕ
  pub accepted : Bool
  pub corrected : Bool
  pub cost_usd : ℕ
  pub latency_ms : ℕ

-- `over / under`
pub record Quotient : Type 0 where
  pub over : ℕ
  pub under : ℕ

pub record ModelClassSummary : Type 0 where
  pub count : ℕ
  pub acceptance_rate : Quotient
  pub avg_cost_usd : Quotient
  pub avg_quality : Quotient

sum_costs : ℕ → List ModelEvaluation → ℕ
sum_costs s [] = s
sum_costs s (r ∷ rows) = sum_costs (s + r.cost_usd) rows

sum_scores : ℕ → List ModelEvaluation → ℕ
sum_scores s [] = s
sum_scores s (r ∷ rows) = sum_scores (s + r.quality_score) rows

-- The body of the second loop, for the rows of one model.
unfoldable pub summary_of : List ModelEvaluation → ModelClassSummary
unfolding sum_costs sum_scores
summary_of rows =
    let count = length rows in
    let accepted = length (filter (λ r. r.accepted) rows) in
    record {
      count = count;
      acceptance_rate = record { over = accepted; under = count };
      avg_cost_usd = record { over = sum_costs 0 rows; under = count };
      avg_quality = record { over = sum_scores 0 rows; under = count };
    }

-- The first loop: each evaluation goes to the bucket of its model.
unfoldable pub group_from :
    Dict String (List ModelEvaluation) → List ModelEvaluation → Dict String (List ModelEvaluation)
group_from groups [] = groups
group_from groups (e ∷ evals) =
    group_from (put e.model_id (get_or (get e.model_id groups) [] ++ e ∷ []) groups) evals

-- The second loop.
unfoldable pub summarize_from :
    Dict String ModelClassSummary
    → Dict String (List ModelEvaluation)
    → Dict String ModelClassSummary
summarize_from out [] = out
summarize_from out ((model_id, rows) ∷ groups) =
    summarize_from (put model_id (summary_of rows) out) groups

unfoldable pub summarize_by_model : List ModelEvaluation → Dict String ModelClassSummary
unfolding group_from summarize_from
summarize_by_model evals = summarize_from [] (group_from [] evals)

-- The evaluations of one model, in order.
abbrev pub rows_for : String → List ModelEvaluation → List ModelEvaluation
rows_for k evals = filter (λ e. e.model_id == k) evals

-- A bucket after more rows.
abbrev bucket : Option (List ModelEvaluation) → List ModelEvaluation → Option (List ModelEvaluation)
bucket o [] = o
bucket o (x ∷ xs) = some (get_or o [] ++ x ∷ xs)

bucket-snoc :
    (o : Option (List ModelEvaluation)) (e : ModelEvaluation) (xs : List ModelEvaluation)
    → bucket (some (get_or o [] ++ e ∷ [])) xs ≡ bucket o (e ∷ xs)
bucket-snoc o e [] = refl
bucket-snoc o e (x ∷ xs) = ap some (append_assoc_lem (get_or o []) (e ∷ []) (x ∷ xs))

bucket-same :
    (j k : String) (groups : Dict String (List ModelEvaluation)) (e : ModelEvaluation)
    (xs : List ModelEvaluation)
    → j ≡ k
    → bucket (some (get_or (get j groups) [] ++ e ∷ [])) xs ≡ bucket (get k groups) (e ∷ xs)
bucket-same j k groups e xs p = rw p (bucket-snoc (get k groups) e xs)

get-group_from :
    (k : String) (evals : List ModelEvaluation) (groups : Dict String (List ModelEvaluation))
    → get k (group_from groups evals) ≡ bucket (get k groups) (rows_for k evals)
unfolding group_from
get-group_from k [] groups = refl
get-group_from k (e ∷ evals) groups =
    let row = get_or (get e.model_id groups) [] ++ e ∷ [] in
    get-group_from k evals (put e.model_id row groups)
    ∙ rw (get-put e.model_id k row groups) (elim (Bool-cases (e.model_id == k)) [
      | inl t ↦
          rw t (bucket-same e.model_id k groups e (rows_for k evals) ((eq_iff e.model_id k).0 t))
      | inr f ↦ rw f refl
    ])

group_from-IsMap :
    (evals : List ModelEvaluation) (groups : Dict String (List ModelEvaluation))
    → IsMap groups
    → IsMap (group_from groups evals)
unfolding group_from
group_from-IsMap [] groups h = h
group_from-IsMap (e ∷ evals) groups h = group_from-IsMap evals _ (put-IsMap e.model_id _ groups h)

abbrev summarized :
    Option (List ModelEvaluation) → Option ModelClassSummary → Option ModelClassSummary
summarized none before = before
summarized (some rows) before = some (summary_of rows)

get-summarize_from :
    (k : String) (groups : Dict String (List ModelEvaluation)) (out : Dict String ModelClassSummary)
    → IsMap groups
    → get k (summarize_from out groups) ≡ summarized (get k groups) (get k out)
unfolding summarize_from
get-summarize_from k [] out h = refl
get-summarize_from k ((j, rows) ∷ groups) out h =
    get-summarize_from k groups (put j (summary_of rows) out) h.1
    ∙ rw (get-put j k (summary_of rows) out) (elim (Bool-cases (j == k)) [
      | inl t ↦ rw (t, ← (eq_iff j k).0 t, h.0) refl
      | inr f ↦ rw f refl
    ])

abbrev pub summary_for : List ModelEvaluation → Option ModelClassSummary
summary_for [] = none
summary_for (x ∷ xs) = some (summary_of (x ∷ xs))

summarized-bucket :
    (rows : List ModelEvaluation) → summarized (bucket none rows) none ≡ summary_for rows
summarized-bucket [] = refl
summarized-bucket (x ∷ xs) = refl

-- The summary of a model is that of its own evaluations, taken in order from the whole list; a
-- model without evaluations has none.
pub get-summarize_by_model :
    (k : String) (evals : List ModelEvaluation)
    → get k (summarize_by_model evals) ≡ summary_for (rows_for k evals)
unfolding summarize_by_model
get-summarize_by_model k evals =
    get-summarize_from k (group_from [] evals) [] (group_from-IsMap evals [] tt)
    ∙ rw (get-group_from k evals []) (summarized-bucket (rows_for k evals))
