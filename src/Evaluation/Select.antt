-- ===== src/Evaluation/Select.antt =====
-- `select_strategy_generic` of src/rulekiln/pipeline/strategy_selection.py. Dictionaries are lists of
-- entries with distinct keys. A `none` is an exception, of `min` or of an index into no list.
use Prim.Native.Nat.{min}
use rule_kiln.Prelude.{
  ℕ, Bool, true, not, ◌||◌, Option, none, some, List, [], ◌∷◌, String, str_eq, keep, any,
  if◌then◌else◌, ◌==◌, sort_by, str_lt, ℤ,
}
use rule_kiln.Numbers.{Floats}
use rule_kiln.Pruning.Ranking.{lookup}
use rule_kiln.Evaluation.Cases.{EvalResult, TaskMode}
use rule_kiln.Evaluation.Gates.{QualityGateResult, primary_score}

module _ (floats : Floats) (int_of : floats.F → ℤ) where
  open floats use {F, lt, of_ℕ, neg, sub, div}

  pub data Reason : Type 0 where
    no_candidates fewer_golden lower_malformed fewer_tokens default_hdbscan stable_order : Reason
    by_primary_metric : F → Reason

  abbrev pub Entry : Type 0
  Entry = String × EvalResult F

  abbrev pub Gates : Type 0
  Gates = List (String × QualityGateResult floats int_of)

  -- `a <= b`, of floats that are not NaN.
  abbrev pub le : F → F → Bool
  le a b = not (lt b a)

  abbrev pub abs : F → F
  abs x = if lt x (of_ℕ 0) then neg x else x

  -- 0.005 and 0.001
  abbrev pub primary_metric_epsilon : F
  primary_metric_epsilon = div (of_ℕ 5) (of_ℕ 1000)

  abbrev pub malformed_epsilon : F
  malformed_epsilon = div (of_ℕ 1) (of_ℕ 1000)

  -- `max(f(x) for …)` and `min(f(x) for …)`, of a first entry and others.
  unfoldable pub top_of : (Entry → F) → Entry → List Entry → F
  top_of f c [] = f c
  top_of f c (d ∷ ds) = let rest = top_of f d ds in if lt (f c) rest then rest else f c

  unfoldable pub bottom_of : (Entry → F) → Entry → List Entry → F
  bottom_of f c [] = f c
  bottom_of f c (d ∷ ds) = let rest = bottom_of f d ds in if lt rest (f c) then rest else f c

  unfoldable pub least_of : (Entry → ℕ) → Entry → List Entry → ℕ
  least_of f c [] = f c
  least_of f c (d ∷ ds) = min (f c) (least_of f d ds)

  unfoldable pub select_top : (Entry → F) → List Entry → List Entry
  select_top f [] = []
  select_top f (c ∷ cs) = keep (λ d. le (sub (top_of f c cs) (f d)) primary_metric_epsilon) (c ∷ cs)

  unfoldable pub select_lowest_malformed : List Entry → List Entry
  select_lowest_malformed [] = []
  select_lowest_malformed (c ∷ cs) =
      keep
        (λ d.
          le (abs (sub d.1.malformed_output_rate (bottom_of (λ e. e.1.malformed_output_rate) c cs)))
            malformed_epsilon)
        (c ∷ cs)

  -- `_select_lowest_golden_failures` and `_select_lowest_prompt_tokens`: the least of a count.
  unfoldable pub select_least : (Entry → ℕ) → List Entry → List Entry
  select_least f [] = []
  select_least f (c ∷ cs) = keep (λ d. f d == least_of f c cs) (c ∷ cs)

  abbrev pub gate_failures : Option (QualityGateResult floats int_of) → ℕ
  gate_failures none = 0
  gate_failures (some g) = g.golden

  abbrev pub gate_passed : Option (QualityGateResult floats int_of) → Bool
  gate_passed none = true
  gate_passed (some g) = g.passed

  abbrev pub count_or_zero : Option ℕ → ℕ
  count_or_zero none = 0
  count_or_zero (some n) = n

  -- A single contender is selected; among none or several the next tie-break decides.
  abbrev pub single :
      (Entry → Reason)
      → List Entry
      → (List Entry → Option (String × Reason))
      → Option (String × Reason)
  single why [] next = next []
  single why (c ∷ []) next = some (c.0, why c)
  single why (c ∷ d ∷ cs) next = next (c ∷ d ∷ cs)

  abbrev pub first_name : List Entry → Option (String × Reason)
  first_name [] = none
  first_name (c ∷ cs) = some (c.0, stable_order)

  unfoldable pub last_choice : List Entry → Option (String × Reason)
  last_choice cs =
      if any (λ c. str_eq c.0 "hdbscan") cs
      then some ("hdbscan", default_hdbscan)
      else first_name (sort_by (λ c d. str_lt c.0 d.0) cs)

  module _ (mode : TaskMode) (gates : Gates) (prompt_tokens : List (String × ℕ)) where
    abbrev pub score_of_entry : Entry → F
    score_of_entry c = primary_score floats int_of mode c.1

    unfoldable pub by_tokens : List Entry → Option (String × Reason)
    by_tokens cs =
        single (λ _. fewer_tokens) (select_least (λ c. count_or_zero (lookup c.0 prompt_tokens)) cs)
          last_choice

    unfoldable pub by_malformed : List Entry → Option (String × Reason)
    by_malformed cs = single (λ _. lower_malformed) (select_lowest_malformed cs) by_tokens

    unfoldable pub by_golden : List Entry → Option (String × Reason)
    by_golden cs =
        single (λ _. fewer_golden) (select_least (λ c. gate_failures (lookup c.0 gates)) cs)
          by_malformed

    unfoldable pub by_score : List Entry → Option (String × Reason)
    by_score cs =
        single (λ c. by_primary_metric (score_of_entry c)) (select_top score_of_entry cs) by_golden

    -- `strategy not in excluded_candidates`; "baseline" is excluded beside the baseline strategy.
    unfoldable pub candidates : String → List Entry → List Entry
    candidates baseline evals = keep (λ c. not (str_eq c.0 baseline || str_eq c.0 "baseline")) evals

    unfoldable pub passing : List Entry → List Entry
    passing cs = keep (λ c. gate_passed (lookup c.0 gates)) cs

    -- `passing_candidates if passing_candidates else candidate_evals`
    abbrev pub pool_of : List Entry → List Entry → List Entry
    pool_of [] cs = cs
    pool_of (p ∷ ps) cs = p ∷ ps

    abbrev pub choose : String → List Entry → Option (String × Reason)
    choose baseline [] = some (baseline, no_candidates)
    choose baseline (c ∷ cs) = by_score (pool_of (passing (c ∷ cs)) (c ∷ cs))

    unfoldable pub select_strategy_generic : List Entry → String → Option (String × Reason)
    select_strategy_generic evals baseline = choose baseline (candidates baseline evals)
