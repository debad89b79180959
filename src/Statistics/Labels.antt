-- ===== src/Statistics/Labels.antt =====
-- `compute_accuracy`, `compute_per_label_metrics`, `compute_macro_f1` and the counts of
-- `compute_paired_comparison`. A `none` is the ValueError of lists that are not aligned.
use rule_kiln.Prelude.{
  ℕ, zero, suc, ◌+◌, Bool, true, false, not, ◌&&◌, Option, none, some, List, [], ◌∷◌, ◌++◌, map,
  String, str_eq, str_lt, sort_by, count_if, length, if◌then◌else◌, ◌>>=◌,
}
use mathlib.Core.List.{foldl}
use rule_kiln.Numbers.{Floats}
use rule_kiln.Evaluation.Gates.{set_of}

-- An actual and a predicted label.
abbrev pub Pair : Type 0
Pair = String × String

-- `zip(…, strict=True)` of lists that `_validate_aligned_inputs` accepts.
abbrev pub pair_with {ℓ κ} :
    {A : Type ℓ} {B : Type κ} → A × B → Option (List (A × B)) → Option (List (A × B))
pair_with p none = none
pair_with p (some ps) = some (p ∷ ps)

unfoldable pub aligned {ℓ κ} : {A : Type ℓ} {B : Type κ} → List A → List B → Option (List (A × B))
aligned [] [] = some []
aligned (x ∷ xs) (y ∷ ys) = pair_with (x, y) (aligned xs ys)
aligned [] (y ∷ ys) = none
aligned (x ∷ xs) [] = none

pub record LabelCounts : Type 0 where
  pub support : ℕ
  pub true_positive : ℕ
  pub false_positive : ℕ
  pub false_negative : ℕ

abbrev pub no_counts : LabelCounts
no_counts = record { support = 0; true_positive = 0; false_positive = 0; false_negative = 0 }

abbrev pub one_if : Bool → ℕ
one_if true = 1
one_if false = 0

-- The body of the loop over the pairs. The three cases of its `if` exclude one another.
abbrev pub counted : String → Pair → LabelCounts → LabelCounts
counted label (actual, predicted) c =
    let is_actual = str_eq actual label in
    let is_predicted = str_eq predicted label in
    record {
      support = c.support + one_if is_actual;
      true_positive = c.true_positive + one_if (is_actual && is_predicted);
      false_positive = c.false_positive + one_if (not is_actual && is_predicted);
      false_negative = c.false_negative + one_if (is_actual && not is_predicted);
    }

unfoldable pub tally : String → LabelCounts → List Pair → LabelCounts
tally label c [] = c
tally label c (p ∷ ps) = tally label (counted label p c) ps

-- `sorted(set(actual_labels) | set(predicted_labels))`
unfoldable pub label_set : List Pair → List String
label_set ps = sort_by str_lt (set_of (map (λ p. p.0) ps ++ map (λ p. p.1) ps))

unfoldable pub correct_count : List Pair → ℕ
correct_count ps = count_if (λ p. str_eq p.0 p.1) ps

module _ (floats : Floats) where
  open floats use {F, lt, of_ℕ, add, mul, div}

  pub record PerLabelMetricsRow : Type 0 where
    pub label : String
    pub counts : LabelCounts
    pub precision : F
    pub recall : F
    pub f1 : F

  -- `n / d if d > 0 else 0.0`
  abbrev pub ratio : ℕ → ℕ → F
  ratio n zero = of_ℕ 0
  ratio n (suc d) = div (of_ℕ n) (of_ℕ (suc d))

  abbrev pub f1_of : F → F → F
  f1_of precision recall =
      if lt (of_ℕ 0) (add precision recall)
      then div (mul (mul (of_ℕ 2) precision) recall) (add precision recall)
      else of_ℕ 0

  abbrev pub row_of : String → LabelCounts → PerLabelMetricsRow
  row_of name c =
      let p = ratio c.true_positive (c.true_positive + c.false_positive) in
      let r = ratio c.true_positive (c.true_positive + c.false_negative) in
      record { label = name; counts = c; precision = p; recall = r; f1 = f1_of p r }

  unfoldable pub compute_per_label_metrics :
      List String → List String → Option (List PerLabelMetricsRow)
  compute_per_label_metrics actual predicted = aligned actual predicted >>= λ ps.
      some (map (λ name. row_of name (tally name no_counts ps)) (label_set ps))

  unfoldable pub compute_accuracy : List String → List String → Option F
  compute_accuracy actual predicted =
      aligned actual predicted >>= λ ps. some (ratio (correct_count ps) (length ps))

  abbrev pub mean_of : List F → F
  mean_of [] = of_ℕ 0
  mean_of (x ∷ xs) = div (foldl add (of_ℕ 0) (x ∷ xs)) (of_ℕ (length (x ∷ xs)))

  unfoldable pub compute_macro_f1 : List PerLabelMetricsRow → F
  compute_macro_f1 rows = mean_of (map (λ r. r.f1) rows)
