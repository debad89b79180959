-- ===== src/Statistics/Paired.antt =====
-- `compute_paired_comparison`: the change of each case between two strategies, and the summary.
use rule_kiln.Prelude.{
  ℕ, zero, suc, ◌+◌, ◌≡◌, Bool, true, false, List, [], ◌∷◌, String, str_eq, count_if, length, arith,
  keep, Option, none, some,
}
use rule_kiln.Numbers.{Floats}

pub data ChangeClass : Type 0 where
  fixed broken both_correct both_wrong : ChangeClass

-- A case with its expected label and the two predictions.
pub record PairedCase : Type 0 where
  pub case_id : String
  pub expected_label : String
  pub baseline_prediction : String
  pub candidate_prediction : String

abbrev pub baseline_correct : PairedCase → Bool
baseline_correct c = str_eq c.baseline_prediction c.expected_label

abbrev pub candidate_correct : PairedCase → Bool
candidate_correct c = str_eq c.candidate_prediction c.expected_label

-- From whether the baseline and whether the candidate is correct. `both_correct` and `both_wrong`
-- are the class "unchanged" with its status.
abbrev pub change_class : Bool → Bool → ChangeClass
change_class false true = fixed
change_class true false = broken
change_class true true = both_correct
change_class false false = both_wrong

abbrev pub change_of : PairedCase → ChangeClass
change_of c = change_class (baseline_correct c) (candidate_correct c)

abbrev pub same_change : ChangeClass → ChangeClass → Bool
same_change fixed fixed = true
same_change broken broken = true
same_change both_correct both_correct = true
same_change both_wrong both_wrong = true
same_change _ _ = false

unfoldable pub examples_of : ChangeClass → List PairedCase → List PairedCase
examples_of k cases = keep (λ c. same_change (change_of c) k) cases

module _ (floats : Floats) where
  open floats use {F, of_ℕ, sub, div}

  pub record PairedComparisonSummary : Type 0 where
    pub fixed_count : ℕ
    pub broken_count : ℕ
    pub unchanged_correct_count : ℕ
    pub unchanged_wrong_count : ℕ
    pub total_cases : ℕ
    pub net_fix_rate : Option F
    pub overall_net_fix_rate : F

  -- (fixed - broken) / changed, if an outcome changed.
  abbrev pub net_rate : ℕ → ℕ → ℕ → Option F
  net_rate f b zero = none
  net_rate f b (suc changed) = some (div (sub (of_ℕ f) (of_ℕ b)) (of_ℕ (suc changed)))

  abbrev pub overall_rate : ℕ → ℕ → ℕ → F
  overall_rate f b zero = of_ℕ 0
  overall_rate f b (suc total) = div (sub (of_ℕ f) (of_ℕ b)) (of_ℕ (suc total))

  unfoldable pub summary_of : List PairedCase → PairedComparisonSummary
  summary_of cases =
      let f = length (examples_of fixed cases) in
      let b = length (examples_of broken cases) in
      record {
        fixed_count = f;
        broken_count = b;
        unchanged_correct_count = length (examples_of both_correct cases);
        unchanged_wrong_count = length (examples_of both_wrong cases);
        total_cases = length cases;
        net_fix_rate = net_rate f b (f + b);
        overall_net_fix_rate = overall_rate f b (length cases);
      }

  -- The four counts add up to the cases, and what the candidate has more correct than the baseline
  -- is what was fixed beyond what was broken.
  pub summary_of_lem :
      (cases : List PairedCase)
      → let s = summary_of cases in
        (s.fixed_count + s.broken_count + s.unchanged_correct_count + s.unchanged_wrong_count
          ≡ s.total_cases)
        × (count_if candidate_correct cases + s.broken_count
            ≡ count_if baseline_correct cases + s.fixed_count)
  unfolding summary_of examples_of
  summary_of_lem [] = (omega arith, omega arith)
  summary_of_lem (c ∷ cases) =
      let h = summary_of_lem cases in (ground (arith, h.0), ground (arith, h.1))
