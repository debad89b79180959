-- ===== src/Evaluation/Splits.antt =====
-- `resolve_split_policy` of src/rulekiln/pipeline/split_policy.py.
use rule_kiln.Prelude.{
  ℕ, suc, ◌+◌, ◌≡◌, refl, sym, ◌∙◌, true, Option, none, some, List, [], ◌∷◌, String, keep, length,
  All, All-imp, All-keep, arith, if◌then◌else◌,
}
use rule_kiln.Evaluation.Cases.{Split, same_split, RuleKilnCase}

pub record SplitPolicyDecision : Type 0 where
  pub extraction_split : Split
  pub extraction_cases : List RuleKilnCase
  pub evaluation_split : Split
  pub evaluation_cases : List RuleKilnCase
  pub split_counts : List (Split × ℕ)
  pub fallback_warning : Option String

-- `counts[split] = counts.get(split, 0) + 1`
unfoldable pub bump : Split → List (Split × ℕ) → List (Split × ℕ)
bump s [] = (s, 1) ∷ []
bump s (e ∷ counts) =
    let rest = bump s counts in if same_split e.0 s then (e.0, suc e.1) ∷ counts else e ∷ rest

unfoldable pub count_from : List (Split × ℕ) → List RuleKilnCase → List (Split × ℕ)
count_from counts [] = counts
count_from counts (c ∷ cases) = count_from (bump c.split counts) cases

unfoldable pub count_cases_by_split : List RuleKilnCase → List (Split × ℕ)
count_cases_by_split cases = count_from [] cases

-- `[case for case in all_cases if case.split == …]`
abbrev pub cases_of : Split → List RuleKilnCase → List RuleKilnCase
cases_of s cases = keep (λ c. same_split c.split s) cases

abbrev pub decided :
    List (Split × ℕ)
    → List RuleKilnCase
    → Split
    → List RuleKilnCase
    → Option String
    → SplitPolicyDecision
decided counts train_cases split cases warning = record {
  extraction_split = Split.train;
  extraction_cases = train_cases;
  evaluation_split = split;
  evaluation_cases = cases;
  split_counts = counts;
  fallback_warning = warning;
}

-- The first split of validation, train and test that has cases, and else golden.
abbrev pub routed :
    List (Split × ℕ)
    → List RuleKilnCase
    → List RuleKilnCase
    → List RuleKilnCase
    → List RuleKilnCase
    → SplitPolicyDecision
routed counts tr (v ∷ va) te go = decided counts tr Split.validation (v ∷ va) none
routed counts (t ∷ tr) [] te go =
    decided counts (t ∷ tr) Split.train (t ∷ tr)
      (some "No validation cases detected. Evaluation fell back to split=train.")
routed counts [] [] (t ∷ te) go =
    decided counts [] Split.test (t ∷ te)
      (some "No validation/train cases detected. Evaluation fell back to split=test.")
routed counts [] [] [] go =
    decided counts [] Split.golden go
      (some "No validation/train/test cases detected. Evaluation fell back to split=golden.")

unfoldable pub resolve_split_policy : List RuleKilnCase → SplitPolicyDecision
resolve_split_policy cases =
    routed (count_cases_by_split cases) (cases_of Split.train cases)
      (cases_of Split.validation cases) (cases_of Split.test cases) (cases_of Split.golden cases)

pub same_split-eq : (s t : Split) → same_split s t ≡ true → s ≡ t
same_split-eq Split.train t h = ground arith
same_split-eq Split.validation t h = ground arith
same_split-eq Split.test t h = ground arith
same_split-eq Split.golden t h = ground arith

pub same_split_self : (s : Split) → same_split s s ≡ true
same_split_self Split.train = refl
same_split_self Split.validation = refl
same_split_self Split.test = refl
same_split_self Split.golden = refl

cases_of-split : (s : Split) (cases : List RuleKilnCase) → All (λ c. c.split ≡ s) (cases_of s cases)
cases_of-split s cases =
    All-imp (cases_of s cases) (λ c h. same_split-eq c.split s h)
      (All-keep (λ c. same_split c.split s) cases)

-- What a decision promises about the cases it was made on.
abbrev pub Routes : List RuleKilnCase → SplitPolicyDecision → Type 0
Routes cases d =
    (d.evaluation_cases ≡ cases_of d.evaluation_split cases)
    × (d.extraction_cases ≡ cases_of Split.train cases)
    × (d.evaluation_cases ≡ [] → cases ≡ [])

module _ (cases : List RuleKilnCase) (tr : cases_of Split.train cases ≡ [])
    (va : cases_of Split.validation cases ≡ []) (te : cases_of Split.test cases ≡ [])
    (go : cases_of Split.golden cases ≡ []) where
  none_of : (s : Split) → cases_of s cases ≡ []
  none_of Split.train = tr
  none_of Split.validation = va
  none_of Split.test = te
  none_of Split.golden = go

all_empty : (cases : List RuleKilnCase) → ((s : Split) → cases_of s cases ≡ []) → cases ≡ []
all_empty [] h = refl
all_empty (c ∷ cases) h = let e = h c.split in ground (arith, same_split_self c.split)

routed-Routes :
    (cases : List RuleKilnCase) (counts : List (Split × ℕ)) (tr va te go : List RuleKilnCase)
    → tr ≡ cases_of Split.train cases
    → va ≡ cases_of Split.validation cases
    → te ≡ cases_of Split.test cases
    → go ≡ cases_of Split.golden cases
    → Routes cases (routed counts tr va te go)
routed-Routes cases counts tr (v ∷ va) te go a b c d = (b, a, λ e. ground arith)
routed-Routes cases counts (t ∷ tr) [] te go a b c d = (a, a, λ e. ground arith)
routed-Routes cases counts [] [] (t ∷ te) go a b c d = (c, a, λ e. ground arith)
routed-Routes cases counts [] [] [] go a b c d =
    (d, a, λ e. all_empty cases (none_of cases (sym a) (sym b) (sym c) (sym d ∙ e)))

-- The evaluation cases are all the cases of the evaluation split and the extraction cases all those
-- of the training split, in their order; and evaluation has a case whenever there is one.
pub resolve_split_policy-Routes :
    (cases : List RuleKilnCase) → Routes cases (resolve_split_policy cases)
unfolding resolve_split_policy
resolve_split_policy-Routes cases =
    routed-Routes cases (count_cases_by_split cases) (cases_of Split.train cases)
      (cases_of Split.validation cases) (cases_of Split.test cases) (cases_of Split.golden cases)
      refl refl refl refl

-- `counts.get(split, 0)`
abbrev pub count_of : Split → List (Split × ℕ) → ℕ
count_of s [] = 0
count_of s (e ∷ counts) = if same_split e.0 s then e.1 else count_of s counts

count_of-bump :
    (s t : Split) (counts : List (Split × ℕ))
    → count_of s (bump t counts)
      ≡ (if same_split t s then suc (count_of s counts) else count_of s counts)
unfolding bump
count_of-bump s t [] = refl
count_of-bump s t (e ∷ counts) = ground (arith, same_split-eq e.0 t, count_of-bump s t counts)

count_of-count_from :
    (s : Split) (counts : List (Split × ℕ)) (cases : List RuleKilnCase)
    → count_of s (count_from counts cases) ≡ count_of s counts + length (cases_of s cases)
unfolding count_from
count_of-count_from s counts [] = omega arith
count_of-count_from s counts (c ∷ cases) =
    ground
      (arith, count_of-count_from s (bump c.split counts) cases, count_of-bump s c.split counts)

-- The count of a split is the number of its cases.
pub count_cases_by_split_lem :
    (s : Split) (cases : List RuleKilnCase)
    → count_of s (count_cases_by_split cases) ≡ length (cases_of s cases)
unfolding count_cases_by_split
count_cases_by_split_lem s cases = omega (arith, count_of-count_from s [] cases)
