-- ===== src/Evaluation/Passing.antt =====
-- When the quality gates pass.
use rule_kiln.Prelude.{
  ℕ, zero, suc, any, IsSetOf, ◌≡◌, ◌↔◌, refl, sym, subst, Bool, true, false, not, ◌&&◌, Option,
  none, some, List, [], ◌∷◌, ◌++◌, String, str_eq, count_if, length, mem_str, arith, ltb_ℤ, ℤ, pos,
  ◌==◌,
}
use rule_kiln.Numbers.{Floats}
use rule_kiln.Evaluation.Cases.{
  Split, same_split, RuleKilnCase, CaseEvalResult, EvalResult, TaskMode, get_primary_metric,
}
use rule_kiln.Evaluation.Regressions.{passes, passed_in, IsSetOf-pass_ids, IsSetOf-regressions_of}
use rule_kiln.Evaluation.Gates.{
  Thresholds, Violation, golden_ids, golden_failures_of, regression_rate_of, delta_of, violated,
  delta_gate, regression_gate, or_zero, rate_of, primary_score, pass_ids, regressions_of,
  violations_of, check_quality_gates,
}

module _ (floats : Floats) (int_of : floats.F → ℤ) where
  open floats use {F, lt, of_ℕ, sub, div}

  is_clear : List (Violation floats int_of) → Bool
  is_clear vs = length vs == 0

  is_clear-append :
      (xs ys : List (Violation floats int_of)) → is_clear (xs ++ ys) ≡ (is_clear xs && is_clear ys)
  unfolding is_clear
  is_clear-append [] ys = refl
  is_clear-append (x ∷ xs) ys = ground arith

  all_clear :
      (a b c d e : List (Violation floats int_of))
      → (is_clear (a ++ (b ++ (c ++ (d ++ e)))) ≡ true) ↔ (
          (is_clear a ≡ true)
          × (is_clear b ≡ true)
          × (is_clear c ≡ true)
          × (is_clear d ≡ true)
          × (is_clear e ≡ true))
  all_clear a b c d e =
      rw
        (
          is_clear-append a (b ++ (c ++ (d ++ e))),
          is_clear-append b (c ++ (d ++ e)),
          is_clear-append c (d ++ e),
          is_clear-append d e,
        )
        (ground arith)

  is_clear-violated :
      (b : Bool) (v : Violation floats int_of)
      → (is_clear (violated floats int_of b v) ≡ true) ↔ (b ≡ false)
  unfolding is_clear
  is_clear-violated true v = ground arith
  is_clear-violated false v = ground arith

  -- The metric of the task, 0.0 if the evaluation has none.
  abbrev score_in : TaskMode → EvalResult F → F
  score_in TaskMode.classification e = or_zero floats int_of e.macro_f1
  score_in TaskMode.routing e = or_zero floats int_of e.macro_f1
  score_in _ e = or_zero floats int_of e.weighted_case_score

  -- The metric has not fallen by more than the task allows; without a baseline nothing is asked.
  abbrev KeepsMetric :
      Thresholds floats int_of → TaskMode → Option (EvalResult F) → EvalResult F → Type 0
  KeepsMetric t mode none e = Unit
  KeepsMetric t mode (some base) e =
      lt (sub (score_in mode e) (score_in mode base)) t.min_delta ≡ false

  abbrev share : ℕ → ℕ → F
  share n zero = of_ℕ 0
  share n (suc total) = div (of_ℕ n) (of_ℕ (suc total))

  -- The share of the cases that passed which no longer do is within the limit.
  abbrev KeepsCases :
      Thresholds floats int_of → Option (EvalResult F) → List String → List String → Type 0
  KeepsCases t none lost held = Unit
  KeepsCases t (some base) lost held =
      lt t.max_regression (share (length lost) (length held)) ≡ false

  -- The results of golden cases that did not pass.
  abbrev failed_golden : List RuleKilnCase → EvalResult F → ℕ
  failed_golden cases e =
      count_if
        (λ r.
          not r.passed && any (λ c. same_split c.split Split.golden && str_eq c.id r.case_id) cases)
        e.case_results

  -- The five requirements, given the cases that passed in the baseline and those among them that
  -- no longer do.
  abbrev pub Requires :
      Thresholds floats int_of
      → EvalResult F
      → Option (EvalResult F)
      → List RuleKilnCase
      → TaskMode
      → ℕ
      → List String
      → List String
      → Type 0
  Requires t e base cases mode tokens lost held =
      KeepsMetric t mode base e
      × (lt t.max_malformed e.malformed_output_rate ≡ false)
      × (ltb_ℤ t.max_golden (pos (failed_golden cases e)) ≡ false)
      × KeepsCases t base lost held
      × (ltb_ℤ t.max_tokens (pos tokens) ≡ false)

  primary_score-score_in :
      (mode : TaskMode) (e : EvalResult F) → primary_score floats int_of mode e ≡ score_in mode e
  unfolding primary_score get_primary_metric
  primary_score-score_in TaskMode.classification e = refl
  primary_score-score_in TaskMode.routing e = refl
  primary_score-score_in TaskMode.tool_use e = refl
  primary_score-score_in TaskMode.extraction e = refl
  primary_score-score_in TaskMode.summarization e = refl
  primary_score-score_in TaskMode.rubric_review e = refl
  primary_score-score_in TaskMode.freeform_generation e = refl
  primary_score-score_in TaskMode.agent_behavior e = refl

  keeps_metric :
      (t : Thresholds floats int_of) (mode : TaskMode) (base : Option (EvalResult F))
      (e : EvalResult F)
      → (is_clear (delta_gate floats int_of t (delta_of floats int_of mode base e)) ≡ true)
        ↔ KeepsMetric t mode base e
  unfolding is_clear delta_of
  keeps_metric t mode none e = ground arith
  keeps_metric t mode (some base) e =
      rw (primary_score-score_in mode e, primary_score-score_in mode base) (ground arith)

  mem-golden_ids :
      (x : String) (cases : List RuleKilnCase)
      → mem_str x (golden_ids floats int_of cases)
        ≡ any (λ c. same_split c.split Split.golden && str_eq c.id x) cases
  unfolding golden_ids
  mem-golden_ids x [] = refl
  mem-golden_ids x (c ∷ cases) = ground (arith, mem-golden_ids x cases)

  golden_failures_of_lem :
      (cases : List RuleKilnCase) (e : EvalResult F)
      → golden_failures_of floats int_of cases e ≡ failed_golden cases e
  unfolding golden_failures_of
  golden_failures_of_lem cases e = go e.case_results
    where
      go :
          (rs : List (CaseEvalResult F))
          → count_if (λ r. mem_str r.case_id (golden_ids floats int_of cases) && not r.passed) rs
            ≡ count_if
                (λ r.
                  not r.passed
                  && any (λ c. same_split c.split Split.golden && str_eq c.id r.case_id) cases)
                rs
      go [] = refl
      go (r ∷ rs) = rw (mem-golden_ids r.case_id cases, go rs) (ground arith)

  share-rate_of : (n total : ℕ) → rate_of floats int_of n total ≡ share n total
  share-rate_of n zero = refl
  share-rate_of n (suc total) = refl

  -- The sets behind the regression rate, and its gate.
  keeps_cases :
      (t : Thresholds floats int_of) (base : Option (EvalResult F)) (e : EvalResult F)
      → (lost : List String) × (held : List String) × IsSetOf
          (λ x. passed_in floats int_of base x && not (passes floats int_of x e))
          lost
        × IsSetOf (passed_in floats int_of base) held
        × ((is_clear
                (regression_gate floats int_of t base (regression_rate_of floats int_of base e))
              ≡ true)
            ↔ KeepsCases t base lost held)
  unfolding is_clear regression_rate_of
  keeps_cases t none e = ([], [], (λ k. refl), (λ k. refl), ground arith)
  keeps_cases t (some base) e = (
    regressions_of floats int_of base e,
    pass_ids floats int_of base,
    IsSetOf-regressions_of floats int_of base e,
    IsSetOf-pass_ids floats int_of base,
    rw
        (share-rate_of (length (regressions_of floats int_of base e))
          (length (pass_ids floats int_of base)))
        (is_clear-violated
          (lt t.max_regression (
            share (length (regressions_of floats int_of base e))
              (length (pass_ids floats int_of base))))
          _),
  )

  -- The gates pass exactly if all five requirements hold: the metric has not fallen by more than
  -- allowed, and of the cases that passed in the baseline, each counted once, the share that no
  -- longer does is within the limit, both if there is a baseline; the malformed outputs are within
  -- theirs; at most the allowed number of results of golden cases failed; the prompt is not too long.
  pub check_quality_gates-passed :
      (t : Thresholds floats int_of) (strategy : String) (e : EvalResult F)
      (base : Option (EvalResult F)) (cases : List RuleKilnCase) (mode : TaskMode) (tokens : ℕ)
      → (lost : List String) × (held : List String) × IsSetOf
          (λ x. passed_in floats int_of base x && not (passes floats int_of x e))
          lost
        × IsSetOf (passed_in floats int_of base) held
        × (((check_quality_gates floats int_of t strategy e base cases mode tokens).passed ≡ true)
            ↔ Requires t e base cases mode tokens lost held)
  unfolding check_quality_gates violations_of is_clear
  check_quality_gates-passed t strategy e base cases mode tokens =
      let delta = keeps_metric t mode base e in
      let malformed = is_clear-violated (lt t.max_malformed e.malformed_output_rate) _ in
      let golden =
        is_clear-violated (ltb_ℤ t.max_golden (pos (golden_failures_of floats int_of cases e))) _ in
      let (lost, held, lost_ok, held_ok, regression) = keeps_cases t base e in
      let length = is_clear-violated (ltb_ℤ t.max_tokens (pos tokens)) _ in
      let clear = all_clear _ _ _ _ _ in
      let same = golden_failures_of_lem cases e in
      let to_count : ltb_ℤ t.max_golden (pos (golden_failures_of floats int_of cases e)) ≡ false
          → ltb_ℤ t.max_golden (pos (failed_golden cases e)) ≡ false =
        subst (λ n. ltb_ℤ t.max_golden (pos n) ≡ false) same in
      (
        lost,
        held,
        lost_ok,
        held_ok,
        (
          λ h.
              let p = clear.0 h in
              (
                delta.0 p.0,
                malformed.0 p.1,
                to_count (golden.0 p.2),
                regression.0 p.3,
                length.0 p.4,
              ),
          λ q. clear.1 (
            delta.1 q.0,
            malformed.1 q.1,
            golden.1 (subst (λ n. ltb_ℤ t.max_golden (pos n) ≡ false) (sym same) q.2),
            regression.1 q.3,
            length.1 q.4,
          ),
        ),
      )
