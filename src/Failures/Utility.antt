-- ===== src/Failures/Utility.antt =====
-- The counts that the pruning reads of `structured_failures`: `violated_rule_summary`,
-- `build_utility_signals` and the fraction that no rule is held to account for.
use rule_kiln.Prelude.{
  ℕ, ◌+◌, Bool, true, false, String, List, [], ◌∷◌, if◌then◌else◌, str_eq, length, keep, count_if,
  ◌==◌,
}
use rule_kiln.Numbers.{Floats}
use rule_kiln.Pruning.Ranking.{UtilitySignals}
use rule_kiln.Failures.Attribution.{
  unattributed_rule_id, FailureClass, fixed, broken, unchanged_wrong, unchanged_correct,
  CaseEvaluationFailure,
}

-- The entry of a rule in the summary.
pub record Counts : Type 0 where
  pub violated_count : ℕ
  pub broken_count : ℕ
  pub unchanged_wrong_count : ℕ
  pub fixed_count : ℕ

abbrev pub no_counts : Counts
no_counts = record {
  violated_count = 0;
  broken_count = 0;
  unchanged_wrong_count = 0;
  fixed_count = 0;
}

abbrev pub Summary : Type 0
Summary = List (String × Counts)

-- `summary.setdefault(rule_id, {...})`, changed in place.
unfoldable pub change : (Counts → Counts) → String → Summary → Summary
change f id [] = (id, f no_counts) ∷ []
change f id ((j, c) ∷ s) = if str_eq j id then (j, f c) ∷ s else (j, c) ∷ change f id s

unfoldable pub change_all : (Counts → Counts) → List String → Summary → Summary
unfolding change
change_all f [] s = s
change_all f (id ∷ ids) s = change_all f ids (change f id s)

unfoldable pub add_fixed : Counts → Counts
add_fixed c = record c { fixed_count = c.fixed_count + 1 }

unfoldable pub add_violated : FailureClass → Counts → Counts
add_violated broken c = record c {
  violated_count = c.violated_count + 1;
  broken_count = c.broken_count + 1;
}
add_violated unchanged_wrong c = record c {
  violated_count = c.violated_count + 1;
  unchanged_wrong_count = c.unchanged_wrong_count + 1;
}
add_violated fixed c = record c { violated_count = c.violated_count + 1 }
add_violated unchanged_correct c = record c { violated_count = c.violated_count + 1 }

abbrev pub is_fixed : FailureClass → Bool
is_fixed fixed = true
is_fixed _ = false

-- `failure_class in ("broken", "unchanged_wrong")`
abbrev pub is_failing : FailureClass → Bool
is_failing broken = true
is_failing unchanged_wrong = true
is_failing _ = false

unfoldable pub summarize : List CaseEvaluationFailure → Summary → Summary
unfolding change_all add_fixed add_violated
summarize [] s = s
summarize (x ∷ failures) s = summarize failures (
    change_all (add_violated x.failure_class) x.violated_rule_ids
      (if is_fixed x.failure_class then change_all add_fixed x.matched_rule_ids s else s))

unfoldable pub violated_rule_summary : List CaseEvaluationFailure → Summary
unfolding summarize
violated_rule_summary failures = summarize failures []

-- The comprehension over the summary.
unfoldable pub signals_of : Summary → UtilitySignals
signals_of [] = []
signals_of ((id, c) ∷ s) =
    if str_eq id unattributed_rule_id
    then signals_of s
    else (id, (c.fixed_count, c.broken_count)) ∷ signals_of s

unfoldable pub build_utility_signals : List CaseEvaluationFailure → UtilitySignals
unfolding violated_rule_summary signals_of
build_utility_signals failures = signals_of (violated_rule_summary failures)

-- Whether a failure names no rule.
abbrev pub is_unattributed : List String → Bool
is_unattributed [] = true
is_unattributed (v ∷ []) = str_eq v unattributed_rule_id
is_unattributed (v ∷ w ∷ violated) = false

unfoldable pub unattributed_fraction : (fl : Floats) → List CaseEvaluationFailure → fl.F
unattributed_fraction fl failures =
    let non_fixed = keep (λ x. is_failing x.failure_class) failures in
    if length non_fixed == 0
    then fl.of_ℕ 0
    else fl.div (fl.of_ℕ (count_if (λ x. is_unattributed x.violated_rule_ids) non_fixed))
        (fl.of_ℕ (length non_fixed))
