-- ===== src/Optimizers/Ablation.antt =====
-- `_run_rule_ablation`: every rule is left out once, and what that changes is recorded.
use rule_kiln.Prelude.{
  ℕ, Bool, true, false, not, Option, none, some, List, [], ◌∷◌, ◌++◌, String, str_eq, ltb, take,
  keep, count_if, sum_by, mem_str, last_with, if◌then◌else◌,
}
use rule_kiln.Numbers.{Floats}
use rule_kiln.Rules.{Rule}
use rule_kiln.Pruning.Ranking.{lookup}
use rule_kiln.Evaluation.Cases.{CaseEvalResult}
use rule_kiln.PromptCompiler.Sections.{◌+++◌}
use rule_kiln.Optimizers.Evals.{
  MetricName, is_distilled, StrategyEval, EvalMap, primary_score_for_metric, SynthesizedRule,
  get_selected_synthesized_rules, OptimizerCalls, OptimizerTask,
}

pub data Classification : Type 0 where
  helpful harmful neutral inconclusive : Classification

pub data AblationError : Type 0 where
  compile_failed eval_failed : AblationError

abbrev pub differs : Bool → Bool → Bool
differs true b = not b
differs false b = b

unfoldable pub ablation_strategy_id : String → String
ablation_strategy_id rule_id = "ablation_without_" +++ rule_id

module _ (floats : Floats) where
  open floats use {F, lt, of_ℕ, neg, sub, div}

  -- `RuleAblationRecord`, less the name of the metric.
  pub record RuleAblationRecord : Type 0 where
    pub rule_id : String
    pub topic : String
    pub classification : Classification
    pub metric_delta_without_rule : Option F
    pub changed_cases : Option ℕ
    pub error : Option AblationError

  abbrev pub five_thousandths : F
  five_thousandths = div (of_ℕ 5) (of_ℕ 1000)

  -- `_ablation_classify`
  unfoldable pub ablation_classify : F → ℕ → ℕ → Classification
  ablation_classify delta changed_cases min_changed_cases =
      if ltb changed_cases min_changed_cases
      then Classification.inconclusive
      else if lt delta (neg five_thousandths)
      then Classification.helpful
      else if lt five_thousandths delta
      then Classification.harmful
      else Classification.neutral

  abbrev pub results_of : Option (StrategyEval floats) → List (CaseEvalResult F)
  results_of none = []
  results_of (some e) = e.result.case_results

  -- The sum over both lists of results, for an evaluation that was loaded.
  unfoldable pub changed_pairs : List (CaseEvalResult F) → List (CaseEvalResult F) → ℕ
  changed_pairs full prior =
      sum_by
        (λ br.
          count_if
            (λ ar. if str_eq br.case_id ar.case_id then differs br.passed ar.passed else false)
            prior)
        full

  abbrev pub passed_or : Bool → Option (CaseEvalResult F) → Bool
  passed_or default none = default
  passed_or default (some r) = r.passed

  -- `full_case_map.get(ar.case_id, ar.passed) != ar.passed`
  abbrev pub is_changed : List (CaseEvalResult F) → CaseEvalResult F → Bool
  is_changed full ar =
      differs (passed_or ar.passed (last_with (λ br. br.case_id) ar.case_id full)) ar.passed

  pub record AblationState : Type 0 where
    pub markers : List String
    pub eval_map : EvalMap floats
    pub records : List RuleAblationRecord

  abbrev pub recorded : AblationState → RuleAblationRecord → AblationState
  recorded s record_of = record s { records = s.records ++ record_of ∷ [] }

  -- A record, and the rule's marker.
  abbrev pub completed : AblationState → String → RuleAblationRecord → AblationState
  completed s id record_of = record s {
    records = s.records ++ record_of ∷ [];
    markers = s.markers ++ id ∷ [];
  }

  module _ (calls : OptimizerCalls floats) (task : OptimizerTask floats) (metric : MetricName) where
    open calls use {Prompt, compile, evaluate}

    abbrev pub measured : Rule F → F → ℕ → RuleAblationRecord
    measured r delta changed = record {
      rule_id = r.id;
      topic = r.topic;
      classification = ablation_classify delta changed task.ablation_min_changed_cases;
      metric_delta_without_rule = some delta;
      changed_cases = some changed;
      error = none;
    }

    abbrev pub failed : Rule F → AblationError → RuleAblationRecord
    failed r why = record {
      rule_id = r.id;
      topic = r.topic;
      classification = Classification.inconclusive;
      metric_delta_without_rule = none;
      changed_cases = none;
      error = some why;
    }

    module _ (rules : List (Rule F)) (full_eval : Option (StrategyEval floats)) where
      abbrev pub delta_of : StrategyEval floats → F
      delta_of e =
          sub (primary_score_for_metric floats metric (some e))
            (primary_score_for_metric floats metric full_eval)

      -- A rule whose marker stands: its record, if its evaluation is at hand.
      abbrev pub reload : AblationState → Rule F → Option (StrategyEval floats) → AblationState
      reload s r none = s
      reload s r (some prior) = recorded s (
          measured r (delta_of prior)
            (changed_pairs (results_of full_eval) prior.result.case_results))

      abbrev pub evaluated : AblationState → Rule F → Option (StrategyEval floats) → AblationState
      evaluated s r none =
          completed s (ablation_strategy_id r.id) (failed r AblationError.eval_failed)
      evaluated s r (some e) =
          completed (record s { eval_map = (ablation_strategy_id r.id, e) ∷ s.eval_map })
            (ablation_strategy_id r.id)
            (measured r (delta_of e)
              (count_if (is_changed (results_of full_eval)) e.result.case_results))

      abbrev pub compiled : AblationState → Rule F → Option Prompt → AblationState
      compiled s r none =
          completed s (ablation_strategy_id r.id) (failed r AblationError.compile_failed)
      compiled s r (some prompt) = evaluated s r (evaluate prompt (ablation_strategy_id r.id))

      -- One round of the loop.
      unfoldable pub ablate_rule : AblationState → Rule F → AblationState
      ablate_rule s r =
          if mem_str (ablation_strategy_id r.id) s.markers
          then reload s r (lookup (ablation_strategy_id r.id) s.eval_map)
          else compiled s r (
              compile (keep (λ other. not (str_eq other.id r.id)) rules)
                (ablation_strategy_id r.id))

      unfoldable pub ablate_rules : AblationState → List (Rule F) → AblationState
      unfolding ablate_rule
      ablate_rules s [] = s
      ablate_rules s (r ∷ rs) = ablate_rules (ablate_rule s r) rs

    -- The records, or none where the ablation is skipped.
    pub record Ablation : Type 0 where
      pub artifact : Option (List RuleAblationRecord)
      pub markers : List String
      pub eval_map : EvalMap floats

    abbrev pub skipped : List String → EvalMap floats → Ablation
    skipped markers eval_map = record { artifact = none; markers = markers; eval_map = eval_map }

    abbrev pub ablated : AblationState → Ablation
    ablated s = record { artifact = some s.records; markers = s.markers; eval_map = s.eval_map }

    abbrev pub ablate_selected : String → List (Rule F) → List String → EvalMap floats → Ablation
    ablate_selected strategy [] markers eval_map = skipped markers eval_map
    ablate_selected strategy (r ∷ rs) markers eval_map = ablated (
        ablate_rules (r ∷ rs) (lookup strategy eval_map)
          record { markers = markers; eval_map = eval_map; records = [] }
          (take task.max_ablation_rules (r ∷ rs)))

    unfoldable pub run_rule_ablation :
        String → ℕ → List (SynthesizedRule floats) → List String → EvalMap floats → Ablation
    unfolding ablate_rules
    run_rule_ablation selected_strategy eval_case_count rows markers eval_map =
        if task.enable_rule_ablation
        then if ltb task.small_run_case_threshold eval_case_count
          then skipped markers eval_map
          else if is_distilled selected_strategy
          then ablate_selected selected_strategy (get_selected_synthesized_rules floats rows)
              markers eval_map
          else skipped markers eval_map
        else skipped markers eval_map
