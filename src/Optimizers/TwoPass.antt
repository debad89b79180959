-- ===== src/Optimizers/TwoPass.antt =====
-- `_run_two_pass_optimizer`: the selected rules are pruned again in the modes that rank by utility, and
-- the prompts that come out are compared.
use rule_kiln.Prelude.{
  ℕ, not, ◌&&◌, Option, none, some, List, [], ◌∷◌, ◌++◌, map, String, length, mem_str,
  if◌then◌else◌,
}
use rule_kiln.Numbers.{Floats}
use rule_kiln.Rules.{Rule}
use rule_kiln.Pruning.Ranking.{PruningMode, UtilitySignals, lookup}
use rule_kiln.Pruning.Prune.{PruningConfig, prune_rules}
use rule_kiln.PromptCompiler.Sections.{◌+++◌}
use rule_kiln.Optimizers.Evals.{
  MetricName, is_distilled, StrategyEval, EvalMap, primary_score_for_metric, SynthesizedRule,
  get_selected_synthesized_rules, OptimizerCalls, OptimizerTask,
}
use rule_kiln.Optimizers.Ablation.{Classification, RuleAblationRecord}

abbrev pub or_none : Option ℕ → ℕ
or_none none = 0
or_none (some n) = n

-- The modes that the task allows, and their names.
pub data ConfiguredMode : Type 0 where
  support_count utility utility_per_token : ConfiguredMode

abbrev pub mode_strategy_id : String → String → String
mode_strategy_id strategy mode = strategy +++ "_pruning_" +++ mode

module _ (floats : Floats) where
  open floats use {F, lt, of_ℕ, sub}

  -- Less the name of the metric and the flag `evaluated`, which is set in every row.
  pub record PruningModeRow : Type 0 where
    pub mode : String
    pub strategy_id : String
    pub rule_count : ℕ
    pub prompt_tokens : ℕ
    pub score : Option F
    pub delta_vs_support_count : F

  -- `score if score else None`
  abbrev pub unless_zero : F → Option F
  unless_zero x = if not (lt x (of_ℕ 0)) && not (lt (of_ℕ 0) x) then none else some x

  abbrev pub tokens_of : Option (StrategyEval floats) → ℕ
  tokens_of none = 0
  tokens_of (some e) = or_none e.prompt_token_count

  -- The utility of a rule by its classification, its changed cases as a proxy.
  abbrev pub signal_of : Classification → String → ℕ → UtilitySignals → UtilitySignals
  signal_of Classification.helpful id changed signals = (id, (changed, 0)) ∷ signals
  signal_of Classification.harmful id changed signals = (id, (0, changed)) ∷ signals
  signal_of _ id changed signals = signals

  -- The loop over the records; a later record on a rule stands before an earlier one.
  unfoldable pub signals_of : List (RuleAblationRecord floats) → UtilitySignals → UtilitySignals
  signals_of [] signals = signals
  signals_of (a ∷ records) signals =
      signals_of records (signal_of a.classification a.rule_id (or_none a.changed_cases) signals)

  abbrev pub ablation_signals : Option (List (RuleAblationRecord floats)) → UtilitySignals
  ablation_signals none = []
  ablation_signals (some records) = signals_of records []

  -- Where the ablation says nothing, the support counts.
  abbrev pub or_support : UtilitySignals → List (Rule F) → UtilitySignals
  or_support [] rules = map (λ r. (r.id, (r.support_count, 0))) rules
  or_support (s ∷ signals) rules = s ∷ signals

  pub record ModeState : Type 0 where
    pub markers : List String
    pub eval_map : EvalMap floats
    pub rows : List PruningModeRow

  abbrev pub mark : ModeState → String → ModeState
  mark s id = record s { markers = s.markers ++ id ∷ [] }

  -- The rows of the comparison, or none where there is none to make. Its `selected_mode` is the
  -- configured one.
  pub record Comparison : Type 0 where
    pub rows : Option (List PruningModeRow)
    pub markers : List String
    pub eval_map : EvalMap floats

  module _ (calls : OptimizerCalls floats) (task : OptimizerTask floats) (metric : MetricName)
      (strategy : String) where
    open calls use {Prompt, compile, evaluate}

    abbrev pub score_of : Option (StrategyEval floats) → F
    score_of e = primary_score_for_metric floats metric e

    -- The row of the first pass.
    abbrev pub first_row : Option (StrategyEval floats) → ℕ → PruningModeRow
    first_row pass1 rule_count = record {
      mode = "support_count";
      strategy_id = strategy;
      rule_count = rule_count;
      prompt_tokens = tokens_of pass1;
      score = unless_zero (score_of pass1);
      delta_vs_support_count = of_ℕ 0;
    }

    module _ (pass1 : Option (StrategyEval floats)) where
      abbrev pub mode_row : String → ℕ → StrategyEval floats → PruningModeRow
      mode_row mode rule_count e = record {
        mode = mode;
        strategy_id = mode_strategy_id strategy mode;
        rule_count = rule_count;
        prompt_tokens = tokens_of (some e);
        score = unless_zero (score_of (some e));
        delta_vs_support_count = sub (score_of (some e)) (score_of pass1);
      }

      -- A mode whose marker stands: a row, if its evaluation is at hand, with the number of its cases
      -- in place of that of its rules.
      abbrev pub reload_mode : ModeState → String → Option (StrategyEval floats) → ModeState
      reload_mode s mode none = s
      reload_mode s mode (some prior) = record s {
        rows = s.rows ++ mode_row mode (length prior.result.case_results) prior ∷ [];
      }

      abbrev pub evaluated_mode : ModeState → String → ℕ → Option (StrategyEval floats) → ModeState
      evaluated_mode s mode rule_count none = mark s (mode_strategy_id strategy mode)
      evaluated_mode s mode rule_count (some e) =
          mark
            record s {
              eval_map = (mode_strategy_id strategy mode, e) ∷ s.eval_map;
              rows = s.rows ++ mode_row mode rule_count e ∷ [];
            }
            (mode_strategy_id strategy mode)

      abbrev pub compiled_mode : ModeState → String → ℕ → Option Prompt → ModeState
      compiled_mode s mode rule_count none = mark s (mode_strategy_id strategy mode)
      compiled_mode s mode rule_count (some prompt) =
          evaluated_mode s mode rule_count (evaluate prompt (mode_strategy_id strategy mode))

      abbrev pub pruned_mode : ModeState → String → List (Rule F) → ModeState
      pruned_mode s mode [] = mark s (mode_strategy_id strategy mode)
      pruned_mode s mode (r ∷ rs) =
          compiled_mode s mode (length (r ∷ rs)) (compile (r ∷ rs) (mode_strategy_id strategy mode))

      -- The arguments of the call of `prune_rules`.
      abbrev pub mode_config : UtilitySignals → PruningMode → PruningConfig floats
      mode_config signals mode = record {
        max_rules = task.max_rules;
        max_prompt_tokens = task.max_prompt_tokens;
        min_rule_support_count = task.min_rule_support_count;
        preserve_golden_rules = task.preserve_golden_rules;
        golden_case_ids = [];
        ranking_mode = mode;
        regression_penalty = task.rule_regression_penalty;
        utility_signals = signals;
        classroom_utility_signals = [];
      }

      -- One round of the loop over the modes.
      unfoldable pub run_mode :
          UtilitySignals → List (Rule F) → ModeState → String × PruningMode → ModeState
      run_mode signals schemas s (mode, ranking) =
          if mem_str (mode_strategy_id strategy mode) s.markers
          then reload_mode s mode (lookup (mode_strategy_id strategy mode) s.eval_map)
          else pruned_mode s mode
              (prune_rules floats (mode_config signals ranking) schemas).selected

      unfoldable pub run_modes :
          UtilitySignals → List (Rule F) → ModeState → List (String × PruningMode) → ModeState
      unfolding run_mode
      run_modes signals schemas s [] = s
      run_modes signals schemas s (m ∷ ms) =
          run_modes signals schemas (run_mode signals schemas s m) ms

    abbrev pub both_modes : List (String × PruningMode)
    both_modes =
        ("utility", PruningMode.utility) ∷ ("utility_per_token", PruningMode.utility_per_token) ∷ []

    abbrev pub compared : ModeState → Comparison
    compared s = record { rows = some s.rows; markers = s.markers; eval_map = s.eval_map }

    abbrev pub second_pass :
        List (Rule F)
        → Option (List (RuleAblationRecord floats))
        → List String
        → EvalMap floats
        → Comparison
    second_pass schemas ablation markers eval_map =
        let pass1 = lookup strategy eval_map in
        compared (
          run_modes pass1 (or_support (ablation_signals ablation) schemas) schemas
            record {
              markers = markers;
              eval_map = eval_map;
              rows = first_row pass1 (length schemas) ∷ [];
            }
            both_modes)

    unfoldable pub run_two_pass_optimizer :
        ConfiguredMode
        → List (SynthesizedRule floats)
        → Option (List (RuleAblationRecord floats))
        → List String
        → EvalMap floats
        → Comparison
    unfolding run_modes
    run_two_pass_optimizer ConfiguredMode.support_count rows ablation markers eval_map =
        let schemas = get_selected_synthesized_rules floats rows in
        record {
          rows = some (first_row (lookup strategy eval_map) (length schemas) ∷ []);
          markers = markers;
          eval_map = eval_map;
        }
    run_two_pass_optimizer _ rows ablation markers eval_map =
        if is_distilled strategy
        then second_pass (get_selected_synthesized_rules floats rows) ablation markers eval_map
        else record { rows = none; markers = markers; eval_map = eval_map }
