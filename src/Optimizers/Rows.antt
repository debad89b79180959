-- ===== src/Optimizers/Rows.antt =====
-- The rows of a comparison of pruning modes, in one run and when it is taken up again.
use text.Mathlib.TextLemmas.{append_cancel_left}
use rule_kiln.Prelude.{
  ℕ, suc, ◌≤◌, ◌≡◌, ◌≢◌, refl, ap, ◌∙◌, true, false, Option, none, some, List, [], ◌∷◌, ◌++◌,
  String, eq_iff, length, length-append, mem_str, All, All-append, arith,
}
use rule_kiln.Numbers.{Floats}
use rule_kiln.Rules.{Rule}
use rule_kiln.Pruning.Ranking.{PruningMode, UtilitySignals, lookup}
use rule_kiln.Pruning.Prune.{prune_rules}
use rule_kiln.Pruning.Budget.{prune_rules_bounds}
use rule_kiln.PromptCompiler.Sections.{◌+++◌}
use rule_kiln.Optimizers.Evals.{
  MetricName, is_distilled, StrategyEval, EvalMap, SynthesizedRule, get_selected_synthesized_rules,
  OptimizerCalls, OptimizerTask,
}
use rule_kiln.Optimizers.Ablation.{RuleAblationRecord}
use rule_kiln.Optimizers.Rounds.{mem_str-append}
use rule_kiln.Optimizers.TwoPass.{
  ConfiguredMode, mode_strategy_id, PruningModeRow, ModeState, Comparison, first_row, mode_row,
  evaluated_mode, compiled_mode, pruned_mode, mode_config, run_mode, run_modes, or_support,
  ablation_signals, second_pass, run_two_pass_optimizer,
}

module _ (floats : Floats) (calls : OptimizerCalls floats) (task : OptimizerTask floats)
    (metric : MetricName) (strategy : String) where
  open floats use {F}
  open calls use {Prompt, compile, evaluate}

  -- At least one rule, and no more than allowed.
  abbrev pub IsWithin : PruningModeRow floats → Type 0
  IsWithin row = (1 ≤ row.rule_count) × (row.rule_count ≤ task.max_rules)

  module _ (pass1 : Option (StrategyEval floats)) (first : PruningModeRow floats) where
    -- At most `k` rows within the bounds stand after the first.
    abbrev Grown : ℕ → List (PruningModeRow floats) → Type 0
    Grown k rows =
        (extra : List (PruningModeRow floats)) × (rows ≡ first ∷ extra)
        × All IsWithin extra
        × (length extra ≤ k)

    -- What a round leaves: its marker, and at most one row more.
    abbrev Leaves : ℕ → ModeState floats → String → ModeState floats → Type 0
    Leaves k s mode s' =
        (s'.markers ≡ s.markers ++ mode_strategy_id strategy mode ∷ []) × Grown (suc k) s'.rows

    unchanged : (k : ℕ) (rows : List (PruningModeRow floats)) → Grown k rows → Grown (suc k) rows
    unchanged k rows (extra, e, within, few) = (extra, e, within, omega arith)

    evaluated-Leaves :
        (k : ℕ) (s : ModeState floats) (mode : String) (n : ℕ) (o : Option (StrategyEval floats))
        → (1 ≤ n) × (n ≤ task.max_rules)
        → Grown k s.rows
        → Leaves k s mode (evaluated_mode floats calls task metric strategy pass1 s mode n o)
    evaluated-Leaves k s mode n none h grown = (refl, unchanged k s.rows grown)
    evaluated-Leaves k s mode n (some e) h (extra, same, within, few) =
        let row = mode_row floats calls task metric strategy pass1 mode n e in
        (
          refl,
          (
            extra ++ row ∷ [],
            ap (λ l. l ++ row ∷ []) same,
            All-append IsWithin extra (row ∷ []) within (h, tt),
            omega (arith, length-append extra (row ∷ [])),
          ),
        )

    compiled-Leaves :
        (k : ℕ) (s : ModeState floats) (mode : String) (n : ℕ) (o : Option Prompt)
        → (1 ≤ n) × (n ≤ task.max_rules)
        → Grown k s.rows
        → Leaves k s mode (compiled_mode floats calls task metric strategy pass1 s mode n o)
    compiled-Leaves k s mode n none h grown = (refl, unchanged k s.rows grown)
    compiled-Leaves k s mode n (some prompt) h grown =
        evaluated-Leaves k s mode n (evaluate prompt (mode_strategy_id strategy mode)) h grown

    pruned-Leaves :
        (k : ℕ) (s : ModeState floats) (mode : String) (rules : List (Rule F))
        → length rules ≤ task.max_rules
        → Grown k s.rows
        → Leaves k s mode (pruned_mode floats calls task metric strategy pass1 s mode rules)
    pruned-Leaves k s mode [] h grown = (refl, unchanged k s.rows grown)
    pruned-Leaves k s mode (r ∷ rs) h grown =
        compiled-Leaves k s mode (length (r ∷ rs)) _ (omega arith) grown

    run_mode-Leaves :
        (k : ℕ) (signals : UtilitySignals) (schemas : List (Rule F)) (s : ModeState floats)
        (mode : String) (ranking : PruningMode)
        → mem_str (mode_strategy_id strategy mode) s.markers ≡ false
        → Grown k s.rows
        → Leaves k s mode
            (run_mode floats calls task metric strategy pass1 signals schemas s (mode, ranking))
    unfolding run_mode
    run_mode-Leaves k signals schemas s mode ranking new grown =
        let config = mode_config floats calls task metric strategy pass1 signals ranking in
        rw new (
          pruned-Leaves k s mode (prune_rules floats config schemas).selected
            (prune_rules_bounds floats config schemas).0 grown)

  modes_differ : mode_strategy_id strategy "utility" ≢ mode_strategy_id strategy "utility_per_token"
  modes_differ e =
      let tails : "_pruning_" +++ "utility" ≡ "_pruning_" +++ "utility_per_token" =
        append_cancel_left strategy _ _ e in
      let names = append_cancel_left "_pruning_" "utility" "utility_per_token" tails in
      ground (arith, eq_iff "utility" "utility_per_token", names)

  -- The comparison is made for a distilled strategy, and neither mode has a marker.
  pub record IsFresh (markers : List String) : Type 0 where
    pub distilled : is_distilled strategy ≡ true
    pub utility_new : mem_str (mode_strategy_id strategy "utility") markers ≡ false
    pub per_token_new : mem_str (mode_strategy_id strategy "utility_per_token") markers ≡ false

  second_pass_lem :
      (mode : ConfiguredMode) (rows : List (SynthesizedRule floats))
      (ablation : Option (List (RuleAblationRecord floats))) (markers : List String)
      (eval_map : EvalMap floats)
      → mode ≢ ConfiguredMode.support_count
      → is_distilled strategy ≡ true
      → run_two_pass_optimizer floats calls task metric strategy mode rows ablation markers eval_map
        ≡ second_pass floats calls task metric strategy
            (get_selected_synthesized_rules floats rows)
            ablation
            markers
            eval_map
  unfolding run_two_pass_optimizer
  second_pass_lem ConfiguredMode.support_count rows ablation markers eval_map other h =
      absurd (other refl)
  second_pass_lem ConfiguredMode.utility rows ablation markers eval_map other h = rw h
  second_pass_lem ConfiguredMode.utility_per_token rows ablation markers eval_map other h = rw h

  -- The row of the first pass.
  abbrev pub pass1_row : List (SynthesizedRule floats) → EvalMap floats → PruningModeRow floats
  pass1_row rows eval_map =
      first_row floats calls task metric strategy (lookup strategy eval_map)
        (length (get_selected_synthesized_rules floats rows))

  -- A fresh comparison starts with the row of the first pass. At most two rows follow, each of a
  -- selection of at least one rule and no more than allowed.
  pub run_two_pass_optimizer-rows :
      (mode : ConfiguredMode) (rows : List (SynthesizedRule floats))
      (ablation : Option (List (RuleAblationRecord floats))) (markers : List String)
      (eval_map : EvalMap floats)
      → mode ≢ ConfiguredMode.support_count
      → IsFresh markers
      → (extra : List (PruningModeRow floats)) × ((run_two_pass_optimizer floats calls task metric
            strategy mode rows ablation markers eval_map).rows
          ≡ some (pass1_row rows eval_map ∷ extra))
        × All IsWithin extra
        × (length extra ≤ 2)
  run_two_pass_optimizer-rows mode rows ablation markers eval_map other v =
      let schemas = get_selected_synthesized_rules floats rows in
      let pass1 = lookup strategy eval_map in
      let first = pass1_row rows eval_map in
      let signals = or_support floats (ablation_signals floats ablation) schemas in
      let start : ModeState floats = record {
        markers = markers;
        eval_map = eval_map;
        rows = first ∷ [];
      } in
      let one =
        run_mode-Leaves pass1 first 0 signals schemas start "utility" PruningMode.utility
          v.utility_new ([], refl, tt, omega arith) in
      let s1 =
        run_mode floats calls task metric strategy pass1 signals schemas start
          ("utility", PruningMode.utility) in
      let new : mem_str (mode_strategy_id strategy "utility_per_token") s1.markers ≡ false =
        rw (one.0) (mem_str-append _ _ markers v.per_token_new modes_differ) in
      let two =
        run_mode-Leaves pass1 first 1 signals schemas s1 "utility_per_token"
          PruningMode.utility_per_token new one.1 in
      let (extra, same, within, few) = two.1 in
      (
        extra,
        ap (λ (c : Comparison floats). c.rows)
              (second_pass_lem mode rows ablation markers eval_map other v.distilled)
            ∙ unfold run_modes in ap (λ l. some l) same,
        within,
        few,
      )
