-- ===== src/Refinement/Loop.antt =====
-- `_run_refinement_loop`: refine, prune, compile, evaluate, until a round regresses or no longer
-- improves. The teacher, the compiler, the student and the failure analysis are operations of an
-- interface; a `none` of theirs is an exception.
use rule_kiln.Prelude.{
  ℕ, zero, suc, Bool, true, false, Option, none, some, List, [], ◌∷◌, map, String, nonempty, ◌>>=◌,
  keep, if◌then◌else◌, ◌==◌, not,
}
use rule_kiln.Numbers.{Floats}
use rule_kiln.Rules.{Rule}
use rule_kiln.Pruning.Ranking.{PruningMode, UtilitySignals}
use rule_kiln.Pruning.Prune.{PruningConfig, prune_rules}
use rule_kiln.Refinement.Actions.{
  Resolution, RuleRefinementAction, RevisedRuleEntry, RefinementResult, apply_refinements,
}

pub data StopReason : Type 0 where
  go_on regression converged : StopReason

module _ (floats : Floats) where
  open floats use {F, lt, sub}

  -- What the loop calls: `_primary_score_for_metric`, `build_utility_signals`,
  -- `refine_rules_with_teacher`, `compile_prompt`, `evaluate_prompt` and `analyze_failures`.
  pub record LoopParts : Type 1 where
    pub Eval : Type 0
    pub Analysis : Type 0
    pub Prompt : Type 0
    pub score : Eval → F
    pub utility_signals : Analysis → UtilitySignals
    pub refine : List (Rule F) → Analysis → ℕ → Option (RefinementResult F)
    pub compile : List (Rule F) → ℕ → Option Prompt
    pub evaluate : Prompt → ℕ → Option Eval
    pub analyze : Eval → List (Rule F) → Analysis

  -- The fields of the task that the loop reads.
  pub record LoopTask : Type 0 where
    pub max_rules : ℕ
    pub max_prompt_tokens : ℕ
    pub min_rule_support_count : ℕ
    pub preserve_golden_rules : Bool
    pub rule_pruning_mode : PruningMode
    pub rule_regression_penalty : F
    pub refinement_max_iterations : ℕ
    pub refinement_epsilon : F

  -- `RefinementIterationArtifact`
  pub record IterationArtifact : Type 0 where
    pub iteration : ℕ
    pub prior_metric : F
    pub new_metric : F
    pub improvement : F
    pub revised_rule_ids : List String
    pub stop_reason : Option StopReason

  -- The file of a round: one that does not parse, or an artifact.
  pub data IterationFile : Type 0 where
    corrupt : IterationFile
    artifact : IterationArtifact → IterationFile

  abbrev pub Files : Type 0
  Files = List (ℕ × IterationFile)

  unfoldable pub file_of : ℕ → Files → Option IterationFile
  file_of n [] = none
  file_of n (f ∷ fs) = if f.0 == n then some f.1 else file_of n fs

  unfoldable pub stop_reason_of : F → F → F → StopReason
  stop_reason_of epsilon current new =
      if lt new current
      then StopReason.regression
      else if lt (sub new current) epsilon
      then StopReason.converged
      else StopReason.go_on

  abbrev pub recorded : StopReason → Option StopReason
  recorded StopReason.go_on = none
  recorded StopReason.regression = some StopReason.regression
  recorded StopReason.converged = some StopReason.converged

  abbrev pub is_keep : Resolution → Bool
  is_keep Resolution.keep_rule = true
  is_keep _ = false

  -- `revised_ids`
  abbrev pub revised_ids : List (RuleRefinementAction F) → List (RevisedRuleEntry F) → List String
  revised_ids [] revised = map (λ e. e.rule_id) revised
  revised_ids (a ∷ actions) revised =
      map (λ b. b.rule_id) (keep (λ b. not (is_keep b.action)) (a ∷ actions))

  -- `bool(refinement.actions) or bool(refinement.revised_rules)`
  abbrev pub with_actions : RefinementResult F → Option (RefinementResult F)
  with_actions r = nonempty r.actions >>= λ _. some r

  abbrev pub if_actions :
      RefinementResult F → Option (RefinementResult F) → Option (RefinementResult F)
  if_actions r none = nonempty r.revised_rules >>= λ _. some r
  if_actions r (some s) = some s

  module _ (parts : LoopParts) (task : LoopTask) where
    open parts use {
      Eval, Analysis, Prompt, score, utility_signals, refine, compile, evaluate, analyze,
    }

    -- The arguments of the loop's call of `prune_rules`.
    abbrev pub loop_config : UtilitySignals → PruningConfig floats
    loop_config signals = record {
      max_rules = task.max_rules;
      max_prompt_tokens = task.max_prompt_tokens;
      min_rule_support_count = task.min_rule_support_count;
      preserve_golden_rules = task.preserve_golden_rules;
      golden_case_ids = [];
      ranking_mode = task.rule_pruning_mode;
      regression_penalty = task.rule_regression_penalty;
      utility_signals = signals;
      classroom_utility_signals = [];
    }

    pub record LoopState : Type 0 where
      pub current_metric : F
      pub current_rules : List (Rule F)
      pub current_analysis : Analysis
      pub best_rules : List (Rule F)
      pub best_eval : Eval
      pub any_improvement : Bool
      pub files : Files

    -- What a round that is not left early has made.
    pub record Candidate : Type 0 where
      pub selected : List (Rule F)
      pub new_eval : Eval
      pub revised : List String

    -- A round up to its evaluation; none where the code leaves the loop.
    unfoldable pub candidate : ℕ → LoopState → Option Candidate
    candidate n s = nonempty (utility_signals s.current_analysis) >>= λ signals.
        refine s.current_rules s.current_analysis n >>= λ answer.
        if_actions answer (with_actions answer) >>= λ refinement.
        nonempty
          (prune_rules floats (loop_config signals)
            (apply_refinements s.current_rules refinement)).selected
        >>= λ selected. compile selected n >>= λ prompt. evaluate prompt n >>= λ new_eval.
            some record {
              selected = selected;
              new_eval = new_eval;
              revised = revised_ids refinement.actions refinement.revised_rules;
            }

    abbrev pub artifact_of : ℕ → LoopState → Candidate → StopReason → IterationArtifact
    artifact_of n s c why = record {
      iteration = n;
      prior_metric = s.current_metric;
      new_metric = score c.new_eval;
      improvement = sub (score c.new_eval) s.current_metric;
      revised_rule_ids = c.revised;
      stop_reason = recorded why;
    }

    -- The state after a round that did not regress.
    abbrev pub improved : LoopState → Candidate → LoopState
    improved s c = record s {
      current_metric = score c.new_eval;
      current_rules = c.selected;
      best_rules = c.selected;
      best_eval = c.new_eval;
      any_improvement = true;
    }

    -- What a stop reason does, and whether the loop goes on.
    abbrev pub settle : LoopState → Candidate → StopReason → LoopState × Bool
    settle s c StopReason.regression = (s, false)
    settle s c StopReason.converged = (improved s c, false)
    settle s c StopReason.go_on =
        (record (improved s c) { current_analysis = analyze c.new_eval c.selected }, true)

    abbrev pub finish : ℕ → LoopState → Option Candidate → LoopState × Bool
    finish n s none = (s, false)
    finish n s (some c) =
        let why = stop_reason_of task.refinement_epsilon s.current_metric (score c.new_eval) in
        settle (record s { files = (n, artifact (artifact_of n s c why)) ∷ s.files }) c why

    -- A round whose file exists is skipped, and takes its metric from the file.
    abbrev pub round : ℕ → LoopState → Option IterationFile → LoopState × Bool
    round n s (some corrupt) = (s, true)
    round n s (some (artifact a)) = (record s { current_metric = a.new_metric }, true)
    round n s none = finish n s (candidate n s)

    -- `for iteration in range(…)`: the rounds that are left, and the number of the next.
    unfoldable pub run_rounds : ℕ → ℕ → LoopState → LoopState
    run_rounds zero n s = s
    run_rounds (suc left) n s =
        let next = round n s (file_of n s.files) in
        let rest = run_rounds left (suc n) next.0 in if next.1 then rest else next.0

    abbrev pub start : List (Rule F) → Analysis → Eval → Files → LoopState
    start rules analysis eval files = record {
      current_metric = score eval;
      current_rules = rules;
      current_analysis = analysis;
      best_rules = rules;
      best_eval = eval;
      any_improvement = false;
      files = files;
    }

    abbrev pub returned : LoopState → Option (List (Rule F) × Eval)
    returned s = if s.any_improvement then some (s.best_rules, s.best_eval) else none

    abbrev pub begin :
        List (Rule F) → Analysis → Eval → Files → Option (List (Rule F) × Eval) × Files
    begin [] analysis eval files = (none, files)
    begin (r ∷ rules) analysis eval files =
        let last =
          run_rounds task.refinement_max_iterations 0 (start (r ∷ rules) analysis eval files) in
        (returned last, last.files)

    unfoldable pub run_refinement_loop :
        List (Rule F) → Analysis → Eval → Files → Option (List (Rule F) × Eval) × Files
    run_refinement_loop rules analysis eval files = begin rules analysis eval files
