-- ===== src/Refinement/Tests.antt =====
-- Runs of the refinement on a few rules and evaluations, and instances of its theorems.
use rule_kiln.Prelude.{
  ℕ, zero, suc, ◌≡◌, ◌<◌, refl, true, false, none, some, List, [], ◌∷◌, ◌++◌, String, arith, ℤ, pos,
  ltb_ℤ, sort_by, insert_by, ◌>>=◌, last_with, decimal,
}
use rule_kiln.Numbers.Whole.{whole}
use rule_kiln.Rules.{Rule}
use rule_kiln.Rules.Samples.{costly, cheap, rare}
use rule_kiln.Pruning.Ranking.{PruningMode, UtilitySignals, ranks_before}
use rule_kiln.Pruning.Prune.{
  prune_rules, screen, screen_reason, is_golden, cap, fit, token_count, rank,
}
use rule_kiln.Refinement.Actions.{
  Resolution, RuleRefinementAction, RevisedRuleEntry, RefinementResult, RuleConflictReview, with_id,
  numbered, refined, apply_refinement_actions, apply_refinements, accepted, answered,
}
use rule_kiln.Refinement.Apply.{apply_refinements-untouched}
use rule_kiln.Refinement.Loop.{
  StopReason, LoopParts, LoopTask, Candidate, Files, IterationFile, IterationArtifact, artifact,
  corrupt, file_of, stop_reason_of, candidate, run_rounds, run_refinement_loop,
}
use rule_kiln.Refinement.Progress.{run_refinement_loop_improves}
use rule_kiln.Refinement.Resume.{resumed_loop_regresses}

abbrev action_of : Resolution → String → List (Rule ℤ) → RuleRefinementAction ℤ
action_of how name revised = record {
  action = how;
  rule_id = name;
  revised_rules = revised;
  rationale = "";
}

-- A split of one rule and a rejected discard of another.
abbrev answer : RefinementResult ℤ
answer = record {
  actions =
      action_of Resolution.split "cheap" (rare ∷ costly ∷ [])
      ∷ action_of Resolution.discard "costly" []
      ∷ [];
  revised_rules = [];
  reasoning = none;
}

apply_run :
    apply_refinements (costly ∷ cheap ∷ []) (answered ("cheap" ∷ []) answer)
    ≡ costly ∷ with_id "cheap__refined_1" rare ∷ with_id "cheap__refined_2" costly ∷ []
unfolding apply_refinements answered accepted apply_refinement_actions last_with refined numbered
    decimal
apply_run = refl

apply_refinements-untouched_example :
    apply_refinements ((cheap ∷ []) ++ costly ∷ []) (answered ("cheap" ∷ []) answer)
    ≡ apply_refinements (cheap ∷ []) (answered ("cheap" ∷ []) answer)
      ++ costly ∷ apply_refinements [] (answered ("cheap" ∷ []) answer)
apply_refinements-untouched_example =
    apply_refinements-untouched ("cheap" ∷ []) answer costly (cheap ∷ []) [] refl refl

abbrev entry : RevisedRuleEntry ℤ
entry = record { rule_id = "costly"; revised_rule = rare; rationale = "" }

abbrev old_answer : RefinementResult ℤ
old_answer = record {
  actions = action_of Resolution.discard "costly" [] ∷ [];
  revised_rules = entry ∷ [];
  reasoning = none;
}

abbrev review : RuleConflictReview ℤ
review = record {
  synthesized_rule_id = "cheap";
  has_conflicts = true;
  conflict_summary = none;
  conflicting_micro_rule_ids = [];
  resolution = Resolution.split;
  resolved_rules = rare ∷ costly ∷ [];
}

-- The score of the student in each round: 40, and then `later`.
abbrev score_in : ℕ → ℕ → ℤ
score_in later zero = pos 40
score_in later (suc n) = pos later

-- A teacher that always modifies the cheap rule; an evaluation is its score.
abbrev parts_of : (ℕ → ℤ) → LoopParts whole
parts_of scores = record {
  Eval = ℤ;
  Analysis = UtilitySignals;
  Prompt = List (Rule ℤ);
  score = λ e. e;
  utility_signals = λ a. a;
  refine = λ rules a n. some record {
    actions = action_of Resolution.modify "cheap" (cheap ∷ []) ∷ [];
    revised_rules = [];
    reasoning = none;
  };
  compile = λ rules n. some rules;
  evaluate = λ prompt n. some (scores n);
  analyze = λ e rules. ("cheap", (1, 0)) ∷ [];
}

abbrev task : LoopTask whole
task = record {
  max_rules = 3;
  max_prompt_tokens = 100;
  min_rule_support_count = 2;
  preserve_golden_rules = true;
  rule_pruning_mode = PruningMode.support_count;
  rule_regression_penalty = pos 2;
  refinement_max_iterations = 2;
  refinement_epsilon = pos 1;
}

abbrev signals : UtilitySignals
signals = ("cheap", (1, 0)) ∷ []

abbrev rising : LoopParts whole
rising = parts_of (score_in 60)

abbrev falling : LoopParts whole
falling = parts_of (score_in 45)

rising_run :
    (run_refinement_loop whole rising task (cheap ∷ []) signals (pos 30) []).0
    ≡ some (cheap ∷ [], pos 60)
unfolding run_refinement_loop run_rounds file_of candidate ◌>>=◌ stop_reason_of apply_refinements
    apply_refinement_actions last_with refined prune_rules screen screen_reason is_golden rank cap
    fit token_count ranks_before sort_by insert_by
rising_run = refl

run_refinement_loop_improves_example : ltb_ℤ (pos 60) (pos 30) ≡ false
run_refinement_loop_improves_example =
    run_refinement_loop_improves whole rising task (cheap ∷ []) signals (pos 30) (cheap ∷ [])
      (pos 60) rising_run

-- The file of a first round that fell from 50 to 40.
abbrev fallen : IterationArtifact whole
fallen = record {
  iteration = 0;
  prior_metric = pos 50;
  new_metric = pos 40;
  improvement = pos 0;
  revised_rule_ids = "cheap" ∷ [];
  stop_reason = some StopReason.regression;
}

abbrev left_behind : Files whole
left_behind = (0, artifact fallen) ∷ []

abbrev second_round : Candidate whole falling task
second_round = record { selected = cheap ∷ []; new_eval = pos 45; revised = "cheap" ∷ [] }

resumed_loop_regresses_example :
    (best : List (Rule ℤ)) × (e : ℤ) × ((run_refinement_loop whole falling task
        (cheap ∷ [])
        signals
        (pos 50)
        left_behind).0
      ≡ some (best, e))
    × (ltb_ℤ e (pos 50) ≡ true)
unfolding file_of candidate ◌>>=◌ apply_refinements apply_refinement_actions last_with refined
    prune_rules screen screen_reason is_golden rank cap fit token_count ranks_before sort_by
    insert_by
resumed_loop_regresses_example =
    resumed_loop_regresses whole falling task cheap [] signals (pos 50) left_behind fallen
      second_round refl refl refl refl refl refl

abbrev all_behind : Files whole
all_behind = (0, artifact fallen) ∷ (1, corrupt) ∷ []

all_behind_found :
    (k : ℕ) → k < 2 → (f : IterationFile whole) × (file_of whole k all_behind ≡ some f)
unfolding file_of
all_behind_found zero h = (artifact fallen, refl)
all_behind_found (suc zero) h = (corrupt, refl)
all_behind_found (suc (suc k)) h = let absurd : ⊥ = omega arith in (corrupt, ground arith)
