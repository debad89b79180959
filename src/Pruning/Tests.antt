-- ===== src/Pruning/Tests.antt =====
-- Runs of the pruning on three rules, and instances of its theorems.
use rule_kiln.Prelude.{
  ◌≡◌, ◌≤◌, refl, true, List, [], ◌∷◌, ◌++◌, Perm, length, All, ℤ, pos, sort_by, insert_by,
}
use rule_kiln.Numbers.Whole.{whole}
use rule_kiln.Rules.{Rule}
use rule_kiln.Rules.Samples.{costly, cheap, rare, torn}
use rule_kiln.Pruning.Ranking.{PruningMode, ranks_before}
use rule_kiln.Pruning.Prune.{
  PruningConfig, PruningReason, pruned_for, screen_reason, prune_rules, rank, screen, is_golden,
  cap, fit, token_count,
}
use rule_kiln.Pruning.Partition.{rules_of, prune_rules-perm}
use rule_kiln.Pruning.Budget.{tokens, prune_rules_bounds}
use rule_kiln.Pruning.Selection.{Meets, IsExplained, prune_rules-All}

abbrev config : PruningConfig whole
config = record {
  max_rules = 3;
  max_prompt_tokens = 100;
  min_rule_support_count = 2;
  preserve_golden_rules = true;
  golden_case_ids = [];
  ranking_mode = PruningMode.support_count;
  regression_penalty = pos 2;
  utility_signals = [];
  classroom_utility_signals = [];
}

abbrev rules : List (Rule ℤ)
rules = cheap ∷ torn ∷ costly ∷ rare ∷ []

prune_run : prune_rules whole config rules ≡ record {
  selected = costly ∷ [];
  pruned =
      pruned_for whole PruningReason.unresolved_conflict torn
      ∷ pruned_for whole PruningReason.below_min_support rare
      ∷ pruned_for whole PruningReason.prompt_token_budget_exceeded cheap
      ∷ [];
}
unfolding prune_rules screen screen_reason is_golden rank cap fit token_count ranks_before sort_by
    insert_by
prune_run = refl

prune_rules-perm_example :
    Perm
      ((prune_rules whole config rules).selected
        ++ rules_of whole config (prune_rules whole config rules).pruned)
      rules
prune_rules-perm_example = prune_rules-perm whole config rules

prune_rules_bounds_example :
    (length (prune_rules whole config rules).selected ≤ 3)
    × (tokens whole config (prune_rules whole config rules).selected ≤ 100)
prune_rules_bounds_example = prune_rules_bounds whole config rules

prune_rules-All_example :
    All (Meets whole config) (prune_rules whole config rules).selected
    × All
        (IsExplained whole config (prune_rules whole config rules))
        (prune_rules whole config rules).pruned
prune_rules-All_example = prune_rules-All whole config rules
