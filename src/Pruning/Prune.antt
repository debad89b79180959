-- ===== src/Pruning/Prune.antt =====
-- `prune_rules`: conflicts and weak support out, rank, then cap the number of rules and the tokens.
use Prim.Native.Nat.{max}
use Prim.Native.String.{count, ◌++◌ as str_append}
use rule_kiln.Prelude.{
  ℕ, ◌+◌, ◌/◌, Bool, not, ◌&&◌, ◌||◌, Option, none, some, List, [], ◌∷◌, ◌++◌, map, String, ltb,
  length, take, drop, any, mem_str, sort_by, if◌then◌else◌, ◌==◌,
}
use rule_kiln.Numbers.{Floats}
use rule_kiln.Rules.{Rule}
use rule_kiln.Pruning.Ranking.{PruningMode, UtilitySignals, ClassroomUtilitySignals, ranks_before}

pub data PruningReason : Type 0 where
  unresolved_conflict below_min_support max_rules_exceeded prompt_token_budget_exceeded :
      PruningReason
  duplicate_or_subsumed : PruningReason

-- `" ".join(texts)`
unfoldable pub join_spaces : List String → String
join_spaces [] = ""
join_spaces (t ∷ []) = t
join_spaces (t ∷ u ∷ ts) = str_append t (str_append " " (join_spaces (u ∷ ts)))

-- `count_tokens_approx` of src/rulekiln/pipeline/prompt_compiler.py, on the number of characters.
unfoldable pub count_tokens_approx : String → ℕ
count_tokens_approx text = max 1 (count text / 4)

module _ (floats : Floats) where
  open floats use {F}

  pub record PruningRecord : Type 0 where
    pub rule : Rule F
    pub reason : PruningReason

  pub record PruningResult : Type 0 where
    pub selected : List (Rule F)
    pub pruned : List PruningRecord

  -- The keyword arguments of `prune_rules`.
  pub record PruningConfig : Type 0 where
    pub max_rules : ℕ
    pub max_prompt_tokens : ℕ
    pub min_rule_support_count : ℕ
    pub preserve_golden_rules : Bool
    pub golden_case_ids : List String
    pub ranking_mode : PruningMode
    pub regression_penalty : F
    pub utility_signals : UtilitySignals
    pub classroom_utility_signals : ClassroomUtilitySignals

  abbrev pub pruned_for : PruningReason → Rule F → PruningRecord
  pruned_for why r = record { rule = r; reason = why }

  module _ (config : PruningConfig) where
    -- `rule.golden_case_backed or bool(golden_ids and set(rule.source_case_ids) & golden_ids)`
    unfoldable pub is_golden : Rule F → Bool
    is_golden r =
        r.golden_case_backed || any (λ c. mem_str c config.golden_case_ids) r.source_case_ids

    -- The first loop's verdict on a rule: a reason to prune it, or none.
    unfoldable pub screen_reason : Rule F → Option PruningReason
    screen_reason r =
        if r.has_conflicts
        then some PruningReason.unresolved_conflict
        else if ltb r.support_count config.min_rule_support_count
            && not (config.preserve_golden_rules && is_golden r)
        then some PruningReason.below_min_support
        else none

    abbrev pub sort_verdict :
        Rule F
        → Option PruningReason
        → List (Rule F) × List PruningRecord
        → List (Rule F) × List PruningRecord
    sort_verdict r none (selected, pruned) = (r ∷ selected, pruned)
    sort_verdict r (some why) (selected, pruned) = (selected, pruned_for why r ∷ pruned)

    unfoldable pub screen : List (Rule F) → List (Rule F) × List PruningRecord
    screen [] = ([], [])
    screen (r ∷ rs) = sort_verdict r (screen_reason r) (screen rs)

    unfoldable pub rank : List (Rule F) → List (Rule F)
    rank = sort_by (
        ranks_before floats config.ranking_mode config.regression_penalty config.utility_signals
          config.classroom_utility_signals)

    -- `rule.estimated_token_count or count_tokens_approx(f"{topic} {' '.join(applies_when)}")`
    unfoldable pub token_count : Rule F → ℕ
    token_count r =
        if r.estimated_token_count == 0
        then count_tokens_approx (str_append r.topic (str_append " " (join_spaces r.applies_when)))
        else r.estimated_token_count

    -- The last loop: a rule that does not fit is passed over, and the next is tried.
    unfoldable pub fit : ℕ → List (Rule F) → List (Rule F) × List PruningRecord
    fit running [] = ([], [])
    fit running (r ∷ rs) =
        let over = ltb config.max_prompt_tokens (running + token_count r) in
        let rest = fit (if over then running else running + token_count r) rs in
        if over
        then (rest.0, pruned_for PruningReason.prompt_token_budget_exceeded r ∷ rest.1)
        else (r ∷ rest.0, rest.1)

    -- `if len(selected) > max_rules`
    unfoldable pub cap : List (Rule F) → List (Rule F) × List PruningRecord
    cap rs =
        if ltb config.max_rules (length rs)
        then (
          take config.max_rules rs,
          map (pruned_for PruningReason.max_rules_exceeded) (drop config.max_rules rs),
        )
        else (rs, [])

    unfoldable pub prune_rules : List (Rule F) → PruningResult
    prune_rules rules =
        let screened = screen rules in
        let capped = cap (rank screened.0) in
        let fitted = fit 0 capped.0 in
        record { selected = fitted.0; pruned = screened.1 ++ (capped.1 ++ fitted.1) }
