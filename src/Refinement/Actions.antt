-- ===== src/Refinement/Actions.antt =====
-- The actions of a teacher on rules, of `apply_refinements` and of `apply_conflict_reviews`.
use Prim.Native.String.{◌++◌ as str_append}
use rule_kiln.Prelude.{
  ℕ, suc, Bool, Option, none, some, List, [], ◌∷◌, ◌++◌, map, String, keep, mem_str, last_with,
  decimal,
}
use rule_kiln.Rules.{Rule}

pub data Resolution : Type 0 where
  keep_rule modify split discard : Resolution

module _ (F : Type 0) where
  pub record RuleRefinementAction : Type 0 where
    pub action : Resolution
    pub rule_id : String
    pub revised_rules : List (Rule F)
    pub rationale : String

  pub record RevisedRuleEntry : Type 0 where
    pub rule_id : String
    pub revised_rule : Rule F
    pub rationale : String

  pub record RefinementResult : Type 0 where
    pub actions : List RuleRefinementAction
    pub revised_rules : List RevisedRuleEntry
    pub reasoning : Option String

  pub record RuleConflictReview : Type 0 where
    pub synthesized_rule_id : String
    pub has_conflicts : Bool
    pub conflict_summary : Option String
    pub conflicting_micro_rule_ids : List String
    pub resolution : Resolution
    pub resolved_rules : List (Rule F)

module _ {F : Type 0} where
  -- `rule.model_copy(update={"id": …})`
  abbrev pub with_id : String → Rule F → Rule F
  with_id name r = record r { id = name }

  -- The parts of a split rule, numbered from `idx` behind a mark.
  unfoldable pub numbered : String → String → ℕ → List (Rule F) → List (Rule F)
  numbered name mark idx [] = []
  numbered name mark idx (r ∷ rs) =
      with_id (str_append name (str_append mark (decimal idx))) r ∷ numbered name mark (suc idx) rs

  -- What a rule becomes under an action of `_apply_refinement_actions`.
  unfoldable pub refined : Rule F → Resolution → List (Rule F) → List (Rule F)
  refined r Resolution.keep_rule revised = r ∷ []
  refined r Resolution.modify [] = r ∷ []
  refined r Resolution.modify (x ∷ []) = with_id r.id x ∷ []
  refined r Resolution.modify (x ∷ y ∷ rest) = r ∷ []
  refined r Resolution.split [] = r ∷ []
  refined r Resolution.split (x ∷ rest) = numbered r.id "__refined_" 1 (x ∷ rest)
  refined r Resolution.discard revised = []

  abbrev pub refined_by : Rule F → Option (RuleRefinementAction F) → List (Rule F)
  refined_by r none = r ∷ []
  refined_by r (some a) = refined r a.action a.revised_rules

  unfoldable pub apply_refinement_actions :
      List (Rule F) → List (RuleRefinementAction F) → List (Rule F)
  apply_refinement_actions [] actions = []
  apply_refinement_actions (r ∷ rs) actions =
      refined_by r (last_with (λ a. a.rule_id) r.id actions) ++ apply_refinement_actions rs actions

  -- The first version of the artifact: a rule is replaced by the entry with its id.
  abbrev pub replaced_by : Rule F → Option (RevisedRuleEntry F) → Rule F
  replaced_by r none = r
  replaced_by r (some e) = with_id r.id e.revised_rule

  abbrev pub apply_either :
      List (Rule F) → List (RuleRefinementAction F) → List (RevisedRuleEntry F) → List (Rule F)
  apply_either rules (a ∷ actions) revised = apply_refinement_actions rules (a ∷ actions)
  apply_either rules [] (e ∷ revised) =
      map (λ r. replaced_by r (last_with (λ d. d.rule_id) r.id (e ∷ revised))) rules
  apply_either rules [] [] = rules

  unfoldable pub apply_refinements : List (Rule F) → RefinementResult F → List (Rule F)
  apply_refinements rules refinement =
      apply_either rules refinement.actions refinement.revised_rules

  -- The actions that `refine_rules_with_teacher` accepts of a teacher's.
  unfoldable pub accepted :
      List String → List (RuleRefinementAction F) → List (RuleRefinementAction F)
  accepted allowed actions = keep (λ a. mem_str a.rule_id allowed) actions

  -- What `refine_rules_with_teacher` returns of a teacher's answer.
  unfoldable pub answered : List String → RefinementResult F → RefinementResult F
  answered allowed parsed = record parsed { actions = accepted allowed parsed.actions }

  unfoldable pub reviewed : Rule F → Resolution → List (Rule F) → List (Rule F)
  reviewed r Resolution.keep_rule resolved = r ∷ []
  reviewed r Resolution.modify (x ∷ []) = with_id r.id x ∷ []
  reviewed r Resolution.modify [] = r ∷ []
  reviewed r Resolution.modify (x ∷ y ∷ rest) = r ∷ []
  reviewed r Resolution.split [] = r ∷ []
  reviewed r Resolution.split (x ∷ rest) = numbered r.id "__split_" 1 (x ∷ rest)
  reviewed r Resolution.discard resolved = []

  abbrev pub reviewed_by : Rule F → Option (RuleConflictReview F) → List (Rule F)
  reviewed_by r none = r ∷ []
  reviewed_by r (some v) = reviewed r v.resolution v.resolved_rules

  unfoldable pub apply_conflict_reviews :
      List (Rule F) → List (RuleConflictReview F) → List (Rule F)
  apply_conflict_reviews [] reviews = []
  apply_conflict_reviews (r ∷ rs) reviews =
      reviewed_by r (last_with (λ v. v.synthesized_rule_id) r.id reviews)
      ++ apply_conflict_reviews rs reviews
