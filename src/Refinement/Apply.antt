-- ===== src/Refinement/Apply.antt =====
-- Which rules a refinement leaves alone, and how reviews relate to refinements.
use mathlib.Core.List.{map-append}
use rule_kiln.Prelude.{
  ℕ, suc, ◌≡◌, refl, ap, ap₂, sym, ◌∙◌, false, Option, none, some, List, [], ◌∷◌, ◌++◌, map, String,
  mem_str, last_with, append_assoc, arith, eq_iff, All,
}
use rule_kiln.Rules.{Rule}
use rule_kiln.Refinement.Actions.{
  Resolution, RuleRefinementAction, RevisedRuleEntry, RefinementResult, RuleConflictReview, with_id,
  numbered, refined, refined_by, replaced_by, apply_either, apply_refinement_actions,
  apply_refinements, accepted, reviewed, reviewed_by, apply_conflict_reviews, answered,
}

module _ {F : Type 0} where
  -- An accepted action has an accepted id.
  last_with-accepted :
      (allowed : List String) (actions : List (RuleRefinementAction F)) (k : String)
      → mem_str k allowed ≡ false
      → last_with (λ a. a.rule_id) k (accepted allowed actions) ≡ none
  unfolding accepted last_with
  last_with-accepted allowed [] k h = refl
  last_with-accepted allowed (a ∷ actions) k h =
      ground (arith, last_with-accepted allowed actions k h, eq_iff a.rule_id k)

  apply-append :
      (actions : List (RuleRefinementAction F)) (xs ys : List (Rule F))
      → apply_refinement_actions (xs ++ ys) actions
        ≡ apply_refinement_actions xs actions ++ apply_refinement_actions ys actions
  unfolding apply_refinement_actions
  apply-append actions [] ys = refl
  apply-append actions (x ∷ xs) ys =
      let here = refined_by x (last_with (λ a. a.rule_id) x.id actions) in
      ap (here ++◌) (apply-append actions xs ys)
      ∙ sym (
          append_assoc here (apply_refinement_actions xs actions)
            (apply_refinement_actions ys actions))

  apply_actions-untouched :
      (actions : List (RuleRefinementAction F)) (r : Rule F) (xs ys : List (Rule F))
      → last_with (λ a. a.rule_id) r.id actions ≡ none
      → apply_refinement_actions (xs ++ r ∷ ys) actions
        ≡ apply_refinement_actions xs actions ++ r ∷ apply_refinement_actions ys actions
  unfolding apply_refinement_actions
  apply_actions-untouched actions r xs ys e =
      apply-append actions xs (r ∷ ys)
      ∙ ap
          (λ o.
            apply_refinement_actions xs actions
            ++ (refined_by r o ++ apply_refinement_actions ys actions))
          e

  apply_actions_none : (xs : List (Rule F)) → apply_refinement_actions xs [] ≡ xs
  unfolding apply_refinement_actions last_with
  apply_actions_none [] = refl
  apply_actions_none (x ∷ xs) = ap (◌∷◌ x) (apply_actions_none xs)

  apply_either_actions :
      (xs : List (Rule F)) (actions : List (RuleRefinementAction F))
      → apply_either xs actions [] ≡ apply_refinement_actions xs actions
  apply_either_actions xs [] = sym (apply_actions_none xs)
  apply_either_actions xs (a ∷ actions) = refl

  -- A rule that is not among the implicated ones stays as it is and where it is, whatever actions
  -- the teacher returns, as long as it returns no revised rules in the format of the first version.
  pub apply_refinements-untouched :
      (implicated : List String) (parsed : RefinementResult F) (r : Rule F) (xs ys : List (Rule F))
      → mem_str r.id implicated ≡ false
      → parsed.revised_rules ≡ []
      → let refinement = answered implicated parsed in
        apply_refinements (xs ++ r ∷ ys) refinement
        ≡ apply_refinements xs refinement ++ r ∷ apply_refinements ys refinement
  unfolding apply_refinements answered
  apply_refinements-untouched implicated parsed r xs ys out v2 =
      let actions = accepted implicated parsed.actions in
      rw
        (
          v2,
          apply_either_actions (xs ++ r ∷ ys) actions,
          apply_either_actions xs actions,
          apply_either_actions ys actions,
        )
        (apply_actions-untouched actions r xs ys
          (last_with-accepted implicated parsed.actions r.id out))

  accepted_none :
      (allowed : List String) (actions : List (RuleRefinementAction F))
      → All (λ a. mem_str a.rule_id allowed ≡ false) actions
      → accepted allowed actions ≡ []
  unfolding accepted
  accepted_none allowed [] h = refl
  accepted_none allowed (a ∷ actions) h = rw (h.0, accepted_none allowed actions h.1)

  replace_all : List (RevisedRuleEntry F) → List (Rule F) → List (Rule F)
  replace_all revised rules =
      map (λ r. replaced_by r (last_with (λ d. d.rule_id) r.id revised)) rules

  apply_either_revised :
      (e : RevisedRuleEntry F) (revised : List (RevisedRuleEntry F)) (rules : List (Rule F))
      → apply_either rules [] (e ∷ revised) ≡ replace_all (e ∷ revised) rules
  unfolding replace_all
  apply_either_revised e revised rules = refl

  -- If all the teacher's actions are rejected and it also returned revised rules in the format of
  -- the first version, then a rule that is not among the implicated ones is replaced by its entry.
  pub rejected_answer_replaces :
      (implicated : List String) (parsed : RefinementResult F) (e : RevisedRuleEntry F)
      (revised : List (RevisedRuleEntry F)) (r : Rule F)
      → mem_str r.id implicated ≡ false
      → All (λ a. mem_str a.rule_id implicated ≡ false) parsed.actions
      → parsed.revised_rules ≡ e ∷ revised
      → last_with (λ d. d.rule_id) r.id (e ∷ revised) ≡ some e
      → apply_refinements (r ∷ []) (answered implicated parsed) ≡ with_id r.id e.revised_rule ∷ []
  unfolding apply_refinements answered
  rejected_answer_replaces implicated parsed e revised r out rejected v1 found =
      rw (accepted_none implicated parsed.actions rejected, v1, found)

  -- A rule without its id.
  abbrev pub nameless : Rule F → Rule F
  nameless r = with_id "" r

  abbrev pub as_action : RuleConflictReview F → RuleRefinementAction F
  as_action v = record {
    action = v.resolution;
    rule_id = v.synthesized_rule_id;
    revised_rules = v.resolved_rules;
    rationale = "";
  }

  abbrev map_option : Option (RuleConflictReview F) → Option (RuleRefinementAction F)
  map_option none = none
  map_option (some v) = some (as_action v)

  last_with-as_action :
      (k : String) (reviews : List (RuleConflictReview F))
      → last_with (λ a. a.rule_id) k (map as_action reviews)
        ≡ map_option (last_with (λ v. v.synthesized_rule_id) k reviews)
  unfolding last_with
  last_with-as_action k [] = refl
  last_with-as_action k (v ∷ reviews) = ground (arith, last_with-as_action k reviews)

  nameless-numbered :
      (name : String) (mark mark' : String) (i : ℕ) (rs : List (Rule F))
      → map nameless (numbered name mark i rs) ≡ map nameless (numbered name mark' i rs)
  unfolding numbered
  nameless-numbered name mark mark' i [] = refl
  nameless-numbered name mark mark' i (r ∷ rs) =
      ap (◌∷◌ (nameless r)) (nameless-numbered name mark mark' (suc i) rs)

  nameless-reviewed :
      (r : Rule F) (how : Resolution) (rs : List (Rule F))
      → map nameless (reviewed r how rs) ≡ map nameless (refined r how rs)
  unfolding reviewed refined
  nameless-reviewed r Resolution.keep_rule rs = refl
  nameless-reviewed r Resolution.modify [] = refl
  nameless-reviewed r Resolution.modify (x ∷ []) = refl
  nameless-reviewed r Resolution.modify (x ∷ y ∷ rs) = refl
  nameless-reviewed r Resolution.split [] = refl
  nameless-reviewed r Resolution.split (x ∷ rs) =
      nameless-numbered r.id "__split_" "__refined_" 1 (x ∷ rs)
  nameless-reviewed r Resolution.discard rs = refl

  nameless-reviewed_by :
      (r : Rule F) (o : Option (RuleConflictReview F))
      → map nameless (reviewed_by r o) ≡ map nameless (refined_by r (map_option o))
  nameless-reviewed_by r none = refl
  nameless-reviewed_by r (some v) = nameless-reviewed r v.resolution v.resolved_rules

  -- Applying conflict reviews is applying the same decisions as refinement actions, up to the ids.
  pub apply_conflict_reviews_mirrors :
      (rules : List (Rule F)) (reviews : List (RuleConflictReview F))
      → map nameless (apply_conflict_reviews rules reviews)
        ≡ map nameless (apply_refinement_actions rules (map as_action reviews))
  unfolding apply_conflict_reviews apply_refinement_actions
  apply_conflict_reviews_mirrors [] reviews = refl
  apply_conflict_reviews_mirrors (r ∷ rs) reviews =
      rw (map-append, map-append, last_with-as_action r.id reviews)
        (ap₂ (λ a b. a ++ b)
          (nameless-reviewed_by r (last_with (λ v. v.synthesized_rule_id) r.id reviews))
          (apply_conflict_reviews_mirrors rs reviews))
