-- ===== src/Refinement/Selected.antt =====
-- Which rules the refinement loop returns.
use rule_kiln.Prelude.{
  ℕ, ◌≡◌, ◌≤◌, refl, subst, ◌∙◌, true, Option, none, some, List, [], ◌∷◌, nonempty, ◌>>=◌, All,
  arith, length,
}
use rule_kiln.Numbers.{Floats}
use rule_kiln.Rules.{Rule}
use rule_kiln.Pruning.Ranking.{UtilitySignals}
use rule_kiln.Pruning.Prune.{prune_rules}
use rule_kiln.Pruning.Budget.{tokens, prune_rules_bounds}
use rule_kiln.Pruning.Selection.{Meets, prune_rules-All}
use rule_kiln.Refinement.Actions.{apply_refinements}
use rule_kiln.Refinement.Loop.{
  StopReason, LoopParts, LoopTask, Candidate, Files, IterationFile, artifact, corrupt, file_of,
  candidate, settle, finish, round, run_rounds, start, run_refinement_loop, loop_config,
}
use rule_kiln.Refinement.Progress.{State, run_rounds-induct, returned-some}

nonempty-some {ℓ} : {A : Type ℓ} (xs ys : List A) → nonempty xs ≡ some ys → xs ≡ ys
nonempty-some [] ys e = ground arith
nonempty-some (x ∷ xs) ys e = ground arith

module _ (floats : Floats) (parts : LoopParts floats) (task : LoopTask floats) where
  open floats use {F}
  open parts use {Eval, Analysis}

  -- What `prune_rules` selected, from some rules and under some signals.
  abbrev IsPruned : List (Rule F) → Type 0
  IsPruned best =
      (signals : UtilitySignals) × (rules : List (Rule F)) × ((prune_rules floats
          (loop_config floats parts task signals) rules).selected
        ≡ best)

  OnSome {ℓ} : {A : Type ℓ} → (A → Type 0) → Option A → Type 0
  OnSome P none = Unit
  OnSome P (some a) = P a

  >>=-OnSome {ℓ} :
      {A : Type ℓ} {B : Type 0} (P : B → Type 0) (o : Option A) (f : A → Option B)
      → ((a : A) → o ≡ some a → OnSome P (f a))
      → OnSome P (o >>= f)
  unfolding OnSome ◌>>=◌
  >>=-OnSome P none f h = tt
  >>=-OnSome P (some a) f h = h a refl

  candidate-IsPruned :
      (n : ℕ) (s : State floats parts task)
      → OnSome (λ c. IsPruned c.selected) (candidate floats parts task n s)
  unfolding candidate OnSome
  candidate-IsPruned n s = >>=-OnSome _ _ _ λ signals _. >>=-OnSome _ _ _ λ answer _.
      >>=-OnSome _ _ _ λ refinement _. >>=-OnSome _ _ _ λ selected pruned.
        >>=-OnSome _ _ _ λ prompt _. >>=-OnSome _ _ _ λ new_eval _.
          (signals, apply_refinements s.current_rules refinement, nonempty-some _ _ pruned)

  -- Rules that are called an improvement were selected by the pruning.
  abbrev Improves : State floats parts task → Type 0
  Improves s = s.any_improvement ≡ true → IsPruned s.best_rules

  settle-Improves :
      (s : State floats parts task) (c : Candidate floats parts task) (why : StopReason)
      → Improves s
      → IsPruned c.selected
      → Improves (settle floats parts task s c why).0
  settle-Improves s c StopReason.regression h p = h
  settle-Improves s c StopReason.converged h p = λ _. p
  settle-Improves s c StopReason.go_on h p = λ _. p

  finish-Improves :
      (n : ℕ) (s : State floats parts task) (o : Option (Candidate floats parts task))
      → Improves s
      → OnSome (λ c. IsPruned c.selected) o
      → Improves (finish floats parts task n s o).0
  unfolding OnSome
  finish-Improves n s none h p = h
  finish-Improves n s (some c) h p = settle-Improves _ c _ h p

  round-Improves :
      (n : ℕ) (s : State floats parts task) (o : Option (IterationFile floats))
      → Improves s
      → Improves (round floats parts task n s o).0
  round-Improves n s (some corrupt) h = h
  round-Improves n s (some (artifact a)) h = h
  round-Improves n s none h =
      finish-Improves n s (candidate floats parts task n s) h (candidate-IsPruned n s)

  -- Whatever files of earlier runs it finds, the loop returns only rules that the pruning selected:
  -- within both budgets, free of conflicts, and each with the support asked for or protected.
  pub run_refinement_loop-IsPruned :
      (rules : List (Rule F)) (analysis : Analysis) (eval : Eval) (files : Files floats)
      (best : List (Rule F)) (e : Eval)
      → (run_refinement_loop floats parts task rules analysis eval files).0 ≡ some (best, e)
      → (signals : UtilitySignals) × (length best ≤ task.max_rules)
        × (tokens floats (loop_config floats parts task signals) best ≤ task.max_prompt_tokens)
        × All (Meets floats (loop_config floats parts task signals)) best
  unfolding run_refinement_loop
  run_refinement_loop-IsPruned [] analysis eval files best e h = ground arith
  run_refinement_loop-IsPruned (r ∷ rules) analysis eval files best e h =
      let first = start floats parts task (r ∷ rules) analysis eval files in
      let last = run_rounds floats parts task task.refinement_max_iterations 0 first in
      let improves : Improves last =
        run_rounds-induct floats parts task (λ _ s. Improves s)
          (λ n s k. round-Improves n s (file_of floats n s.files) k) Improves (λ n s k. k)
          task.refinement_max_iterations 0 first (λ no. ground arith) in
      let end = returned-some floats parts task last best e h in
      let (signals, given, same) = improves end.0 in
      let config = loop_config floats parts task signals in
      let bounds = prune_rules_bounds floats config given in
      let same_best = same ∙ end.1 in
      (
        signals,
        subst (λ rs. length rs ≤ task.max_rules) same_best bounds.0,
        subst (λ rs. tokens floats config rs ≤ task.max_prompt_tokens) same_best bounds.1,
        subst (All (Meets floats config)) same_best (prune_rules-All floats config given).0,
      )
