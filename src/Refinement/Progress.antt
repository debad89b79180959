-- ===== src/Refinement/Progress.antt =====
-- What the refinement loop returns, by induction on its rounds.
use rule_kiln.Prelude.{
  ℕ, zero, suc, ◌≡◌, ◌<◌, refl, sym, subst, true, false, Option, none, some, List, [], ◌∷◌, if_elim,
  All, All-imp, arith,
}
use rule_kiln.Numbers.{Floats}
use rule_kiln.Rules.{Rule}
use rule_kiln.Refinement.Loop.{
  StopReason, LoopParts, LoopTask, LoopState, Candidate, Files, artifact, file_of, stop_reason_of,
  candidate, settle, finish, round, run_rounds, start, returned, run_refinement_loop, artifact_of,
}

module _ (floats : Floats) (parts : LoopParts floats) (task : LoopTask floats) where
  open floats use {F, lt, lt_order}
  open parts use {Eval, Analysis, score}

  abbrev pub State : Type 0
  State = LoopState floats parts task

  -- What holds of a state and does not depend on the number of the round holds to the end if every
  -- round keeps it.
  pub run_rounds-induct :
      (P : ℕ → State → Type 0)
      → ((n : ℕ) (s : State)
          → P n s
          → P (suc n) (round floats parts task n s (file_of floats n s.files)).0)
      → (Q : State → Type 0) → ((n : ℕ) (s : State) → P n s → Q s)
      → (left n : ℕ) (s : State) → P n s
      → Q (run_rounds floats parts task left n s)
  unfolding run_rounds
  run_rounds-induct P keeps Q ends zero n s h = ends n s h
  run_rounds-induct P keeps Q ends (suc left) n s h =
      let next = round floats parts task n s (file_of floats n s.files) in
      let kept = keeps n s h in
      if_elim Q next.1 (λ _. run_rounds-induct P keeps Q ends left (suc n) next.0 kept)
        (λ _. ends (suc n) next.0 kept)

  -- The files are those of earlier rounds.
  abbrev Past : ℕ → State → Type 0
  Past n s = All (λ f. f.0 < n) s.files

  file_of-none :
      (n : ℕ) (files : Files floats) → All (λ f. f.0 < n) files → file_of floats n files ≡ none
  unfolding file_of
  file_of-none n [] h = refl
  file_of-none n (f ∷ fs) h = ground (arith, file_of-none n fs h.1)

  abbrev later : (n : ℕ) (s : State) → Past n s → Past (suc n) s
  later n s h = All-imp s.files (λ f before. omega arith) h

  -- Neither the metric that the next round is measured by nor the best evaluation is below `base`.
  abbrev NotBelow : F → ℕ → State → Type 0
  NotBelow base n s =
      Past n s × (lt s.current_metric base ≡ false) × (lt (score s.best_eval) base ≡ false)

  finish-NotBelow :
      (base : F) (n : ℕ) (s : State) (o : Option (Candidate floats parts task))
      → NotBelow base n s
      → NotBelow base (suc n) (finish floats parts task n s o).0
  unfolding stop_reason_of
  finish-NotBelow base n s none h = (later n s h.0, h.1, h.2)
  finish-NotBelow base n s (some c) h =
      let why = stop_reason_of floats task.refinement_epsilon s.current_metric (score c.new_eval) in
      let written = record s {
        files = (n, artifact (artifact_of floats parts task n s c why)) ∷ s.files;
      } in
      let past : Past (suc n) written = (omega arith, later n s h.0) in
      let above : lt (score c.new_eval) s.current_metric ≡ false
          → lt (score c.new_eval) base ≡ false =
        λ e. lt_order.not_before_trans base s.current_metric (score c.new_eval) h.1 e in
      if_elim {A = StopReason} (λ w. NotBelow base (suc n) (settle floats parts task written c w).0)
        (lt (score c.new_eval) s.current_metric) (λ _. (past, h.1, h.2))
        (λ e.
          if_elim {A = StopReason}
            (λ w. NotBelow base (suc n) (settle floats parts task written c w).0)
            (lt (floats.sub (score c.new_eval) s.current_metric) task.refinement_epsilon)
            (λ _. (past, above e, above e)) (λ _. (past, above e, above e)))

  round-NotBelow :
      (base : F) (n : ℕ) (s : State)
      → NotBelow base n s
      → NotBelow base (suc n) (round floats parts task n s (file_of floats n s.files)).0
  round-NotBelow base n s h =
      subst (λ o. NotBelow base (suc n) (round floats parts task n s o).0)
        (sym (file_of-none n s.files h.0))
        (finish-NotBelow base n s (candidate floats parts task n s) h)

  lt_irrefl : (x : F) → lt x x ≡ false
  lt_irrefl x = ground (arith, lt_order.asymm x x)

  pub returned-some :
      (s : State) (best : List (Rule F)) (e : Eval)
      → returned floats parts task s ≡ some (best, e)
      → (s.any_improvement ≡ true) × (s.best_rules ≡ best) × (s.best_eval ≡ e)
  returned-some s best e h = ground arith

  -- A loop that starts without artifacts of earlier runs returns no evaluation that scores below
  -- the one it started from.
  pub run_refinement_loop_improves :
      (rules : List (Rule F)) (analysis : Analysis) (eval : Eval) (best : List (Rule F)) (e : Eval)
      → (run_refinement_loop floats parts task rules analysis eval []).0 ≡ some (best, e)
      → lt (score e) (score eval) ≡ false
  unfolding run_refinement_loop
  run_refinement_loop_improves [] analysis eval best e h = ground arith
  run_refinement_loop_improves (r ∷ rules) analysis eval best e h =
      let first = start floats parts task (r ∷ rules) analysis eval [] in
      let last = run_rounds floats parts task task.refinement_max_iterations 0 first in
      let above : lt (score last.best_eval) (score eval) ≡ false =
        run_rounds-induct (NotBelow (score eval)) (round-NotBelow (score eval))
          (λ s. lt (score s.best_eval) (score eval) ≡ false) (λ n s k. k.2)
          task.refinement_max_iterations 0 first
          (tt, lt_irrefl (score eval), lt_irrefl (score eval)) in
      subst (λ x. lt (score x) (score eval) ≡ false) (returned-some last best e h).2 above
