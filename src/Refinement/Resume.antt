-- ===== src/Refinement/Resume.antt =====
-- What the refinement loop does when it finds the files of an interrupted run.
use rule_kiln.Prelude.{
  ℕ, zero, suc, ◌+◌, ◌≡◌, ◌<◌, refl, ◌∙◌, Bool, true, false, none, some, List, [], ◌∷◌,
  if◌then◌else◌, arith,
}
use rule_kiln.Numbers.{Floats}
use rule_kiln.Rules.{Rule}
use rule_kiln.Refinement.Loop.{
  StopReason, LoopParts, LoopTask, Candidate, Files, IterationFile, IterationArtifact, artifact,
  corrupt, file_of, stop_reason_of, candidate, settle, round, run_rounds, start, returned,
  run_refinement_loop,
}
use rule_kiln.Refinement.Progress.{State}

module _ (floats : Floats) (parts : LoopParts floats) (task : LoopTask floats) where
  open floats use {F, lt}
  open parts use {Eval, Analysis, score}

  -- A file was found, and so the round was skipped.
  round-skipped :
      (n : ℕ) (s : State floats parts task) (f : IterationFile floats)
      → let next = round floats parts task n s (some f) in
        (next.0.any_improvement ≡ s.any_improvement) × (next.0.files ≡ s.files) × (next.1 ≡ true)
  round-skipped n s corrupt = (refl, refl, refl)
  round-skipped n s (artifact a) = (refl, refl, refl)

  run_rounds_skipped :
      (left n : ℕ) (s : State floats parts task)
      → ((k : ℕ) → k < n + left → (f : IterationFile floats) × (file_of floats k s.files ≡ some f))
      → let last = run_rounds floats parts task left n s in
        (last.any_improvement ≡ s.any_improvement) × (last.files ≡ s.files)
  unfolding run_rounds
  run_rounds_skipped zero n s h = (refl, refl)
  run_rounds_skipped (suc left) n s h =
      let (f, found) = h n (omega arith) in
      let skipped = round-skipped n s f in
      let next = (round floats parts task n s (some f)).0 in
      let rest =
        run_rounds_skipped left (suc n) next (λ k small. rw skipped.1 (h k (omega arith))) in
      rw (found, skipped.2) (rest.0 ∙ skipped.0, rest.1 ∙ skipped.1)

  -- A loop that finds a file for each of its rounds returns nothing, even if the rounds of the
  -- interrupted run improved the metric, and it writes no file.
  pub resumed_loop_forgets :
      (rules : List (Rule F)) (analysis : Analysis) (eval : Eval) (files : Files floats)
      → ((k : ℕ)
          → k < task.refinement_max_iterations
          → (f : IterationFile floats) × (file_of floats k files ≡ some f))
      → run_refinement_loop floats parts task rules analysis eval files ≡ (none, files)
  unfolding run_refinement_loop
  resumed_loop_forgets [] analysis eval files h = refl
  resumed_loop_forgets (r ∷ rules) analysis eval files h =
      let skipped =
        run_rounds_skipped task.refinement_max_iterations 0
          (start floats parts task (r ∷ rules) analysis eval files)
          (λ k small. h k (omega arith)) in
      rw (skipped.0, skipped.1)

  -- The state behind a first round that was skipped.
  abbrev pub resumed :
      List (Rule F)
      → Analysis
      → Eval
      → Files floats
      → IterationArtifact floats
      → State floats parts task
  resumed rules analysis eval files a = record (start floats parts task rules analysis eval files) {
    current_metric = a.new_metric;
  }

  -- A last round that did not regress, converged or not.
  last_round :
      (small : Bool) (s : State floats parts task) (c : Candidate floats parts task)
      → let next =
          settle floats parts task s c (if small then StopReason.converged else StopReason.go_on) in
        returned floats parts task (if next.1 then next.0 else next.0)
        ≡ some (c.selected, c.new_eval)
  last_round true s c = refl
  last_round false s c = refl

  -- A loop of two rounds that finds the file of its first measures the second round by the metric in
  -- that file, whatever the stop reason in it: if the first had regressed, then a second evaluation
  -- that scores no less than that is returned, though it scores below the one the loop started from.
  pub resumed_loop_regresses :
      (r : Rule F) (rules : List (Rule F)) (analysis : Analysis) (eval : Eval)
      (files : Files floats) (a : IterationArtifact floats) (c : Candidate floats parts task)
      → task.refinement_max_iterations ≡ 2
      → file_of floats 0 files ≡ some (artifact a)
      → file_of floats 1 files ≡ none
      → candidate floats parts task 1 (resumed (r ∷ rules) analysis eval files a) ≡ some c
      → lt (score c.new_eval) a.new_metric ≡ false
      → lt (score c.new_eval) (score eval) ≡ true
      → ((best : List (Rule F)) × (e : Eval) × ((run_refinement_loop floats parts task
              (r ∷ rules)
              analysis
              eval
              files).0
            ≡ some (best, e))
          × (lt (score e) (score eval) ≡ true))
  unfolding run_refinement_loop run_rounds stop_reason_of
  resumed_loop_regresses r rules analysis eval files a c two first second made above below = (
    c.selected,
    c.new_eval,
    rw (two, first, second, made, above)
        (last_round (lt (floats.sub (score c.new_eval) a.new_metric) task.refinement_epsilon) _ c),
    below,
  )
