-- ===== src/Stages/Prompts/Selected.antt =====
-- What is read back after a strategy's prompt has been selected.
use rule_kiln.Prelude.{
  ℕ, zero, suc, true, false, ◌&&◌, String, some, List, [], ◌∷◌, ◌++◌, ◌≡◌, refl, map, keep, str_eq,
  arith,
}
use rule_kiln.Stages.Session.{
  PromptVersion, Db, Session, multiple_results_found, err, ◌>>◌, commit, scalar_one_or_none,
  open_session, committed_by,
}
use rule_kiln.Stages.Markers.{
  mark_stage_complete, set_stage, strategy_marker, is_marked, AreUnique, add_marker,
}
use rule_kiln.Stages.Markers.Laws.{is_stage_complete-ok, mark_stage_complete-ok}
use rule_kiln.Stages.Prompts.{
  compiling_stage, select_row, mark_prompt_version_selected, get_selected_prompt_version,
  insert_prompt_version, compile_unmarked, compiling_prompts, compile,
}

-- The prompts of a job that a strategy has compiled.
unfoldable pub prompts_of : String → String → List PromptVersion → List PromptVersion
prompts_of job strategy pvs = keep (λ pv. str_eq pv.job_id job && str_eq pv.strategy strategy) pvs

-- Selecting leaves just the strategy's prompts selected.
selected_rows :
    (job strategy : String) (pvs : List PromptVersion)
    → keep (λ pv. str_eq pv.job_id job && pv.is_selected) (map (select_row job strategy) pvs)
      ≡ map (select_row job strategy) (prompts_of job strategy pvs)
unfolding prompts_of select_row
selected_rows job strategy [] = refl
selected_rows job strategy (pv ∷ pvs) = ground (arith, selected_rows job strategy pvs)

-- After a strategy is selected, asking for the job's selected prompt gives the strategy's one prompt,
-- nothing where it has none, and an error where it has several.
pub get_selected-mark_selected :
    (job strategy : String) (n : ℕ) (d : Db)
    → (mark_prompt_version_selected job strategy >> get_selected_prompt_version job)
        (open_session (suc n) d)
      ≡ scalar_one_or_none
          (map (select_row job strategy) (prompts_of job strategy d.prompt_versions))
          (open_session n
            (record d { prompt_versions = map (select_row job strategy) d.prompt_versions }))
unfolding mark_prompt_version_selected get_selected_prompt_version commit
get_selected-mark_selected job strategy n d = rw (selected_rows job strategy d.prompt_versions) refl

several_rows :
    (f : PromptVersion → PromptVersion) (rows : List PromptVersion) (a b : PromptVersion)
    (s : Session)
    → scalar_one_or_none (map f (rows ++ a ∷ b ∷ [])) s ≡ err multiple_results_found s
several_rows f [] a b s = refl
several_rows f (x ∷ []) a b s = refl
several_rows f (x ∷ y ∷ rows) a b s = refl

prompts_of-append :
    (job strategy : String) (rows : List PromptVersion) (a b : PromptVersion)
    → (str_eq a.job_id job && str_eq a.strategy strategy) ≡ true
    → (str_eq b.job_id job && str_eq b.strategy strategy) ≡ true
    → prompts_of job strategy ((rows ++ a ∷ []) ++ b ∷ [])
      ≡ prompts_of job strategy rows ++ a ∷ b ∷ []
unfolding prompts_of
prompts_of-append job strategy [] a b p q = ground arith
prompts_of-append job strategy (x ∷ rows) a b p q =
    ground (arith, prompts_of-append job strategy rows a b p q)

module _ (job strategy : String) (pv : PromptVersion) (d : Db) where
  -- The tables after the prompt was inserted.
  abbrev with_prompt : Db
  with_prompt = record d {
    job_stage = some compiling_stage;
    prompt_versions = d.prompt_versions ++ pv ∷ [];
  }

  compile_two :
      AreUnique d.markers
      → is_marked (strategy_marker job compiling_stage strategy) d ≡ false
      → (n : ℕ)
      → compile job strategy pv (suc (suc n)) d
        ≡ committed_by (
            mark_stage_complete
              (strategy_marker job compiling_stage strategy)
              (open_session n with_prompt))
  unfolding compile compiling_prompts compile_unmarked set_stage insert_prompt_version commit
  compile_two unique unmarked n =
      rw
        (is_stage_complete-ok (strategy_marker job compiling_stage strategy)
          (open_session (suc (suc n)) d) unique)
        (rw unmarked refl)

  cut_off :
      AreUnique d.markers
      → is_marked (strategy_marker job compiling_stage strategy) d ≡ false
      → compile job strategy pv 2 d ≡ with_prompt
  unfolding commit
  cut_off unique unmarked = rw (compile_two unique unmarked zero) (
      rw
        (mark_stage_complete-ok (strategy_marker job compiling_stage strategy)
          (open_session zero with_prompt) unique)
        (rw unmarked refl))

  left_to_run :
      AreUnique d.markers
      → is_marked (strategy_marker job compiling_stage strategy) d ≡ false
      → (n : ℕ)
      → compile job strategy pv (suc (suc (suc n))) d
        ≡ add_marker (strategy_marker job compiling_stage strategy) with_prompt
  unfolding commit
  left_to_run unique unmarked n = rw (compile_two unique unmarked (suc n)) (
      rw
        (mark_stage_complete-ok (strategy_marker job compiling_stage strategy)
          (open_session (suc n) with_prompt) unique)
        (rw unmarked refl))

-- If the process dies after it has inserted a strategy's prompt and before it has marked the stage, the
-- next process inserts a second one; from then on, when that strategy is selected, asking for the
-- job's selected prompt fails. At the start no marker stands twice and the strategy's does not stand.
pub compile_twice :
    (job strategy : String) (first second : PromptVersion) (n m : ℕ) (d : Db)
    → AreUnique d.markers
    → is_marked (strategy_marker job compiling_stage strategy) d ≡ false
    → (str_eq first.job_id job && str_eq first.strategy strategy) ≡ true
    → (str_eq second.job_id job && str_eq second.strategy strategy) ≡ true
    → (s : Session) × ((mark_prompt_version_selected job strategy
            >> get_selected_prompt_version job)
          (open_session
            (suc m)
            (compile job strategy second (suc (suc (suc n))) (compile job strategy first 2 d)))
        ≡ err multiple_results_found s)
compile_twice job strategy first second n m d unique unmarked p q =
    let twice : Db =
      add_marker (strategy_marker job compiling_stage strategy)
        (with_prompt job strategy second (with_prompt job strategy first d)) in
    rw
      (
        cut_off job strategy first d unique unmarked,
        left_to_run job strategy second (with_prompt job strategy first d) unique unmarked n,
      )
      (rw (get_selected-mark_selected job strategy m twice) (
        open_session m (record twice {
          prompt_versions = map (select_row job strategy) twice.prompt_versions;
        }),
        unfold add_marker in
            rw (prompts_of-append job strategy d.prompt_versions first second p q) (
              several_rows (select_row job strategy) (prompts_of job strategy d.prompt_versions)
                first second _),
      ))
