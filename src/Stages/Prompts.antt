-- ===== src/Stages/Prompts.antt =====
-- The stage `compiling_prompts` of `_run` in src/rulekiln/workers/distillation_worker.py, and
-- `insert_prompt_version`, `mark_prompt_version_selected` and `get_selected_prompt_version` of
-- src/rulekiln/db/repositories/jobs.py.
pub mod Selected
use rule_kiln.Prelude.{
  ℕ, Bool, true, false, ◌&&◌, String, Option, List, [], ◌∷◌, ◌++◌, map, keep, str_eq, if◌then◌else◌,
}
use rule_kiln.Stages.Session.{
  PromptVersion, Db, Session, Result, ok, err, M, ◌>>=◌, ◌>>◌, pure, query, write, commit,
  scalar_one_or_none, open_session, committed_by,
}
use rule_kiln.Stages.Markers.{mark_stage_complete, is_stage_complete, set_stage, strategy_marker}

abbrev pub compiling_stage : String
compiling_stage = "compiling_prompts"

unfoldable pub insert_prompt_version : PromptVersion → M (Unit {0})
insert_prompt_version pv = do
  write (λ d. record d { prompt_versions = d.prompt_versions ++ pv ∷ [] })
  commit

-- The two updates of `mark_prompt_version_selected` on one row.
unfoldable pub select_row : String → String → PromptVersion → PromptVersion
select_row job strategy pv =
    if str_eq pv.job_id job then record pv { is_selected = str_eq pv.strategy strategy } else pv

unfoldable pub mark_prompt_version_selected : String → String → M (Unit {0})
unfolding select_row
mark_prompt_version_selected job strategy = do
  write (λ d. record d { prompt_versions = map (select_row job strategy) d.prompt_versions })
  commit

unfoldable pub get_selected_prompt_version : String → M (Option PromptVersion)
get_selected_prompt_version job = do
  rows ← query (λ d. keep (λ pv. str_eq pv.job_id job && pv.is_selected) d.prompt_versions)
  scalar_one_or_none rows

-- One strategy's round of the stage. `pv` is the prompt that the process compiles, under a new id.
unfoldable pub compile_unmarked : String → String → PromptVersion → M (Unit {0})
unfolding set_stage insert_prompt_version mark_stage_complete
compile_unmarked job strategy pv = do
  set_stage compiling_stage
  insert_prompt_version pv
  mark_stage_complete (strategy_marker job compiling_stage strategy)

unfoldable pub compiling_prompts : String → String → PromptVersion → M (Unit {0})
unfolding is_stage_complete compile_unmarked
compiling_prompts job strategy pv = do
  complete ← is_stage_complete (strategy_marker job compiling_stage strategy)
  if complete then pure tt else compile_unmarked job strategy pv

unfoldable pub compile : String → String → PromptVersion → ℕ → Db → Db
unfolding compiling_prompts
compile job strategy pv n d = committed_by (compiling_prompts job strategy pv (open_session n d))
