-- ===== src/Stages/Markers.antt =====
-- `mark_stage_complete` and `is_stage_complete` of src/rulekiln/db/repositories/jobs.py.
pub mod Laws
use rule_kiln.Prelude.{
  ℕ, suc, ◌≤◌, ◌+◌, Bool, true, false, ◌&&◌, ◌||◌, String, Option, none, some, is_some, is_none,
  List, [], ◌∷◌, ◌++◌, ◌≡◌, refl, keep, any, count_if, if◌then◌else◌, str_eq, eq_iff, arith,
  Bool-cases, inl, inr,
}
use rule_kiln.Stages.Session.{
  StageMarker, Db, Session, Failure, multiple_results_found, Result, ok, err, M, ◌>>=◌, ◌>>◌, pure,
  query, write, commit, scalar_one_or_none, Ends,
}

-- `==` of nullable columns.
abbrev pub same_text : Option String → Option String → Bool
same_text none none = true
same_text (some a) (some b) = str_eq a b
same_text none (some _) = false
same_text (some _) none = false

-- The `where` clause of both queries: the four columns of the key.
unfoldable pub same_marker : StageMarker → StageMarker → Bool
same_marker k m =
    str_eq m.job_id k.job_id
    && (str_eq m.stage k.stage
        && (same_text m.strategy k.strategy && same_text m.artifact_type k.artifact_type))

unfoldable pub add_marker : StageMarker → Db → Db
add_marker k d = record d { markers = d.markers ++ k ∷ [] }

unfoldable pub mark_stage_complete : StageMarker → M (Unit {0})
unfolding add_marker
mark_stage_complete k = do
  rows ← query (λ d. keep (same_marker k) d.markers)
  existing ← scalar_one_or_none rows
  if is_none existing then (do write (add_marker k); commit) else pure tt

unfoldable pub is_stage_complete : StageMarker → M Bool
is_stage_complete k = do
  rows ← query (λ d. keep (same_marker k) d.markers)
  existing ← scalar_one_or_none rows
  pure (is_some existing)

-- `UPDATE distillation_jobs SET stage` of `_set_stage`, which commits.
unfoldable pub set_stage : String → M (Unit {0})
set_stage stage = do write (λ d. record d { job_stage = some stage }); commit

-- The marker of a stage as a whole, and that of one artifact of it.
abbrev pub stage_marker : String → String → StageMarker
stage_marker job stage = record {
  job_id = job;
  stage = stage;
  strategy = none;
  artifact_type = none;
}

abbrev pub strategy_marker : String → String → String → StageMarker
strategy_marker job stage strategy = record {
  job_id = job;
  stage = stage;
  strategy = some strategy;
  artifact_type = none;
}

abbrev pub artifact_marker : String → String → String → StageMarker
artifact_marker job stage artifact = record {
  job_id = job;
  stage = stage;
  strategy = none;
  artifact_type = some artifact;
}

-- Whether a marker stands.
abbrev pub is_marked : StageMarker → Db → Bool
is_marked k d = any (same_marker k) d.markers

-- No key stands twice.
abbrev pub AreUnique : List StageMarker → Type 0
AreUnique ms = (k : StageMarker) → count_if (same_marker k) ms ≤ 1
