-- ===== src/Stages/Validate.antt =====
-- The stage `validating_project` of `_run` in src/rulekiln/workers/distillation_worker.py.
pub mod Stuck
use rule_kiln.Prelude.{
  ℕ, Bool, true, false, ◌||◌, String, List, [], ◌∷◌, ◌++◌, map, any, str_eq, if◌then◌else◌,
}
use rule_kiln.Evaluation.Cases.{RuleKilnCase}
use rule_kiln.Stages.Session.{
  CaseRow, Db, Session, Failure, integrity_error, Result, ok, err, M, ◌>>=◌, ◌>>◌, pure, raise,
  query, write, commit, open_session, committed_by,
}
use rule_kiln.Stages.Markers.{mark_stage_complete, is_stage_complete, set_stage, stage_marker}
use rule_kiln.Stages.CaseIds.{db_case_id}

abbrev pub validating_stage : String
validating_stage = "validating_project"

-- `_to_db_case`
unfoldable pub to_db_case : String → RuleKilnCase → CaseRow
to_db_case job case = record { id = db_case_id job case.id; job_id = job }

unfoldable pub has_case : String → List CaseRow → Bool
has_case id rows = any (λ r. str_eq r.id id) rows

-- The primary key `Case.id`: whether a row's key is in the table, or stands twice among the new rows.
unfoldable pub breaks_key : List CaseRow → List CaseRow → Bool
unfolding has_case
breaks_key table [] = false
breaks_key table (r ∷ rows) = has_case r.id table || (has_case r.id rows || breaks_key table rows)

add_cases : List CaseRow → M (Unit {0})
add_cases rows = do write (λ d. record d { cases = d.cases ++ rows }); commit

-- `session.add_all(cases)`, flushed by the commit, which fails as a whole on a key that is taken.
unfoldable pub bulk_insert_cases : List CaseRow → M (Unit {0})
unfolding breaks_key add_cases
bulk_insert_cases rows = do
  table ← query (λ d. d.cases)
  if breaks_key table rows then raise integrity_error else add_cases rows

unfoldable pub validate_unmarked : String → List RuleKilnCase → M (Unit {0})
unfolding set_stage bulk_insert_cases to_db_case mark_stage_complete
validate_unmarked job cases = do
  set_stage validating_stage
  bulk_insert_cases (map (to_db_case job) cases)
  mark_stage_complete (stage_marker job validating_stage)

unfoldable pub validating_project : String → List RuleKilnCase → M (Unit {0})
unfolding is_stage_complete validate_unmarked
validating_project job cases = do
  complete ← is_stage_complete (stage_marker job validating_stage)
  if complete then pure tt else validate_unmarked job cases

-- What a process that lives to make `n` commits leaves of the stage, and what a series of them leaves.
unfoldable pub validate : String → List RuleKilnCase → ℕ → Db → Db
unfolding validating_project
validate job cases n d = committed_by (validating_project job cases (open_session n d))

unfoldable pub validate_all : String → List RuleKilnCase → List ℕ → Db → Db
unfolding validate
validate_all job cases [] d = d
validate_all job cases (n ∷ ns) d = validate_all job cases ns (validate job cases n d)
