-- ===== src/Stages/CaseIds.antt =====
-- `_db_case_id`, `_payload_case_id_from_db_case_id` and the artifact names of
-- src/rulekiln/workers/distillation_worker.py: the keys under which cases and markers are kept.
use Prim.Native.String.{◌++◌, len, slice}
use text.Mathlib.Text.{starts_with}
use text.Mathlib.TextPositions.{len-append, starts_with-append, slice-append_right}
use rule_kiln.Prelude.{String, ◌≡◌, sym, ap, if◌then◌else◌, ◌∙◌}

-- `f"{job_id}{_CASE_ID_DELIMITER}"`
unfoldable pub case_id_prefix : String → String
case_id_prefix job = job ++ "::"

unfoldable pub db_case_id : String → String → String
unfolding case_id_prefix
db_case_id job case_id = case_id_prefix job ++ case_id

unfoldable pub extracting_case_marker : String → String
extracting_case_marker case_id = "extracting_case:" ++ case_id

-- `db_case_id[len(prefix) :]` is what stands behind the prefix.
unfoldable pub payload_case_id_from_db_case_id : String → String → String
unfolding case_id_prefix
payload_case_id_from_db_case_id job s =
    let prefix = case_id_prefix job in
    if starts_with s prefix then slice s (len prefix) (len s) else s

-- A case's id survives the way into the tables and back, whatever the ids contain.
pub payload_case_id-db_case_id :
    (job case_id : String) → payload_case_id_from_db_case_id job (db_case_id job case_id) ≡ case_id
unfolding db_case_id payload_case_id_from_db_case_id case_id_prefix
payload_case_id-db_case_id job c =
    rw (starts_with-append (job ++ "::") c, len-append (job ++ "::") c)
      (slice-append_right (job ++ "::") c)

-- So no two cases of a job share a row key.
pub db_case_id_injective : (job c d : String) → db_case_id job c ≡ db_case_id job d → c ≡ d
db_case_id_injective job c d e =
    sym (payload_case_id-db_case_id job c)
    ∙ ap (payload_case_id_from_db_case_id job) e
    ∙ payload_case_id-db_case_id job d
