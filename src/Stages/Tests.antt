-- ===== src/Stages/Tests.antt =====
-- Runs of the extraction stages, and instances of their theorems.
use rule_kiln.Prelude.{
  ℕ, true, false, suc, String, none, some, List, [], ◌∷◌, ◌++◌, ◌≡◌, ◌≢◌, refl, ◌⊎◌, length, All,
  arith,
}
use rule_kiln.Evaluation.Cases.{RuleKilnCase, train}
use rule_kiln.Stages.Session.{
  Db, Session, PromptVersion, err, multiple_results_found, open_session, ◌>>◌, commit,
}
use rule_kiln.Stages.Markers.{AreUnique, is_marked, same_marker, stage_marker}
use rule_kiln.Stages.CaseIds.{
  db_case_id, payload_case_id_from_db_case_id, payload_case_id-db_case_id,
}
use rule_kiln.Stages.Extract.{
  MicroRuleSchema, Attempt, extracting_rules_stage, to_micro_rules, attempt, attempts, rules_of,
  is_extracted, case_marker,
}
use rule_kiln.Stages.Covered.{is_covered}
use rule_kiln.Stages.Complete.{attempts_cover, attempts_finish}
use rule_kiln.Stages.History.{IsOneAnswer, extracted_once}
use rule_kiln.Stages.Collect.{BatchItem, collected_stage, collect}
use rule_kiln.Stages.Collect.Twice.{collect_twice}
use rule_kiln.Stages.Validate.{validating_stage, validate, validate_all, breaks_key, to_db_case}
use rule_kiln.Stages.Validate.Stuck.{validate_stuck}
use rule_kiln.Stages.Prompts.{compile, mark_prompt_version_selected, get_selected_prompt_version}
use rule_kiln.Stages.Prompts.Selected.{compile_twice}

abbrev empty : Db
empty = record {
  job_stage = none;
  cases = [];
  micro_rules = [];
  prompt_versions = [];
  markers = [];
}

empty-AreUnique : AreUnique empty.markers
empty-AreUnique k = omega arith

abbrev two_cases : List RuleKilnCase
two_cases = record { id = "a"; split = train } ∷ record { id = "b"; split = train } ∷ []

abbrev refund : MicroRuleSchema
refund = record {
  topic = "refund";
  condition = "paid twice";
  expected_outcome = "approve";
  output_path = none;
  rationale_summary = none;
  rule_type = "decision";
  positive_cues = [];
  negative_cues = [];
}

-- A process that gets one rule for each case and makes `n` commits.
abbrev living : ℕ → Attempt
living n = record { answer = λ case. some (refund ∷ []); uuid4 = λ c i. c; commits = n }

-- The first process dies when it has stored the rules of case a, before it marks the case; the second
-- is left to run and passes the case over.
abbrev two_processes : List Attempt
two_processes = living 2 ∷ living 9 ∷ []

two_processes_run : length (rules_of "j" "a" (attempts "j" two_cases two_processes empty)) ≡ 1
unfolding attempts attempt is_extracted rules_of case_marker same_marker commit to_micro_rules
    payload_case_id_from_db_case_id db_case_id
two_processes_run = refl

no_rules : (c : String) → rules_of "j" c empty ≡ []
unfolding rules_of
no_rules c = refl

extracted_once_example :
    (rules_of "j" "a" (attempts "j" two_cases two_processes empty) ≡ [])
    ⊎ IsOneAnswer "j" two_cases two_processes "a"
        (rules_of "j" "a" (attempts "j" two_cases two_processes empty))
extracted_once_example =
    extracted_once "j" two_cases two_processes empty empty-AreUnique no_rules "a"

payload_case_id-db_case_id_example :
    payload_case_id_from_db_case_id "j::k" (db_case_id "j::k" "::a") ≡ "::a"
payload_case_id-db_case_id_example = payload_case_id-db_case_id "j::k" "::a"

stage_ends_marked :
    is_marked (stage_marker "j" extracting_rules_stage) (attempts "j" two_cases two_processes empty)
    ≡ true
unfolding attempts attempt is_extracted rules_of case_marker same_marker commit to_micro_rules
    payload_case_id_from_db_case_id db_case_id
stage_ends_marked = refl

attempts_cover_example :
    All
      (λ case. is_covered "j" case.id (attempts "j" two_cases two_processes empty) ≡ true)
      two_cases
attempts_cover_example =
    attempts_cover "j" two_cases two_processes empty empty-AreUnique refl stage_ends_marked

living_answers : (n : ℕ) → All (λ case. (living n).answer case ≢ none) two_cases
living_answers n = ((λ e. cc), ((λ e. cc), tt))

attempts_finish_example :
    (is_marked
        (stage_marker "j" extracting_rules_stage)
        (attempts "j" two_cases (living 2 ∷ living 9 ∷ living 0 ∷ []) empty)
      ≡ true)
    × All
        (λ case.
          is_covered "j" case.id
            (attempts "j" two_cases (living 2 ∷ living 9 ∷ living 0 ∷ []) empty)
          ≡ true)
        two_cases
    × (attempts "j" two_cases (living 2 ∷ living 9 ∷ living 0 ∷ []) empty
        ≡ attempts "j" two_cases (living 2 ∷ living 9 ∷ []) empty)
attempts_finish_example =
    attempts_finish "j" two_cases (living 2 ∷ []) (living 9) (living 0 ∷ []) empty empty-AreUnique
      refl (living_answers 9) (omega arith)

abbrev answered_batch : List BatchItem
answered_batch = record { custom_id = "a"; parsed = some (refund ∷ []) } ∷ []

died_before_the_end :
    is_marked (stage_marker "j" collected_stage) (collect "j" answered_batch (living 1) empty)
    ≡ false
unfolding collect same_marker commit to_micro_rules
died_before_the_end = refl

collect_twice_example :
    rules_of "j" "a"
      (collect "j" answered_batch (living 9) (collect "j" answered_batch (living 1) empty))
    ≡ (rules_of "j" "a" empty ++ to_micro_rules (living 1) "j" "a" 0 (refund ∷ []))
      ++ to_micro_rules (living 9) "j" "a" 0 (refund ∷ [])
collect_twice_example =
    collect_twice "j" "a" refund [] [] tt (living 1) (living 9) empty (omega arith) (omega arith)
      empty-AreUnique refl died_before_the_end

two_cases_are_new :
    breaks_key empty.cases (to_db_case "j" (record { id = "a"; split = train }) ∷ []) ≡ false
unfolding breaks_key
two_cases_are_new = refl

abbrev one_case : RuleKilnCase
one_case = record { id = "a"; split = train }

validate_stuck_example :
    ((n : ℕ)
      → ((validate "j" (one_case ∷ []) (suc (suc (suc n))) empty).cases
          ≡ empty.cases ++ to_db_case "j" one_case ∷ [])
        × (is_marked
              (stage_marker "j" validating_stage)
              (validate "j" (one_case ∷ []) (suc (suc (suc n))) empty)
            ≡ true))
    × ((later : List ℕ)
        → is_marked
            (stage_marker "j" validating_stage)
            (validate_all "j" (one_case ∷ []) (2 ∷ later) empty)
          ≡ false)
validate_stuck_example = validate_stuck "j" one_case [] empty empty-AreUnique refl two_cases_are_new

abbrev prompt : String → PromptVersion
prompt id = record {
  id = id;
  job_id = "j";
  strategy = "dbscan";
  version = "v1";
  system_prompt = "Approve.";
  prompt_hash = "00";
  is_selected = false;
}

compile_twice_example :
    (s : Session) × ((mark_prompt_version_selected "j" "dbscan" >> get_selected_prompt_version "j")
        (open_session 1
          (compile "j" "dbscan" (prompt "q") 3 (compile "j" "dbscan" (prompt "p") 2 empty)))
      ≡ err multiple_results_found s)
compile_twice_example =
    compile_twice "j" "dbscan" (prompt "p") (prompt "q") 0 0 empty empty-AreUnique refl refl refl
