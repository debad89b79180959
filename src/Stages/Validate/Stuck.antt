-- ===== src/Stages/Validate/Stuck.antt =====
-- What becomes of the validating stage when its process dies between its commits.
use rule_kiln.Prelude.{
  ℕ, zero, suc, Bool, true, false, ◌||◌, String, some, List, [], ◌∷◌, ◌++◌, ◌≡◌, refl, map,
  str_eq_self, arith,
}
use rule_kiln.Evaluation.Cases.{RuleKilnCase}
use rule_kiln.Stages.Session.{
  CaseRow, Db, integrity_error, err, ◌>>=◌, commit, open_session, committed_by,
}
use rule_kiln.Stages.Markers.{
  mark_stage_complete, set_stage, stage_marker, is_marked, AreUnique, add_marker,
}
use rule_kiln.Stages.Markers.Laws.{
  is_stage_complete-ok, mark_stage_complete-ok, is_marked-add_marker, same_marker_self,
}
use rule_kiln.Stages.Validate.{
  validating_stage, to_db_case, has_case, breaks_key, bulk_insert_cases, add_cases,
  validate_unmarked, validating_project, validate, validate_all,
}

or_true : (b : Bool) → (b || true) ≡ true
or_true b = ground arith

module _ (job : String) (cases : List RuleKilnCase) where
  abbrev stage_is_marked : Db → Bool
  stage_is_marked d = is_marked (stage_marker job validating_stage) d

  -- The stage is not marked, and a row of the payload is in the table.
  abbrev IsStuck : Db → Type 0
  IsStuck d =
      AreUnique d.markers
      × (stage_is_marked d ≡ false)
      × (breaks_key d.cases (map (to_db_case job) cases) ≡ true)

  fails_again :
      (n : ℕ) (d : Db)
      → breaks_key d.cases (map (to_db_case job) cases) ≡ true
      → validate_unmarked job cases (open_session (suc n) d)
        ≡ err integrity_error (open_session n (record d { job_stage = some validating_stage }))
  unfolding validate_unmarked set_stage commit bulk_insert_cases
  fails_again n d taken = rw (taken, ◌>>=◌) refl

  validate_unmarked-IsStuck :
      (n : ℕ) (d : Db)
      → IsStuck d
      → IsStuck (committed_by (validate_unmarked job cases (open_session n d)))
  validate_unmarked-IsStuck zero d h =
      unfold validate_unmarked in unfold set_stage in unfold commit in h
  validate_unmarked-IsStuck (suc n) d h = rw (fails_again n d h.2) h

  validate-IsStuck : (n : ℕ) (d : Db) → IsStuck d → IsStuck (validate job cases n d)
  unfolding validate validating_project
  validate-IsStuck n d h =
      rw (is_stage_complete-ok (stage_marker job validating_stage) (open_session n d) h.0)
        (rw h.1 (validate_unmarked-IsStuck n d h))

  validate_all-IsStuck : (ns : List ℕ) (d : Db) → IsStuck d → IsStuck (validate_all job cases ns d)
  unfolding validate_all
  validate_all-IsStuck [] d h = h
  validate_all-IsStuck (n ∷ ns) d h =
      validate_all-IsStuck ns (validate job cases n d) (validate-IsStuck n d h)

module _ (job : String) (case : RuleKilnCase) (rest : List RuleKilnCase) (d : Db) where
  abbrev new_rows : List CaseRow
  new_rows = map (to_db_case job) (case ∷ rest)

  has_case_self : (r : CaseRow) (rows more : List CaseRow) → has_case r.id (rows ++ r ∷ more) ≡ true
  unfolding has_case
  has_case_self r [] more = ground (arith, str_eq_self r.id)
  has_case_self r (x ∷ rows) more = ground (arith, has_case_self r rows more)

  -- The tables after the second commit.
  abbrev with_cases : Db
  with_cases = record d { job_stage = some validating_stage; cases = d.cases ++ new_rows }

  with_cases-taken : breaks_key with_cases.cases new_rows ≡ true
  unfolding breaks_key
  with_cases-taken =
      ground (arith, has_case_self (to_db_case job case) d.cases (map (to_db_case job) rest))

  validate_two :
      AreUnique d.markers
      → is_marked (stage_marker job validating_stage) d ≡ false
      → breaks_key d.cases new_rows ≡ false
      → (n : ℕ)
      → validate job (case ∷ rest) (suc (suc n)) d
        ≡ committed_by
            (mark_stage_complete (stage_marker job validating_stage) (open_session n with_cases))
  unfolding validate validating_project validate_unmarked set_stage bulk_insert_cases add_cases
      commit
  validate_two unique unmarked free n =
      rw
        (is_stage_complete-ok (stage_marker job validating_stage) (open_session (suc (suc n)) d)
          unique)
        (rw unmarked (rw free refl))

  marked_last :
      AreUnique d.markers
      → is_marked (stage_marker job validating_stage) d ≡ false
      → (n : ℕ)
      → committed_by (
          mark_stage_complete (stage_marker job validating_stage) (open_session (suc n) with_cases))
        ≡ add_marker (stage_marker job validating_stage) with_cases
  unfolding commit
  marked_last unique unmarked n =
      rw
        (mark_stage_complete-ok (stage_marker job validating_stage)
          (open_session (suc n) with_cases) unique)
        (rw unmarked refl)

  unmarked_last :
      AreUnique d.markers
      → is_marked (stage_marker job validating_stage) d ≡ false
      → committed_by
          (mark_stage_complete (stage_marker job validating_stage) (open_session zero with_cases))
        ≡ with_cases
  unfolding commit
  unmarked_last unique unmarked =
      rw
        (mark_stage_complete-ok (stage_marker job validating_stage) (open_session zero with_cases)
          unique)
        (rw unmarked refl)

  -- On tables that hold no case of the payload, where the payload's case ids are distinct: a process
  -- that lives to make three commits adds each case once and marks the stage. If it dies after its
  -- second commit, no later processes ever mark the stage, however long they live.
  pub validate_stuck :
      AreUnique d.markers
      → is_marked (stage_marker job validating_stage) d ≡ false
      → breaks_key d.cases new_rows ≡ false
      → ((n : ℕ)
          → ((validate job (case ∷ rest) (suc (suc (suc n))) d).cases ≡ d.cases ++ new_rows)
            × (is_marked
                  (stage_marker job validating_stage)
                  (validate job (case ∷ rest) (suc (suc (suc n))) d)
                ≡ true))
        × ((later : List ℕ)
            → is_marked
                (stage_marker job validating_stage)
                (validate_all job (case ∷ rest) (2 ∷ later) d)
              ≡ false)
  unfolding validate_all
  validate_stuck unique unmarked free = (
    λ n.
        rw (validate_two unique unmarked free (suc n), marked_last unique unmarked n)
          (
            unfold add_marker in refl,
            rw
                (
                  is_marked-add_marker (stage_marker job validating_stage)
                      (stage_marker job validating_stage) with_cases,
                  same_marker_self (stage_marker job validating_stage),
                )
                (or_true _),
          ),
    λ later.
        rw (validate_two unique unmarked free zero, validate_all)
          (rw (unmarked_last unique unmarked)
            (validate_all-IsStuck job (case ∷ rest) later with_cases
              (unique, unmarked, with_cases-taken)).1),
  )
