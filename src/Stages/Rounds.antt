-- ===== src/Stages/Rounds.antt =====
-- The loop of the extraction, with the commits that it needs.
use rule_kiln.Prelude.{
  ℕ, suc, ◌≤◌, ◌*◌, true, false, ◌||◌, String, none, some, List, [], ◌∷◌, ◌≡◌, ◌≢◌, refl, subst,
  ◌⊎◌, inl, inr, length, mem_str, str_eq_self, if_elim, arith, Bool-cases, All, Option-cases,
  All-imp,
}
use rule_kiln.Evaluation.Cases.{RuleKilnCase}
use rule_kiln.Stages.Session.{
  MicroRule, Db, Session, ◌>>◌, pure, commit, commit-spend, open_session, Ends, Ends-bind,
  Ends-weaken, Ends-split,
}
use rule_kiln.Stages.Markers.{mark_stage_complete, set_stage, stage_marker, is_marked, AreUnique}
use rule_kiln.Stages.Markers.Laws.{
  is_stage_complete-ok, mark_stage_complete-ok, add_marker-AreUnique, is_marked-add_marker,
  same_marker_self,
}
use rule_kiln.Stages.Extract.{
  Attempt, extracting_rules_stage, to_micro_rules, insert_if_any, extract_rules_for_case,
  case_marker, extract_new, extract_case, extract_cases, extracted_case_ids, extract_unmarked,
  extracting_rules, attempt, get_micro_rules_for_job,
}
use rule_kiln.Stages.Once.{extract_case_lem}
use rule_kiln.Stages.Covered.{
  is_covered, Grows, stage_is_marked, add_marker-Grows, marked-is_covered, rounds, or_true,
  IsExcused, IsRunning, excused, spare, insert-Ends, mark_case-Ends,
}

module _ (job : String) (X : Type 0) where
  -- The attempt's answers fail only where it is excused.
  abbrev pub Replies : Attempt → RuleKilnCase → Type 0
  Replies a case = (a.answer case ≢ none) ⊎ X

  -- After a round: the case is covered, and what was covered still is.
  abbrev pub IsRound : ℕ → RuleKilnCase → Db → List String → Session → Type 0
  IsRound k case d extracted s =
      IsRunning job X k extracted s
      × Grows job d s.current
      × (is_covered job case.id s.current ≡ true)

  pub store-Ends :
      (k : ℕ) (extracted : List String) (case : RuleKilnCase) (rows : List MicroRule) (s : Session)
      → IsRunning job X (suc (suc k)) extracted s
      → Ends (IsExcused job X) (IsRound k case s.current) (
          (insert_if_any rows
              >> (mark_stage_complete (case_marker job case.id) >> pure (case.id ∷ extracted)))
            s)
  store-Ends k extracted case rows s h =
      Ends-bind (IsExcused job X) _ (IsRound k case s.current) (insert_if_any rows) _ s
        (insert-Ends job X (suc k) extracted rows s h)
        (λ _ t i.
          Ends-bind (IsExcused job X) _ (IsRound k case s.current)
            (mark_stage_complete (case_marker job case.id)) _ t
            (mark_case-Ends job X k extracted case.id t i.0)
            (λ _ u j.
              (j.0, (λ c x. j.1 c (i.1 c x)), j.0.3 case.id (rw (str_eq_self case.id) refl))))

  pub excuse_of :
      (k : ℕ) (a : Attempt) (case : RuleKilnCase) (extracted : List String) (s : Session)
      → Replies a case
      → a.answer case ≡ none
      → IsRunning job X (suc (suc k)) extracted s
      → (IsExcused job X) s.committed
  excuse_of k a case extracted s (inl answers) failed h = absurd (answers failed)
  excuse_of k a case extracted s (inr x) failed h = excused job X (suc (suc k)) extracted s h x

  pub skipped :
      (case : RuleKilnCase) (extracted : List String) (s : Session)
      → (mem_str case.id extracted || is_marked (case_marker job case.id) s.current) ≡ true
      → ((c : String) → mem_str c extracted ≡ true → is_covered job c s.current ≡ true)
      → is_covered job case.id s.current ≡ true
  skipped case extracted s skip covered = elim (Bool-cases (mem_str case.id extracted)) [
    | inl named ↦ covered case.id named
    | inr absent ↦ marked-is_covered job case.id s.current (ground arith)
  ]

  pub extract_new-Ends :
      (k : ℕ) (a : Attempt) (case : RuleKilnCase) (extracted : List String) (s : Session)
      → Replies a case
      → IsRunning job X (suc (suc k)) extracted s
      → Ends (IsExcused job X) (IsRound k case s.current) (extract_new a job case extracted s)
  unfolding extract_new extract_rules_for_case
  extract_new-Ends k a case extracted s replies h = elim (Option-cases (a.answer case)) [
    | inl failed ↦ rw failed (excuse_of k a case extracted s replies failed h)
    | inr (rules, e) ↦ rw e (store-Ends k extracted case (to_micro_rules a job case.id 0 rules) s h)
  ]

  pub extract_case-Ends :
      (k : ℕ) (a : Attempt) (case : RuleKilnCase) (extracted : List String) (s : Session)
      → Replies a case
      → IsRunning job X (suc (suc k)) extracted s
      → Ends (IsExcused job X) (IsRound k case s.current) (extract_case a job case extracted s)
  extract_case-Ends k a case extracted s replies h =
      rw (extract_case_lem a job case extracted s h.1) (
        if_elim (Ends (IsExcused job X) (IsRound k case s.current))
          (mem_str case.id extracted || is_marked (case_marker job case.id) s.current)
          (λ skip. (
            (h.0, h.1, h.2, h.3, spare job X k s.commits (spare job X (suc k) s.commits h.4)),
            (λ c x. x),
            skipped case extracted s skip h.3,
          ))
          (λ _. extract_new-Ends k a case extracted s replies h))

  -- After the loop: every case is covered, and a commit is left for the stage's marker.
  abbrev pub IsSwept : List RuleKilnCase → Db → Unit {0} → Session → Type 0
  IsSwept cases d _ s =
      (extracted : List String) × IsRunning job X 1 extracted s
      × Grows job d s.current
      × All (λ case. is_covered job case.id s.current ≡ true) cases

  pub extract_cases-Ends :
      (a : Attempt) (cases : List RuleKilnCase) (extracted : List String) (s : Session)
      → All (Replies a) cases
      → IsRunning job X (suc (2 * length cases)) extracted s
      → Ends (IsExcused job X) (IsSwept cases s.current) (extract_cases a job cases extracted s)
  unfolding extract_cases
  extract_cases-Ends a [] extracted s r h = (extracted, h, (λ c x. x), tt)
  extract_cases-Ends a (case ∷ cases) extracted s r h =
      Ends-bind (IsExcused job X) (IsRound (suc (2 * length cases)) case s.current)
        (IsSwept (case ∷ cases) s.current) (extract_case a job case extracted) _ s
        (extract_case-Ends (suc (2 * length cases)) a case extracted s r.0
          (subst (λ n. IsRunning job X n extracted s) (rounds (length cases)) h))
        (λ extracted' t i.
          Ends-weaken (IsExcused job X) (IsSwept cases t.current) (IsSwept (case ∷ cases) s.current)
            (extract_cases a job cases extracted' t)
            (extract_cases-Ends a cases extracted' t r.1 i.0)
            (λ _ u j. (j.0, j.1, (λ c x. j.2 c (i.1 c x)), (j.2 case.id i.2, j.3))))

  -- The stage is marked and every case is covered.
  abbrev pub IsFinished : List RuleKilnCase → Db → Type 0
  IsFinished cases d =
      (stage_is_marked job d ≡ true)
      × AreUnique d.markers
      × All (λ case. is_covered job case.id d ≡ true) cases

  pub finish-Ends :
      (cases : List RuleKilnCase) (extracted : List String) (s : Session)
      → IsRunning job X 1 extracted s
      → All (λ case. is_covered job case.id s.current ≡ true) cases
      → Ends
          (IsExcused job X)
          (λ _ s'. IsFinished cases s'.committed)
          (mark_stage_complete (stage_marker job extracting_rules_stage) s)
  finish-Ends cases extracted s h covered =
      rw (mark_stage_complete-ok (stage_marker job extracting_rules_stage) s h.1, h.2)
        (commit-spend X (IsExcused job X) (λ _ s'. IsFinished cases s'.committed) 0 _ h.4
          (excused job X 1 extracted s h)
          (λ n enough. (
            rw
                (
                  is_marked-add_marker (stage_marker job extracting_rules_stage)
                      (stage_marker job extracting_rules_stage) s.current,
                  same_marker_self (stage_marker job extracting_rules_stage),
                )
                (or_true _),
            add_marker-AreUnique (stage_marker job extracting_rules_stage) s.current h.1 h.2,
            All-imp cases
                (λ case x.
                  add_marker-Grows job (stage_marker job extracting_rules_stage) s.current case.id
                    x)
                covered,
          )))

  pub restaged-is_covered :
      (stage : String) (d : Db) (c : String)
      → mem_str c (extracted_case_ids job (record d { job_stage = some stage })) ≡ true
      → is_covered job c (record d { job_stage = some stage }) ≡ true
  unfolding is_covered extracted_case_ids get_micro_rules_for_job
  restaged-is_covered stage d c h = rw h refl

  pub extract_unmarked-Ends :
      (a : Attempt) (cases : List RuleKilnCase) (n : ℕ) (d : Db)
      → All (Replies a) cases
      → AreUnique d.markers
      → stage_is_marked job d ≡ false
      → (suc (suc (2 * length cases)) ≤ n) ⊎ X
      → Ends
          (IsExcused job X)
          (λ _ s'. IsFinished cases s'.committed)
          (extract_unmarked a job cases (open_session n d))
  unfolding extract_unmarked set_stage
  extract_unmarked-Ends a cases n d r unique unmarked enough =
      Ends-bind (IsExcused job X)
        (λ _ s'. IsRunning job X (suc (2 * length cases)) (extracted_case_ids job s'.current) s')
        (λ _ s'. IsFinished cases s'.committed) commit _ _
        (commit-spend X (IsExcused job X) _ (suc (2 * length cases)) _ enough (λ x. (unmarked, x))
          (λ k left. (refl, unique, unmarked, restaged-is_covered extracting_rules_stage d, left)))
        (λ _ t i.
          Ends-bind (IsExcused job X) (IsSwept cases t.current)
            (λ _ s'. IsFinished cases s'.committed)
            (extract_cases a job cases (extracted_case_ids job t.current)) _ t
            (extract_cases-Ends a cases (extracted_case_ids job t.current) t r i)
            (λ _ u j. finish-Ends cases j.0 u j.1 j.3))

  -- An attempt on tables without the stage's marker leaves every case covered and the marker, or it
  -- leaves no marker and has its excuse.
  pub attempt_ends :
      (a : Attempt) (cases : List RuleKilnCase) (d : Db)
      → All (Replies a) cases
      → AreUnique d.markers
      → stage_is_marked job d ≡ false
      → (suc (suc (2 * length cases)) ≤ a.commits) ⊎ X
      → IsFinished cases (attempt job cases a d) ⊎ (IsExcused job X) (attempt job cases a d)
  unfolding attempt extracting_rules
  attempt_ends a cases d r unique unmarked enough =
      rw
        (is_stage_complete-ok (stage_marker job extracting_rules_stage) (open_session a.commits d)
          unique)
        (rw unmarked (
          Ends-split (IsExcused job X) (IsFinished cases)
            (extract_unmarked a job cases (open_session a.commits d))
            (extract_unmarked-Ends a cases a.commits d r unique unmarked enough)))
