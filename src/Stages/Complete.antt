-- ===== src/Stages/Complete.antt =====
-- A stage that is marked complete has dealt with every case, and an attempt that is left to run marks
-- it.
use rule_kiln.Prelude.{
  ◌≤◌, ◌+◌, ◌*◌, true, false, String, none, List, [], ◌∷◌, ◌++◌, ◌≡◌, ◌≢◌, refl, sym, subst, ◌⊎◌,
  inl, inr, length, arith, All, All-imp, not-true_of_false,
}
use rule_kiln.Evaluation.Cases.{RuleKilnCase}
use rule_kiln.Stages.Session.{Db, open_session}
use rule_kiln.Stages.Markers.{stage_marker, AreUnique}
use rule_kiln.Stages.Markers.Laws.{is_stage_complete-ok}
use rule_kiln.Stages.Extract.{Attempt, extracting_rules_stage, extracting_rules, attempt, attempts}
use rule_kiln.Stages.Once.{Answers, attempt-IsOnce}
use rule_kiln.Stages.Covered.{is_covered, stage_is_marked, excused}
use rule_kiln.Stages.Rounds.{Replies, IsFinished, attempt_ends}

all_answer :
    (job : String) (a : Attempt) (cases : List RuleKilnCase)
    → All (Answers job (λ _ _. Unit {0}) a) cases
all_answer job a [] = tt
all_answer job a (case ∷ cases) = ((λ rules e. tt), all_answer job a cases)

all_reply :
    (job : String) (a : Attempt) (cases : List RuleKilnCase) → All (Replies job (Unit {0}) a) cases
all_reply job a [] = tt
all_reply job a (case ∷ cases) = (inr tt, all_reply job a cases)

module _ (job : String) (cases : List RuleKilnCase) where
  -- An attempt after the stage was marked changes nothing.
  pub attempt-marked :
      (a : Attempt) (d : Db)
      → AreUnique d.markers
      → stage_is_marked job d ≡ true
      → attempt job cases a d ≡ d
  unfolding attempt extracting_rules
  attempt-marked a d unique marked =
      rw
        (is_stage_complete-ok (stage_marker job extracting_rules_stage) (open_session a.commits d)
          unique)
        (rw marked refl)

  attempts-marked :
      (history : List Attempt) (d : Db)
      → AreUnique d.markers
      → stage_is_marked job d ≡ true
      → attempts job cases history d ≡ d
  unfolding attempts
  attempts-marked [] d unique marked = refl
  attempts-marked (a ∷ rest) d unique marked =
      rw (attempt-marked a d unique marked) (attempts-marked rest d unique marked)

  attempt-AreUnique :
      (a : Attempt) (d : Db) → AreUnique d.markers → AreUnique (attempt job cases a d).markers
  attempt-AreUnique a d unique =
      (attempt-IsOnce job (λ _ _. Unit {0}) a cases d (all_answer job a cases)
        (unique, λ c. inr tt)).0

  -- Either the stage is finished, or it is unmarked and may be attempted again.
  attempts_end :
      (history : List Attempt) (d : Db)
      → AreUnique d.markers
      → stage_is_marked job d ≡ false
      → IsFinished job (Unit {0}) cases (attempts job cases history d)
        ⊎ ((stage_is_marked job (attempts job cases history d) ≡ false)
            × AreUnique (attempts job cases history d).markers)
  unfolding attempts
  attempts_end [] d unique unmarked = inr (unmarked, unique)
  attempts_end (a ∷ rest) d unique unmarked =
      elim (attempt_ends job (Unit {0}) a cases d (all_reply job a cases) unique unmarked
        (inr tt)) [
          | inl finished ↦ inl (
              subst (IsFinished job (Unit {0}) cases)
                (sym (attempts-marked rest (attempt job cases a d) finished.1 finished.0)) finished)
          | inr excused ↦
              attempts_end rest (attempt job cases a d) (attempt-AreUnique a d unique) excused.0
        ]

  -- An attempt that is left to run.
  finishing :
      (a : Attempt) (d : Db)
      → IsFinished job (Unit {0}) cases d ⊎ ((stage_is_marked job d ≡ false) × AreUnique d.markers)
      → All (λ case. a.answer case ≢ none) cases
      → 2 * length cases + 2 ≤ a.commits
      → IsFinished job (Unit {0}) cases (attempt job cases a d)
  finishing a d (inl finished) answers enough =
      subst (IsFinished job (Unit {0}) cases) (sym (attempt-marked a d finished.1 finished.0))
        finished
  finishing a d (inr still) answers enough =
      elim (attempt_ends job ⊥ a cases d (All-imp cases (λ case x. inl x) answers) still.1 still.0
        (inl (omega arith))) [ inl finished ↦ finished | inr excused ↦ absurd excused.1 ]

  attempts-append :
      (before rest : List Attempt) (d : Db)
      → attempts job cases (before ++ rest) d
        ≡ attempts job cases rest (attempts job cases before d)
  unfolding attempts
  attempts-append [] rest d = refl
  attempts-append (a ∷ before) rest d = attempts-append before rest (attempt job cases a d)

  -- Where the stage's marker stands at the end of any history of attempts, however they were cut off,
  -- every case has rows in the tables or its own marker, if no marker stood twice and the stage's did
  -- not stand at the start.
  pub attempts_cover :
      (history : List Attempt) (d : Db)
      → AreUnique d.markers
      → stage_is_marked job d ≡ false
      → stage_is_marked job (attempts job cases history d) ≡ true
      → All (λ case. is_covered job case.id (attempts job cases history d) ≡ true) cases
  attempts_cover history d unique unmarked marked = elim (attempts_end history d unique unmarked) [
    | inl finished ↦ finished.2
    | inr open_still ↦ absurd (not-true_of_false open_still.0 marked)
  ]

  -- If one attempt of a history gets an answer to every case and lives to make two commits for each
  -- case and two more, then at the end of the history the stage is marked and every case covered,
  -- wherever the attempts before were cut off, if no marker stood twice and the stage's did not stand
  -- at the start; and the attempts after it change nothing.
  pub attempts_finish :
      (before : List Attempt) (a : Attempt) (rest : List Attempt) (d : Db)
      → AreUnique d.markers
      → stage_is_marked job d ≡ false
      → All (λ case. a.answer case ≢ none) cases
      → 2 * length cases + 2 ≤ a.commits
      → (stage_is_marked job (attempts job cases (before ++ a ∷ rest) d) ≡ true)
        × All
            (λ case. is_covered job case.id (attempts job cases (before ++ a ∷ rest) d) ≡ true)
            cases
        × (attempts job cases (before ++ a ∷ rest) d ≡ attempts job cases (before ++ a ∷ []) d)
  unfolding attempts
  attempts_finish before a rest d unique unmarked answers enough =
      rw (attempts-append before (a ∷ rest) d, attempts-append before (a ∷ []) d)
        (let done =
            finishing a (attempts job cases before d) (attempts_end before d unique unmarked)
              answers enough in
          rw
            (attempts-marked rest (attempt job cases a (attempts job cases before d)) done.1 done.0)
            (done.0, done.2, refl))
