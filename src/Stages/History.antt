-- ===== src/Stages/History.antt =====
-- Each case of a job is extracted once, by one of the job's processes.
use rule_kiln.Prelude.{String, some, List, [], ◌≡◌, refl, ◌⊎◌, inl, All, All-imp, AnyOf, All_AnyOf}
use rule_kiln.Evaluation.Cases.{RuleKilnCase}
use rule_kiln.Stages.Session.{MicroRule, Db}
use rule_kiln.Stages.Markers.{AreUnique}
use rule_kiln.Stages.Extract.{MicroRuleSchema, Attempt, to_micro_rules, attempts, rules_of}
use rule_kiln.Stages.Once.{Answers, attempts-IsOnce}

module _ (job : String) (cases : List RuleKilnCase) (history : List Attempt) where
  -- `rows` are the whole of one answer that a process of the history got to a case with id `c`.
  abbrev pub IsOneAnswer : String → List MicroRule → Type 0
  IsOneAnswer c rows =
      AnyOf
        (λ a.
          AnyOf
            (λ case.
              (rules : List MicroRuleSchema) × (a.answer case ≡ some rules)
              × (rows ≡ to_micro_rules a job case.id 0 rules)
              × (case.id ≡ c))
            cases)
        history

  answered : All (λ a. All (Answers job IsOneAnswer a) cases) history
  answered =
      All-imp history
        (λ a among.
          All-imp cases (λ case one rules e. among _ (one _ (rules, e, refl, refl)))
            (All_AnyOf cases))
        (All_AnyOf history)

  -- However the processes of a job are cut off, at any commit, at the end the rows of a case are none,
  -- or all the rules of one answer that one of the processes got for it, in order: never part of an
  -- answer, and never two. At the start no marker may stand twice and the case may have no rows.
  pub extracted_once :
      (d : Db)
      → AreUnique d.markers
      → ((c : String) → rules_of job c d ≡ [])
      → (c : String)
      → (rules_of job c (attempts job cases history d) ≡ [])
        ⊎ IsOneAnswer c (rules_of job c (attempts job cases history d))
  extracted_once d unique none_yet c =
      (attempts-IsOnce job IsOneAnswer cases history d answered (unique, λ e. inl (none_yet e))).1 c
