-- ===== src/Stages/Once.antt =====
-- However often the process of a job dies and is started again, each case is extracted once.
use rule_kiln.Prelude.{
  ℕ, false, ◌||◌, String, some, List, [], ◌∷◌, ◌++◌, append-nil, ◌≡◌, refl, sym, ◌∙◌, subst, ◌⊎◌,
  inl, inr, mem_str, str_eq, eq_iff, if_elim, if◌then◌else◌, arith, Bool-cases, All, Option-cases,
}
use rule_kiln.Evaluation.Cases.{RuleKilnCase}
use rule_kiln.Stages.Session.{
  StageMarker, MicroRule, Db, Session, ok, ◌>>=◌, ◌>>◌, pure, commit, commit-Ends, open_session,
  Ends, Ends-bind, Ends-weaken, Ends-committed,
}
use rule_kiln.Stages.Markers.{
  mark_stage_complete, set_stage, stage_marker, add_marker, is_marked, AreUnique,
}
use rule_kiln.Stages.Markers.Laws.{
  is_stage_complete-ok, mark_stage_complete-ok, add_marker-AreUnique, is_marked-add_marker,
}
use rule_kiln.Stages.Extract.{
  MicroRuleSchema, Attempt, extracting_rules_stage, to_micro_rules, add_micro_rules,
  bulk_insert_micro_rules, insert_if_any, extract_rules_for_case, case_marker, is_extracted,
  extract_new, extract_case, extract_cases, extracted_case_ids, extract_unmarked, extracting_rules,
  attempt, attempts, rules_of, get_micro_rules_for_job,
}
use rule_kiln.Stages.Rows.{
  rules_of-add_micro_rules, rules_of-to_micro_rules, rules_of-to_micro_rules_other,
  rules_of_unnamed,
}

-- The two tests of the loop, where no marker stands twice.
pub is_extracted_lem :
    (job c : String) (extracted : List String) (s : Session)
    → AreUnique s.current.markers
    → is_extracted job c extracted s
      ≡ ok (mem_str c extracted || is_marked (case_marker job c) s.current) s
unfolding is_extracted
is_extracted_lem job c extracted s u = elim (Bool-cases (mem_str c extracted)) [
  | inl named ↦ rw named refl
  | inr absent ↦ rw absent (is_stage_complete-ok (case_marker job c) s u)
]

-- A round skips the case, or extracts it.
pub extract_case_lem :
    (a : Attempt) (job : String) (case : RuleKilnCase) (extracted : List String) (s : Session)
    → AreUnique s.current.markers
    → extract_case a job case extracted s ≡ (
        if mem_str case.id extracted || is_marked (case_marker job case.id) s.current
        then ok extracted s
        else extract_new a job case extracted s)
unfolding extract_case
extract_case_lem a job case extracted s u =
    rw (is_extracted_lem job case.id extracted s u, ◌>>=◌)
      (elim (Bool-cases
        (mem_str case.id extracted || is_marked (case_marker job case.id) s.current)) [
          | inl skip ↦ rw skip refl
          | inr new ↦ rw new refl
        ])

-- `Q c rows`: that `rows` may stand for case `c`.
module _ (job : String) (Q : String → List MicroRule → Type 0) where
  -- No marker stands twice, and the rows of every case are none or such as may stand for it.
  abbrev pub IsOnce : Db → Type 0
  IsOnce d = AreUnique d.markers × ((c : String) → (rules_of job c d ≡ []) ⊎ Q c (rules_of job c d))

  -- A session between two statements of the loop, with the cases that the loop will skip.
  abbrev IsReady : List String → Session → Type 0
  IsReady extracted s =
      (s.current ≡ s.committed)
      × IsOnce s.current
      × ((c : String)
          → mem_str c extracted ≡ false
          → is_marked (case_marker job c) s.current ≡ false
          → rules_of job c s.current ≡ [])

  add_marker-IsOnce :
      (k : StageMarker) (d : Db) → is_marked k d ≡ false → IsOnce d → IsOnce (add_marker k d)
  unfolding add_marker rules_of get_micro_rules_for_job
  add_marker-IsOnce k d e h = (unfold add_marker in add_marker-AreUnique k d h.0 e, h.1)

  -- What `d` has of rows and markers, `d'` has: the same rows, and at least the markers.
  abbrev Extends : Db → Db → Type 0
  Extends d d' =
      ((c : String) → rules_of job c d' ≡ rules_of job c d)
      × ((k : StageMarker) → is_marked k d' ≡ false → is_marked k d ≡ false)

  add_marker-Extends : (k : StageMarker) (d : Db) → Extends d (add_marker k d)
  unfolding add_marker rules_of get_micro_rules_for_job
  add_marker-Extends k d =
      (λ c. refl, λ j e. unfold add_marker in ground (arith, is_marked-add_marker j k d))

  -- Marking keeps the rows, and what was marked.
  mark-Ends :
      (k : StageMarker) (s : Session)
      → s.current ≡ s.committed
      → IsOnce s.current
      → Ends IsOnce
          (λ _ s'. (s'.current ≡ s'.committed) × IsOnce s'.current × Extends s.current s'.current)
          (mark_stage_complete k s)
  mark-Ends k s e h = rw (mark_stage_complete-ok k s h.0) (
      if_elim
        (Ends IsOnce
          (λ _ s'. (s'.current ≡ s'.committed) × IsOnce s'.current × Extends s.current s'.current))
        (is_marked k s.current) (λ _. (e, h, (λ c. refl, λ j x. x)))
        (λ no_marker.
          commit-Ends IsOnce _ _ (subst IsOnce e h) (λ n.
            (refl, add_marker-IsOnce k s.current no_marker h, add_marker-Extends k s.current))))

  -- A new answer for a case that has no rows.
  add_micro_rules-IsOnce :
      (a : Attempt) (c : String) (rules : List MicroRuleSchema) (d : Db)
      → rules_of job c d ≡ []
      → Q c (to_micro_rules a job c 0 rules)
      → IsOnce d
      → IsOnce (add_micro_rules (to_micro_rules a job c 0 rules) d)
  add_micro_rules-IsOnce a c rules d free q h = (
    unfold add_micro_rules in h.0,
    λ e. rw (rules_of-add_micro_rules job e _ d) (elim (Bool-cases (str_eq c e)) [
      | inl same ↦ inr (
          subst
            (λ x. Q x (
              rules_of job x d
              ++ rules_of job x (record d { micro_rules = to_micro_rules a job c 0 rules })))
            ((eq_iff c e).0 same) (rw (free, rules_of-to_micro_rules a job c 0 rules d) q))
      | inr other ↦
          rw
            (rules_of-to_micro_rules_other a job c e 0 rules d other, append-nil (rules_of job e d))
            (h.1 e)
    ]),
  )

  -- Inserting the rows of a case that had none, where the process may die.
  insert-Ends :
      (a : Attempt) (c : String) (rules : List MicroRuleSchema) (s : Session)
      → s.current ≡ s.committed
      → IsOnce s.current
      → rules_of job c s.current ≡ []
      → Q c (to_micro_rules a job c 0 rules)
      → Ends IsOnce
          (λ _ s'.
            (s'.current ≡ s'.committed)
            × IsOnce s'.current
            × ((k : StageMarker) → is_marked k s'.current ≡ is_marked k s.current)
            × ((e : String)
                → str_eq c e ≡ false
                → rules_of job e s'.current ≡ rules_of job e s.current))
          (insert_if_any (to_micro_rules a job c 0 rules) s)
  unfolding insert_if_any bulk_insert_micro_rules
  insert-Ends a c [] s e h free q = unfold to_micro_rules in (e, h, λ k. refl, λ x y. refl)
  insert-Ends a c (r ∷ rules) s e h free q =
      unfold to_micro_rules in
      commit-Ends IsOnce _ _ (subst IsOnce e h) (λ n. (
        refl,
        add_micro_rules-IsOnce a c (r ∷ rules) s.current free q h,
        λ k. unfold add_micro_rules in refl,
        λ x other.
            rw
              (
                rules_of-add_micro_rules job x (to_micro_rules a job c 0 (r ∷ rules)) s.current,
                rules_of-to_micro_rules_other a job c x 0 (r ∷ rules) s.current other,
                append-nil (rules_of job x s.current),
              )
              refl,
      ))

  -- The rest of a round, once the teacher has answered.
  store-Ends :
      (a : Attempt) (case : RuleKilnCase) (extracted : List String) (rules : List MicroRuleSchema)
      (s : Session)
      → IsReady extracted s
      → mem_str case.id extracted ≡ false
      → is_marked (case_marker job case.id) s.current ≡ false
      → Q case.id (to_micro_rules a job case.id 0 rules)
      → Ends IsOnce IsReady (
          (insert_if_any (to_micro_rules a job case.id 0 rules)
              >> (mark_stage_complete (case_marker job case.id) >> pure (case.id ∷ extracted)))
            s)
  store-Ends a case extracted rules s h absent unmarked q =
      Ends-bind IsOnce _ IsReady (insert_if_any (to_micro_rules a job case.id 0 rules)) _ s
        (insert-Ends a case.id rules s h.0 h.1 (h.2 case.id absent unmarked) q)
        (λ _ t i.
          Ends-bind IsOnce _ IsReady (mark_stage_complete (case_marker job case.id)) _ t
            (mark-Ends (case_marker job case.id) t i.0 i.1)
            (λ _ u j. (
              j.0,
              j.1,
              λ c out no_marker.
                  let apart : str_eq case.id c ≡ false = ground arith in
                  let outside : mem_str c extracted ≡ false = ground arith in
                  (j.2.0 c)
                  ∙ i.3 c apart
                  ∙ h.2 c outside
                      (sym (i.2 (case_marker job c)) ∙ j.2.1 (case_marker job c) no_marker),
            )))

  -- The teacher's answers may stand for the cases.
  abbrev pub Answers : Attempt → RuleKilnCase → Type 0
  Answers a case =
      (rules : List MicroRuleSchema)
      → a.answer case ≡ some rules
      → Q case.id (to_micro_rules a job case.id 0 rules)

  extract_new-Ends :
      (a : Attempt) (case : RuleKilnCase) (extracted : List String) (s : Session)
      → Answers a case
      → IsReady extracted s
      → mem_str case.id extracted ≡ false
      → is_marked (case_marker job case.id) s.current ≡ false
      → Ends IsOnce IsReady (extract_new a job case extracted s)
  unfolding extract_new extract_rules_for_case
  extract_new-Ends a case extracted s q h absent unmarked = elim (Option-cases (a.answer case)) [
    | inl failed ↦ rw failed (subst IsOnce h.0 h.1)
    | inr (rules, e) ↦ rw e (store-Ends a case extracted rules s h absent unmarked (q rules e))
  ]

  extract_case-Ends :
      (a : Attempt) (case : RuleKilnCase) (extracted : List String) (s : Session)
      → Answers a case
      → IsReady extracted s
      → Ends IsOnce IsReady (extract_case a job case extracted s)
  extract_case-Ends a case extracted s q h =
      rw (extract_case_lem a job case extracted s h.1.0)
        (elim (Bool-cases (mem_str case.id extracted)) [
          | inl named ↦ rw named h
          | inr absent ↦
              rw absent (elim (Bool-cases (is_marked (case_marker job case.id) s.current)) [
                | inl marked ↦ rw marked h
                | inr unmarked ↦
                    rw unmarked (extract_new-Ends a case extracted s q h absent unmarked)
              ])
        ])

  extract_cases-Ends :
      (a : Attempt) (cases : List RuleKilnCase) (extracted : List String) (s : Session)
      → All (Answers a) cases
      → IsReady extracted s
      → Ends IsOnce
          (λ _ s'. (s'.current ≡ s'.committed) × IsOnce s'.current)
          (extract_cases a job cases extracted s)
  unfolding extract_cases
  extract_cases-Ends a [] extracted s q h = (h.0, h.1)
  extract_cases-Ends a (case ∷ cases) extracted s q h =
      Ends-bind IsOnce IsReady (λ _ s'. (s'.current ≡ s'.committed) × IsOnce s'.current)
        (extract_case a job case extracted) _ s (extract_case-Ends a case extracted s q.0 h)
        (λ extracted' t i. extract_cases-Ends a cases extracted' t q.1 i)

  staged-IsOnce :
      (stage : String) (d : Db) → IsOnce d → IsOnce (record d { job_stage = some stage })
  unfolding rules_of get_micro_rules_for_job
  staged-IsOnce stage d h = h

  extract_unmarked-Ends :
      (a : Attempt) (cases : List RuleKilnCase) (n : ℕ) (d : Db)
      → All (Answers a) cases
      → IsOnce d
      → Ends IsOnce (λ _ s'. IsOnce s'.committed) (extract_unmarked a job cases (open_session n d))
  unfolding extract_unmarked set_stage
  extract_unmarked-Ends a cases n d q h =
      Ends-bind IsOnce _ (λ _ s'. IsOnce s'.committed) commit _ _
        (commit-Ends IsOnce (λ _ s'. IsReady (extracted_case_ids job s'.current) s') _ h
          (λ k. (
            refl,
            staged-IsOnce extracting_rules_stage d h,
            λ c out _. rules_of_unnamed job c _ out,
          )))
        (λ _ t i.
          Ends-bind IsOnce _ (λ _ s'. IsOnce s'.committed)
            (extract_cases a job cases (extracted_case_ids job t.current)) _ t
            (extract_cases-Ends a cases (extracted_case_ids job t.current) t q i)
            (λ _ u j.
              Ends-weaken IsOnce _ (λ _ s'. IsOnce s'.committed)
                (mark_stage_complete (stage_marker job extracting_rules_stage) u)
                (mark-Ends (stage_marker job extracting_rules_stage) u j.0 j.1)
                (λ _ v l. subst IsOnce l.0 l.1)))

  -- Whatever an attempt comes to, its tables hold no case twice.
  pub attempt-IsOnce :
      (a : Attempt) (cases : List RuleKilnCase) (d : Db)
      → All (Answers a) cases
      → IsOnce d
      → IsOnce (attempt job cases a d)
  unfolding attempt extracting_rules
  attempt-IsOnce a cases d q h =
      rw
        (is_stage_complete-ok (stage_marker job extracting_rules_stage) (open_session a.commits d)
          h.0)
        (elim (Bool-cases (is_marked (stage_marker job extracting_rules_stage) d)) [
          | inl complete ↦ rw complete h
          | inr incomplete ↦
              rw incomplete
                (Ends-committed IsOnce _ (extract_unmarked-Ends a cases a.commits d q h))
        ])

  pub attempts-IsOnce :
      (cases : List RuleKilnCase) (history : List Attempt) (d : Db)
      → All (λ a. All (Answers a) cases) history
      → IsOnce d
      → IsOnce (attempts job cases history d)
  unfolding attempts
  attempts-IsOnce cases [] d q h = h
  attempts-IsOnce cases (a ∷ rest) d q h =
      attempts-IsOnce cases rest (attempt job cases a d) q.1 (attempt-IsOnce a cases d q.0 h)
