-- ===== src/Stages/Collect/Twice.antt =====
-- A batch that is collected again after its process died.
use rule_kiln.Prelude.{
  ◌≤◌, false, String, Option, none, some, List, [], ◌∷◌, ◌++◌, append-nil, ◌≡◌, refl, ap, ◌∙◌,
  subst, str_eq, if_elim, inl, All,
}
use rule_kiln.Stages.Session.{
  MicroRule, StageMarker, Db, Session, ◌>>◌, commit-Ends, commit-spend, open_session, Ends,
  Ends-bind, Ends-weaken, Ends-committed,
}
use rule_kiln.Stages.Markers.{mark_stage_complete, stage_marker, add_marker, is_marked, AreUnique}
use rule_kiln.Stages.Markers.Laws.{
  is_stage_complete-ok, mark_stage_complete-ok, add_marker-AreUnique,
}
use rule_kiln.Stages.Extract.{
  MicroRuleSchema, Attempt, extracting_rules_stage, to_micro_rules, add_micro_rules,
  bulk_insert_micro_rules, insert_if_any, case_marker, get_micro_rules_for_job, rules_of,
}
use rule_kiln.Stages.Rows.{
  rules_of-add_micro_rules, rules_of-to_micro_rules, rules_of-to_micro_rules_other,
}
use rule_kiln.Stages.Collect.{
  BatchItem, collected_stage, collect_parsed, collect_items, collect_unmarked, collecting_batch,
  collect,
}

module _ (job c : String) (rows : List MicroRule) where
  -- Tables with these rows for the case.
  abbrev Holds : Db → Type 0
  Holds d = AreUnique d.markers × (rules_of job c d ≡ rows)

  abbrev Keeps : Unit {0} → Session → Type 0
  Keeps _ s = (s.current ≡ s.committed) × Holds s.current

  add_marker-Holds :
      (k : StageMarker) (d : Db) → is_marked k d ≡ false → Holds d → Holds (add_marker k d)
  unfolding add_marker rules_of get_micro_rules_for_job
  add_marker-Holds k d new h = (unfold add_marker in add_marker-AreUnique k d h.0 new, h.1)

  mark-Keeps :
      (k : StageMarker) (s : Session) → Keeps tt s → Ends Holds Keeps (mark_stage_complete k s)
  mark-Keeps k s h = rw (mark_stage_complete-ok k s h.1.0) (
      if_elim (Ends Holds Keeps) (is_marked k s.current) (λ _. h)
        (λ new.
          commit-Ends Holds Keeps _ (subst Holds h.0 h.1)
            (λ n. (refl, add_marker-Holds k s.current new h.1))))

  insert-Keeps :
      (a : Attempt) (e : String) (rules : List MicroRuleSchema) (s : Session)
      → str_eq e c ≡ false
      → Keeps tt s
      → Ends Holds Keeps (insert_if_any (to_micro_rules a job e 0 rules) s)
  unfolding insert_if_any bulk_insert_micro_rules
  insert-Keeps a e [] s other h = unfold to_micro_rules in h
  insert-Keeps a e (r ∷ rules) s other h =
      unfold to_micro_rules in
      commit-Ends Holds Keeps _ (subst Holds h.0 h.1) (λ n. (
        refl,
        (
          unfold add_micro_rules in h.1.0,
          rw
              (
                rules_of-add_micro_rules job c (to_micro_rules a job e 0 (r ∷ rules)) s.current,
                rules_of-to_micro_rules_other a job e c 0 (r ∷ rules) s.current other,
                append-nil (rules_of job c s.current),
              )
              h.1.1,
        ),
      ))

  parsed-Keeps :
      (a : Attempt) (e : String) (parsed : Option (List MicroRuleSchema)) (s : Session)
      → str_eq e c ≡ false
      → Keeps tt s
      → Ends Holds Keeps (collect_parsed a job e parsed s)
  unfolding collect_parsed
  parsed-Keeps a e none s other h = h
  parsed-Keeps a e (some rules) s other h =
      Ends-bind Holds Keeps Keeps (insert_if_any (to_micro_rules a job e 0 rules)) _ s
        (insert-Keeps a e rules s other h) (λ _ t i. mark-Keeps (case_marker job e) t i)

  items-Keeps :
      (a : Attempt) (items : List BatchItem) (s : Session)
      → All (λ item. str_eq item.custom_id c ≡ false) items
      → Keeps tt s
      → Ends Holds Keeps (collect_items a job items s)
  unfolding collect_items
  items-Keeps a [] s others h = h
  items-Keeps a (item ∷ items) s others h =
      Ends-bind Holds Keeps Keeps (collect_parsed a job item.custom_id item.parsed) _ s
        (parsed-Keeps a item.custom_id item.parsed s others.0 h)
        (λ _ t i. items-Keeps a items t others.1 i)

  -- What follows the items.
  marks-Keeps :
      (s : Session)
      → Keeps tt s
      → Ends Holds Keeps (
          (mark_stage_complete (stage_marker job extracting_rules_stage)
              >> mark_stage_complete (stage_marker job collected_stage))
            s)
  marks-Keeps s h =
      Ends-bind Holds Keeps Keeps (mark_stage_complete (stage_marker job extracting_rules_stage)) _
        s (mark-Keeps (stage_marker job extracting_rules_stage) s h)
        (λ _ v l. mark-Keeps (stage_marker job collected_stage) v l)

module _ (job c : String) (rule : MicroRuleSchema) (rules : List MicroRuleSchema)
    (items : List BatchItem) (others : All (λ item. str_eq item.custom_id c ≡ false) items) where
  abbrev batch : List BatchItem
  batch = record { custom_id = c; parsed = some (rule ∷ rules) } ∷ items

  abbrev new_rows : Attempt → List MicroRule
  new_rows a = to_micro_rules a job c 0 (rule ∷ rules)

  first_insert :
      (a : Attempt) (s : Session)
      → 1 ≤ s.commits
      → s.current ≡ s.committed
      → AreUnique s.current.markers
      → Ends
          (Holds job c (rules_of job c s.current ++ new_rows a))
          (Keeps job c (rules_of job c s.current ++ new_rows a))
          (insert_if_any (new_rows a) s)
  unfolding insert_if_any bulk_insert_micro_rules
  first_insert a s lives e unique =
      unfold to_micro_rules in
      commit-spend ⊥ (Holds job c (rules_of job c s.current ++ new_rows a))
        (Keeps job c (rules_of job c s.current ++ new_rows a)) 0 _ (inl lives) (λ x. absurd x)
        (λ n _. (
          refl,
          (
            unfold add_micro_rules in unique,
            rw
                (
                  rules_of-add_micro_rules job c (new_rows a) s.current,
                  rules_of-to_micro_rules a job c 0 (rule ∷ rules) s.current,
                )
                refl,
          ),
        ))

  first-Keeps :
      (a : Attempt) (s : Session)
      → 1 ≤ s.commits
      → s.current ≡ s.committed
      → AreUnique s.current.markers
      → Ends
          (Holds job c (rules_of job c s.current ++ new_rows a))
          (Keeps job c (rules_of job c s.current ++ new_rows a))
          (collect_parsed a job c (some (rule ∷ rules)) s)
  unfolding collect_parsed insert_if_any bulk_insert_micro_rules
  first-Keeps a s lives e unique =
      let after = rules_of job c s.current ++ new_rows a in
      Ends-bind (Holds job c after) (Keeps job c after) (Keeps job c after)
        (insert_if_any (new_rows a)) _ s (first_insert a s lives e unique)
        (λ _ t i. mark-Keeps job c after (case_marker job c) t i)

  whole :
      (a : Attempt) (d : Db)
      → 1 ≤ a.commits
      → AreUnique d.markers
      → Ends
          (Holds job c (rules_of job c d ++ new_rows a))
          (Keeps job c (rules_of job c d ++ new_rows a))
          (collect_unmarked a job batch (open_session a.commits d))
  unfolding collect_unmarked collect_items
  whole a d lives unique =
      let after = rules_of job c d ++ new_rows a in
      Ends-bind (Holds job c after) (Keeps job c after) (Keeps job c after)
        (collect_items a job batch) _ (open_session a.commits d)
        (Ends-bind (Holds job c after) (Keeps job c after) (Keeps job c after)
          (collect_parsed a job c (some (rule ∷ rules))) _ (open_session a.commits d)
          (first-Keeps a (open_session a.commits d) lives refl unique)
          (λ _ t i. items-Keeps job c after a items t others i))
        (λ _ t i. marks-Keeps job c after t i)

  -- A process that lives for one commit or more adds the answer to the rows that are there.
  collect-appends :
      (a : Attempt) (d : Db)
      → 1 ≤ a.commits
      → AreUnique d.markers
      → is_marked (stage_marker job collected_stage) d ≡ false
      → Holds job c (rules_of job c d ++ new_rows a) (collect job batch a d)
  unfolding collect collecting_batch
  collect-appends a d lives unique unmarked =
      let after = rules_of job c d ++ new_rows a in
      rw (is_stage_complete-ok (stage_marker job collected_stage) (open_session a.commits d) unique)
        (rw unmarked (
          Ends-committed (Holds job c after)
            (collect_unmarked a job batch (open_session a.commits d))
            (Ends-weaken (Holds job c after) (Keeps job c after)
              (λ _ s. Holds job c after s.committed)
              (collect_unmarked a job batch (open_session a.commits d)) (whole a d lives unique)
              (λ _ s h. subst (Holds job c after) h.0 h.1))))

  -- When a process has stored the first answer of a finished batch and dies before the batch is marked
  -- as collected, the next process that lives for a commit stores its rows for the case beside those
  -- of the first: the case then has the answer twice. No marker stands twice at the start, and the
  -- batch's other items are not of that case.
  pub collect_twice :
      (a b : Attempt) (d : Db)
      → 1 ≤ a.commits
      → 1 ≤ b.commits
      → AreUnique d.markers
      → is_marked (stage_marker job collected_stage) d ≡ false
      → is_marked (stage_marker job collected_stage) (collect job batch a d) ≡ false
      → rules_of job c (collect job batch b (collect job batch a d))
        ≡ (rules_of job c d ++ to_micro_rules a job c 0 (rule ∷ rules))
          ++ to_micro_rules b job c 0 (rule ∷ rules)
  collect_twice a b d lives lives' unique unmarked died =
      let first = collect-appends a d lives unique unmarked in
      let second = collect-appends b (collect job batch a d) lives' first.0 died in
      second.1 ∙ ap (λ rows. rows ++ new_rows b) first.1
