-- ===== src/Stages/Covered.antt =====
-- What the tables tell of the cases that are dealt with, and that storing an answer and marking a case
-- add to it. `X` stands for what may excuse an attempt that stops: nothing, or anything.
use rule_kiln.Prelude.{
  ℕ, suc, ◌≤◌, ◌*◌, Bool, true, false, ◌||◌, String, List, [], ◌∷◌, ◌++◌, ◌≡◌, refl, ap, subst, ◌⊎◌,
  inl, inr, map, mem_str, str_eq, eq_iff, if_elim, arith, Bool-cases,
}
use rule_kiln.Stages.Session.{StageMarker, MicroRule, Db, Session, commit-spend, Ends}
use rule_kiln.Stages.Markers.{
  mark_stage_complete, same_marker, stage_marker, add_marker, is_marked, AreUnique,
}
use rule_kiln.Stages.Markers.Laws.{
  mark_stage_complete-ok, add_marker-AreUnique, is_marked-add_marker, same_marker_self,
}
use rule_kiln.Stages.Extract.{
  extracting_rules_stage, add_micro_rules, bulk_insert_micro_rules, insert_if_any, case_marker,
  extracted_case_ids, get_micro_rules_for_job,
}
use rule_kiln.Stages.CaseIds.{payload_case_id_from_db_case_id}
use rule_kiln.Stages.Rows.{keep-append, mem_str-append}

-- A case whose rows or whose marker the tables hold.
unfoldable pub is_covered : String → String → Db → Bool
is_covered job c d = mem_str c (extracted_case_ids job d) || is_marked (case_marker job c) d

-- The marker of the whole stage is no case's marker.
pub stage-ne-case :
    (job c : String)
    → same_marker (stage_marker job extracting_rules_stage) (case_marker job c) ≡ false
unfolding same_marker case_marker
stage-ne-case job c = ground arith

pub map-append {ℓ κ} :
    {A : Type ℓ} {B : Type κ} (f : A → B) (xs ys : List A) → map f (xs ++ ys) ≡ map f xs ++ map f ys
map-append f [] ys = refl
map-append f (x ∷ xs) ys = ap (◌∷◌ (f x)) (map-append f xs ys)

module _ (job : String) where
  abbrev pub Grows : Db → Db → Type 0
  Grows d d' = (c : String) → is_covered job c d ≡ true → is_covered job c d' ≡ true

  abbrev pub stage_is_marked : Db → Bool
  stage_is_marked d = is_marked (stage_marker job extracting_rules_stage) d

  pub add_micro_rules-Grows : (rows : List MicroRule) (d : Db) → Grows d (add_micro_rules rows d)
  unfolding is_covered add_micro_rules extracted_case_ids get_micro_rules_for_job
  add_micro_rules-Grows rows d c h =
      rw
        (
          keep-append (λ (r : MicroRule). str_eq r.job_id job) d.micro_rules rows,
          map-append (λ (r : MicroRule). payload_case_id_from_db_case_id job r.case_id) _ _,
          mem_str-append c _ _,
        )
        (ground arith)

  pub add_marker-Grows : (k : StageMarker) (d : Db) → Grows d (add_marker k d)
  unfolding is_covered extracted_case_ids get_micro_rules_for_job
  add_marker-Grows k d c h =
      rw (is_marked-add_marker (case_marker job c) k d) (unfold add_marker in ground arith)

  pub marked-is_covered :
      (c : String) (d : Db) → is_marked (case_marker job c) d ≡ true → is_covered job c d ≡ true
  unfolding is_covered
  marked-is_covered c d h = ground arith

  -- One more case that is covered.
  pub covers :
      (c : String) (extracted : List String) (d d' : Db)
      → Grows d d'
      → ((e : String) → mem_str e extracted ≡ true → is_covered job e d ≡ true)
      → is_covered job c d' ≡ true
      → (e : String) → mem_str e (c ∷ extracted) ≡ true
      → is_covered job e d' ≡ true
  covers c extracted d d' grows old new e h = elim (Bool-cases (str_eq c e)) [
    | inl same ↦ subst (λ x. is_covered job x d' ≡ true) ((eq_iff c e).0 same) new
    | inr other ↦ grows e (old e (ground arith))
  ]

pub rounds : (n : ℕ) → ◌≡◌ {A = ℕ} (suc (2 * suc n)) (suc (suc (suc (2 * n))))
rounds n = omega arith

pub or_true : (b : Bool) → (b || true) ≡ true
or_true b = ground arith

module _ (job : String) (X : Type 0) where
  -- Why the stage is not marked.
  abbrev pub IsExcused : Db → Type 0
  IsExcused d = (stage_is_marked job d ≡ false) × X

  -- A session of the loop with `k` commits to spare.
  abbrev pub IsRunning : ℕ → List String → Session → Type 0
  IsRunning k extracted s =
      (s.current ≡ s.committed)
      × AreUnique s.current.markers
      × (stage_is_marked job s.current ≡ false)
      × ((c : String) → mem_str c extracted ≡ true → is_covered job c s.current ≡ true)
      × ((k ≤ s.commits) ⊎ X)

  pub excused :
      (k : ℕ) (extracted : List String) (s : Session)
      → IsRunning k extracted s
      → X
      → IsExcused s.committed
  excused k extracted s h x = (subst (λ d. stage_is_marked job d ≡ false) h.0 h.2, x)

  pub spare : (k n : ℕ) → (suc k ≤ n) ⊎ X → (k ≤ n) ⊎ X
  spare k n (inl h) = inl (omega arith)
  spare k n (inr x) = inr x

  pub insert-Ends :
      (k : ℕ) (extracted : List String) (rows : List MicroRule) (s : Session)
      → IsRunning (suc k) extracted s
      → Ends IsExcused
          (λ _ s'. IsRunning k extracted s' × Grows job s.current s'.current)
          (insert_if_any rows s)
  unfolding insert_if_any bulk_insert_micro_rules
  insert-Ends k extracted [] s h = ((h.0, h.1, h.2, h.3, spare k s.commits h.4), λ c x. x)
  insert-Ends k extracted (r ∷ rows) s h =
      commit-spend X IsExcused _ k _ h.4 (excused (suc k) extracted s h) (λ n enough. (
        (
          refl,
          unfold add_micro_rules in h.1,
          unfold add_micro_rules in h.2,
          λ c e. add_micro_rules-Grows job (r ∷ rows) s.current c (h.3 c e),
          enough,
        ),
        add_micro_rules-Grows job (r ∷ rows) s.current,
      ))

  -- Marking a case covers it.
  pub mark_case-Ends :
      (k : ℕ) (extracted : List String) (case_id : String) (s : Session)
      → IsRunning (suc k) extracted s
      → Ends IsExcused
          (λ _ s'. IsRunning k (case_id ∷ extracted) s' × Grows job s.current s'.current)
          (mark_stage_complete (case_marker job case_id) s)
  mark_case-Ends k extracted c s h = rw (mark_stage_complete-ok (case_marker job c) s h.1) (
      if_elim
        (Ends IsExcused (λ _ s'. IsRunning k (c ∷ extracted) s' × Grows job s.current s'.current))
        (is_marked (case_marker job c) s.current)
        (λ marked. (
          (
            h.0,
            h.1,
            h.2,
            covers job c extracted s.current s.current (λ e x. x) h.3
                (marked-is_covered job c s.current marked),
            spare k s.commits h.4,
          ),
          λ e x. x,
        ))
        (λ unmarked. commit-spend X IsExcused _ k _ h.4 (excused (suc k) extracted s h) (λ n enough.
          (
            (
              refl,
              add_marker-AreUnique (case_marker job c) s.current h.1 unmarked,
              rw
                  (
                    is_marked-add_marker (stage_marker job extracting_rules_stage)
                        (case_marker job c) s.current,
                    h.2,
                    stage-ne-case job c,
                  )
                  refl,
              covers job c extracted s.current _
                  (add_marker-Grows job (case_marker job c) s.current) h.3
                  (marked-is_covered job c _ (
                    rw
                      (
                        is_marked-add_marker (case_marker job c) (case_marker job c) s.current,
                        same_marker_self (case_marker job c),
                      )
                      (or_true _))),
              enough,
            ),
            add_marker-Grows job (case_marker job c) s.current,
          ))))
