-- ===== src/Evaluator/Evaluate/Lookup.antt =====
-- What the table of results holds for a case after a result was stored.
use rule_kiln.Prelude.{
  Bool, true, false, ◌&&◌, String, Option, none, some, List, [], ◌∷◌, ◌++◌, ◌≡◌, refl, ap, subst,
  if◌then◌else◌, str_eq, str_eq_self, eq_iff, map, any, last_with, or_else, arith, Bool-cases, inl,
  inr,
}
use rule_kiln.Numbers.{Floats}
use rule_kiln.Evaluator.Scoring.{Python, CaseResult}
use rule_kiln.Evaluator.Results.{
  RunKey, build_eval_case_upsert_payload, eval_case_record_to_schema, upsert_eval_case_result,
  get_eval_case_results, same_key, same_run, record_to_schema-upsert_payload,
}
use rule_kiln.Evaluator.Evaluate.{Row, Evaluation, result_of, completed_case_results, store}

same_run_self : (k : RunKey) → same_run k k ≡ true
unfolding same_run
same_run_self k = ground (
  arith,
  str_eq_self k.job_id,
  str_eq_self k.student_id,
  str_eq_self k.strategy,
  str_eq_self k.split,
)

same_id : (a b id : String) → str_eq b a ≡ true → str_eq b id ≡ str_eq a id
same_id a b id e = ap (λ x. str_eq x id) ((eq_iff b a).0 e)

-- A row is replaced, and a later one may have been.
replaced :
    {A : Type 0} (a e f : Bool) (s t : A) (x : Option A)
    → f ≡ e
    → (a ≡ false → e ≡ true → x ≡ none)
    → or_else (if a && e then some s else x) (if e then some s else none)
      ≡ (if e then some s else or_else x (if f then some t else none))
replaced true true f s t x h k = refl
replaced false true f s t x h k = rw (k refl refl) refl
replaced a false f s t x h k = ground arith

passed_over :
    {A : Type 0} (a e f : Bool) (s t : A) (x : Option A)
    → or_else (if a && e then some s else x) (if f then some t else none)
      ≡ (if a && e then some s else or_else x (if f then some t else none))
passed_over a e f s t x = ground arith

module _ (fl : Floats) (python : Python) where
  abbrev held : RunKey → String → List (Row fl python) → Option (CaseResult fl python)
  held run id rows = result_of fl python id (completed_case_results fl python run rows)

  -- Where no row has the key, the id is not found.
  held-absent :
      (new : Row fl python) (id : String) (rows : List (Row fl python))
      → any (same_key fl python new) rows ≡ false
      → str_eq new.case_id id ≡ true
      → held new.run id rows ≡ none
  unfolding result_of last_with completed_case_results get_eval_case_results same_key
      eval_case_record_to_schema
  held-absent new id [] a e = refl
  held-absent new id (row ∷ rows) a e = elim (Bool-cases (same_run new.run row.run)) [
    | inl here ↦ rw here (
        ground (
          arith,
          eq_iff row.case_id new.case_id,
          eq_iff row.case_id id,
          eq_iff new.case_id id,
          held-absent new id rows,
        ))
    | inr elsewhere ↦ rw elsewhere (held-absent new id rows (ground arith) e)
  ]

  held-update :
      (new : Row fl python) (id : String) (rows : List (Row fl python))
      → held new.run id (map (λ row. if same_key fl python new row then new else row) rows) ≡ (
          if any (same_key fl python new) rows && str_eq new.case_id id
          then some (eval_case_record_to_schema fl python new)
          else held new.run id rows)
  unfolding result_of last_with completed_case_results get_eval_case_results same_key
      eval_case_record_to_schema
  held-update new id [] = refl
  held-update new id (row ∷ rows) = elim (Bool-cases (same_run new.run row.run)) [
    | inl here ↦ elim (Bool-cases (str_eq row.case_id new.case_id)) [
      | inl same ↦
          rw (here, same, same_run_self new.run)
            (rw (held-update new id rows) (
              replaced (any (same_key fl python new) rows) (str_eq new.case_id id)
                (str_eq row.case_id id) (eval_case_record_to_schema fl python new)
                (eval_case_record_to_schema fl python row) (held new.run id rows)
                (same_id new.case_id row.case_id id same) (λ a e. held-absent new id rows a e)))
      | inr other ↦
          rw (here, other, here)
            (rw (held-update new id rows) (
              passed_over (any (same_key fl python new) rows) (str_eq new.case_id id)
                (str_eq row.case_id id) (eval_case_record_to_schema fl python new)
                (eval_case_record_to_schema fl python row) (held new.run id rows)))
    ]
    | inr elsewhere ↦ rw (elsewhere, elsewhere) (held-update new id rows)
  ]

  held-append :
      (new : Row fl python) (id : String) (rows : List (Row fl python))
      → held new.run id (rows ++ new ∷ []) ≡ (
          if str_eq new.case_id id
          then some (eval_case_record_to_schema fl python new)
          else held new.run id rows)
  unfolding result_of last_with completed_case_results get_eval_case_results
      eval_case_record_to_schema
  held-append new id [] = ground (arith, same_run_self new.run)
  held-append new id (row ∷ rows) = ground (arith, same_run_self new.run, held-append new id rows)

  held-upsert :
      (new : Row fl python) (id : String) (rows : List (Row fl python))
      → held new.run id (upsert_eval_case_result fl python new rows) ≡ (
          if str_eq new.case_id id
          then some (eval_case_record_to_schema fl python new)
          else held new.run id rows)
  unfolding upsert_eval_case_result
  held-upsert new id rows = elim (Bool-cases (any (same_key fl python new) rows)) [
    | inl old ↦ rw old (rw (held-update new id rows, old) refl)
    | inr fresh ↦ rw fresh (held-append new id rows)
  ]

  -- A stored result is found under its id, and no other id is touched.
  pub held-store :
      (e : Evaluation fl python) (r : CaseResult fl python) (id : String)
      (rows : List (Row fl python))
      → result_of fl python id (completed_case_results fl python e.run (store fl python e r rows))
        ≡ (if str_eq r.case_id id
            then some r
            else result_of fl python id (completed_case_results fl python e.run rows))
  unfolding store build_eval_case_upsert_payload
  held-store e r id rows =
      subst
        (λ x.
          held e.run id (
            upsert_eval_case_result fl python
              (build_eval_case_upsert_payload fl python e.dumps e.run (e.columns r.case_id) r) rows)
          ≡ (if str_eq r.case_id id then some x else held e.run id rows))
        (record_to_schema-upsert_payload fl python e.dumps e.run (e.columns r.case_id) r)
        (held-upsert
          (build_eval_case_upsert_payload fl python e.dumps e.run (e.columns r.case_id) r) id rows)
