-- ===== src/Evaluator/Evaluate/Resume.antt =====
-- An evaluation that is cut off and taken up again comes to the results of one that is left to run.
use mathlib.Core.Option
use rule_kiln.Prelude.{
  ℕ, zero, suc, ◌≤◌, Bool, true, false, String, Option, none, some, is_some, List, [], ◌∷◌, ◌≡◌,
  ◌≢◌, ◌⊎◌, refl, sym, ap, subst, ◌∙◌, if◌then◌else◌, str_eq, str_eq_self, eq_iff, last_with,
  or_else, length, All, Option-cases, arith, inl, inr, Bool-cases,
}
use rule_kiln.Numbers.{Floats}
use rule_kiln.Evaluator.Scoring.{Python, EvalCase, CaseResult, score_case-id}
use rule_kiln.Evaluator.Evaluate.{
  Row, Loop, Evaluation, result_of, completed_case_results, score, store, persist, evaluate_cases,
  case_results, prepend, evaluate, evaluate_all,
}
use rule_kiln.Evaluator.Evaluate.Lookup.{held-store}

or_else-eq_none :
    {A : Type 0} (o : Option A) (b : Bool) (r : A)
    → or_else o (if b then some r else none) ≡ none
    → (o ≡ none) × (b ≡ false)
or_else-eq_none none b r h = ground arith
or_else-eq_none (some a) b r h = cc

or_else-eq_some :
    {A : Type 0} (o : Option A) (b : Bool) (r r' : A)
    → or_else o (if b then some r else none) ≡ some r'
    → (o ≡ some r') ⊎ ((b ≡ true) × (r ≡ r'))
or_else-eq_some none true r r' h = inr (refl, (cc))
or_else-eq_some none false r r' h = cc
or_else-eq_some (some a) b r r' h = inl h

not_some : {A : Type 0} (o : Option A) → is_some o ≡ false → o ≡ none
not_some none h = refl
not_some (some a) h = cc

absent_present : {A : Type 0} (o : Option A) → o ≡ none → is_some o ≡ true → ⊥
absent_present none a p = cc
absent_present (some x) a p = cc

module _ (fl : Floats) (python : Python) (e : Evaluation fl python) where
  abbrev Case : Type 0
  Case = EvalCase fl python

  abbrev CaseResults : Type 0
  CaseResults = List (CaseResult fl python)

  -- The result of the first of the cases with an id.
  unfoldable pub first_result : List Case → String → Option (CaseResult fl python)
  first_result [] id = none
  first_result (case ∷ cases) id =
      if str_eq case.id id then score fl python e case else first_result cases id

  score-id :
      (case : Case) (r : CaseResult fl python)
      → score fl python e case ≡ some r
      → r.case_id ≡ case.id
  unfolding score
  score-id case r h = score_case-id fl python case (e.student case).0 (e.student case).1 r h

  result_of-cons :
      (r : CaseResult fl python) (results : CaseResults) (id : String)
      → result_of fl python id (r ∷ results)
        ≡ or_else (result_of fl python id results) (if str_eq r.case_id id then some r else none)
  unfolding result_of last_with
  result_of-cons r results id = refl

  result_of-nil : (id : String) → result_of fl python id [] ≡ none
  unfolding result_of last_with
  result_of-nil id = refl

  none-ne-some : (r : CaseResult fl python) → none ≢ some r
  none-ne-some r h = cc

  first_result-cons :
      (case : Case) (rest : List Case) (id : String)
      → first_result (case ∷ rest) id
        ≡ (if str_eq case.id id then score fl python e case else first_result rest id)
  unfolding first_result
  first_result-cons case rest id = refl

  module _ (cases : List Case) where
    -- The results so far are those of the cases.
    abbrev AreRight : CaseResults → Type 0
    AreRight results =
        (id : String) (r : CaseResult fl python)
        → result_of fl python id results ≡ some r
        → first_result cases id ≡ some r

    -- What has no result so far is still to come.
    abbrev IsLeft : CaseResults → List Case → Type 0
    IsLeft results rest =
        (id : String)
        → result_of fl python id results ≡ none
        → first_result cases id ≡ first_result rest id

    skip-IsLeft :
        (results : CaseResults) (case : Case) (rest : List Case)
        → is_some (result_of fl python case.id results) ≡ true
        → IsLeft results (case ∷ rest)
        → IsLeft results rest
    skip-IsLeft results case rest present left id absent = elim (Bool-cases (str_eq case.id id)) [
      | inl same ↦ absurd (
          absent_present (result_of fl python case.id results)
            (subst (λ x. result_of fl python x results ≡ none) (sym ((eq_iff case.id id).0 same))
              absent)
            present)
      | inr other ↦ left id absent ∙ rw (first_result-cons case rest id, other) refl
    ]

    new-IsLeft :
        (results : CaseResults) (case : Case) (rest : List Case) (r : CaseResult fl python)
        → score fl python e case ≡ some r
        → IsLeft results (case ∷ rest)
        → IsLeft (r ∷ results) rest
    new-IsLeft results case rest r scored left id absent =
        let (none_before, other) =
          or_else-eq_none (result_of fl python id results) (str_eq r.case_id id) r
            (rw (result_of-cons r results id) at absent) in
        let apart : str_eq case.id id ≡ false =
          subst (λ x. str_eq x id ≡ false) (score-id case r scored) other in
        left id none_before ∙ rw (first_result-cons case rest id, apart) refl

    new-AreRight :
        (results : CaseResults) (case : Case) (rest : List Case) (r : CaseResult fl python)
        → score fl python e case ≡ some r
        → result_of fl python case.id results ≡ none
        → IsLeft results (case ∷ rest)
        → AreRight results
        → AreRight (r ∷ results)
    new-AreRight results case rest r scored absent left right id r' h =
        elim (or_else-eq_some (result_of fl python id results) (str_eq r.case_id id) r r'
          (rw (result_of-cons r results id) at h)) [
            | inl before ↦ right id r' before
            | inr (same, eq) ↦
                subst (λ x. first_result cases x ≡ some r')
                  (sym (score-id case r scored) ∙ (eq_iff r.case_id id).0 same)
                  (left case.id absent
                    ∙ rw (first_result-cons case rest case.id, str_eq_self case.id)
                        (scored ∙ ap some eq))
          ]

    -- The rows of the evaluation are right.
    abbrev TableIsRight : List (Row fl python) → Type 0
    TableIsRight rows = AreRight (completed_case_results fl python e.run rows)

    store-TableIsRight :
        (r : CaseResult fl python) (rows : List (Row fl python))
        → first_result cases r.case_id ≡ some r
        → TableIsRight rows
        → TableIsRight (store fl python e r rows)
    store-TableIsRight r rows h right id r' found = elim (Bool-cases (str_eq r.case_id id)) [
      | inl same ↦
          subst (λ x. first_result cases x ≡ some r') ((eq_iff r.case_id id).0 same)
            (h ∙ (rw (held-store fl python e r id rows, same) at found))
      | inr other ↦ right id r' (rw (held-store fl python e r id rows, other) at found)
    ]

    first_is :
        (results : CaseResults) (case : Case) (rest : List Case) (r : CaseResult fl python)
        → score fl python e case ≡ some r
        → result_of fl python case.id results ≡ none
        → IsLeft results (case ∷ rest)
        → first_result cases r.case_id ≡ some r
    first_is results case rest r scored absent left =
        subst (λ x. first_result cases x ≡ some r) (sym (score-id case r scored))
          (left case.id absent
            ∙ rw (first_result-cons case rest case.id, str_eq_self case.id) scored)

    persist-TableIsRight :
        (results : CaseResults) (rows : List (Row fl python)) (o : Option (CaseResult fl python))
        (n : ℕ) (next : ℕ → CaseResults → List (Row fl python) → Loop fl python)
        → TableIsRight rows
        → ((m : ℕ) (r : CaseResult fl python)
            → o ≡ some r
            → TableIsRight (next m (r ∷ results) (store fl python e r rows)).0)
        → TableIsRight (persist fl python e o n results rows next).0
    unfolding persist
    persist-TableIsRight results rows none n next table go_on = table
    persist-TableIsRight results rows (some r) zero next table go_on = table
    persist-TableIsRight results rows (some r) (suc n) next table go_on = go_on n r refl

    -- Wherever the loop is cut off, the rows that it leaves are right.
    loop-TableIsRight :
        (rest : List Case) (n : ℕ) (results : CaseResults) (rows : List (Row fl python))
        → AreRight results
        → IsLeft results rest
        → TableIsRight rows
        → TableIsRight (evaluate_cases fl python e rest n results rows).0
    unfolding evaluate_cases
    loop-TableIsRight [] n results rows right left table = table
    loop-TableIsRight (case ∷ rest) n results rows right left table =
        elim (Bool-cases (is_some (result_of fl python case.id results))) [
          | inl present ↦ rw present (
              loop-TableIsRight rest n results rows right
                (skip-IsLeft results case rest present left) table)
          | inr absent ↦ rw absent (
              persist-TableIsRight results rows (score fl python e case) n
                (evaluate_cases fl python e rest) table
                (λ m r scored.
                  let free = not_some (result_of fl python case.id results) absent in
                  loop-TableIsRight rest m (r ∷ results) (store fl python e r rows)
                    (new-AreRight results case rest r scored free left right)
                    (new-IsLeft results case rest r scored left)
                    (store-TableIsRight r rows (first_is results case rest r scored free left)
                      table)))
        ]

    -- The loop's end, in this loop or a later round.
    abbrev Comes : Loop fl python → Type 0
    Comes l =
        (results' : CaseResults) × (l.1 ≡ some results')
        × ((id : String) → result_of fl python id results' ≡ first_result cases id)

    persist_ends :
        (results : CaseResults) (rows : List (Row fl python)) (o : Option (CaseResult fl python))
        (n k : ℕ) (next : ℕ → CaseResults → List (Row fl python) → Loop fl python)
        → is_some o ≡ true
        → suc k ≤ n
        → ((m : ℕ) (r : CaseResult fl python)
            → o ≡ some r
            → k ≤ m
            → Comes (next m (r ∷ results) (store fl python e r rows)))
        → Comes (persist fl python e o n results rows next)
    unfolding persist
    persist_ends results rows none n k next h lives go_on =
        absurd (absent_present {A = CaseResult fl python} none refl h)
    persist_ends results rows (some r) zero k next h lives go_on = absurd (omega arith)
    persist_ends results rows (some r) (suc n) k next h lives go_on = go_on n r refl (omega arith)

    first_result-nil : (id : String) → first_result [] id ≡ none
    unfolding first_result
    first_result-nil id = refl

    -- With a commit for each case and no assertion that raises, the loop ends with every result.
    loop_ends :
        (rest : List Case) (n : ℕ) (results : CaseResults) (rows : List (Row fl python))
        → All (λ case. is_some (score fl python e case) ≡ true) rest
        → length rest ≤ n
        → AreRight results
        → IsLeft results rest
        → (results' : CaseResults) × ((evaluate_cases fl python e rest n results rows).1
            ≡ some results')
          × ((id : String) → result_of fl python id results' ≡ first_result cases id)
    unfolding evaluate_cases
    loop_ends [] n results rows scores enough right left = (
      results,
      refl,
      λ id. elim (Option-cases (result_of fl python id results)) [
        | inl none_left ↦ none_left ∙ sym (left id none_left ∙ first_result-nil id)
        | inr (r, h) ↦ h ∙ sym (right id r h)
      ],
    )
    loop_ends (case ∷ rest) n results rows scores enough right left =
        elim (Bool-cases (is_some (result_of fl python case.id results))) [
          | inl present ↦ rw present (
              loop_ends rest n results rows scores.1 (omega arith) right
                (skip-IsLeft results case rest present left))
          | inr absent ↦ rw absent (
              persist_ends results rows (score fl python e case) n (length rest)
                (evaluate_cases fl python e rest) scores.0 enough
                (λ m r scored lives.
                  let free = not_some (result_of fl python case.id results) absent in
                  loop_ends rest m (r ∷ results) (store fl python e r rows) scores.1 lives
                    (new-AreRight results case rest r scored free left right)
                    (new-IsLeft results case rest r scored left)))
        ]

    evaluate_all-TableIsRight :
        (ns : List ℕ) (rows : List (Row fl python))
        → TableIsRight rows
        → TableIsRight (evaluate_all fl python e cases ns rows)
    unfolding evaluate_all evaluate
    evaluate_all-TableIsRight [] rows right = right
    evaluate_all-TableIsRight (n ∷ ns) rows right =
        evaluate_all-TableIsRight ns (evaluate fl python e cases n rows).0 (
          loop-TableIsRight cases n (completed_case_results fl python e.run rows) rows right
            (λ id h. refl) right)

    -- The returned results are those found by id.
    case_results_by_id :
        (rest : List Case) (results results' : CaseResults)
        → ((id : String) → result_of fl python id results ≡ result_of fl python id results')
        → case_results fl python rest results ≡ case_results fl python rest results'
    unfolding case_results
    case_results_by_id [] results results' same = refl
    case_results_by_id (case ∷ rest) results results' same =
        λ i. prepend fl python (same case.id i) (case_results_by_id rest results results' same i)

    evaluate_ends :
        (n : ℕ) (rows : List (Row fl python))
        → All (λ case. is_some (score fl python e case) ≡ true) cases
        → length cases ≤ n
        → TableIsRight rows
        → (results : CaseResults) × ((evaluate fl python e cases n rows).1
            ≡ some (case_results fl python cases results))
          × ((id : String) → result_of fl python id results ≡ first_result cases id)
    unfolding evaluate
    evaluate_ends n rows scores enough right =
        let (results, ends, all) =
          loop_ends cases n (completed_case_results fl python e.run rows) rows scores enough right
            (λ id h. refl) in
        (results, ap (Option.map (case_results fl python cases)) ends, all)

    -- However often an evaluation was cut off, at any commit: a process that then lives to make a
    -- commit for each case returns the results that a process that was never cut off returns from the
    -- same table, and it does return some. The table holds no row of the evaluation at the start, the
    -- student answers a case always alike, and no assertion raises.
    pub resumed_evaluation :
        (cut_off : List ℕ) (n m : ℕ) (rows : List (Row fl python))
        → All (λ case. is_some (score fl python e case) ≡ true) cases
        → length cases ≤ n
        → length cases ≤ m
        → completed_case_results fl python e.run rows ≡ []
        → ((evaluate fl python e cases n (evaluate_all fl python e cases cut_off rows)).1 ≢ none)
          × ((evaluate fl python e cases n (evaluate_all fl python e cases cut_off rows)).1
              ≡ (evaluate fl python e cases m rows).1)
    resumed_evaluation cut_off n m rows scores enough enough' fresh =
        let right : TableIsRight rows = λ id r found. absurd (
          none-ne-some r
            (sym (result_of-nil id) ∙ ap (result_of fl python id) (sym fresh) ∙ found)) in
        let resumed = evaluate_all fl python e cases cut_off rows in
        let (results, ends, all) =
          evaluate_ends n resumed scores enough (evaluate_all-TableIsRight cut_off rows right) in
        let (results', ends', all') = evaluate_ends m rows scores enough' right in
        (
          rw ends (λ x. cc),
          ends
              ∙ ap some (case_results_by_id cases results results' (λ id. all id ∙ sym (all' id)))
              ∙ sym ends',
        )
