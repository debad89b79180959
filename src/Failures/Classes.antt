-- ===== src/Failures/Classes.antt =====
-- Every case of either evaluation is told apart by what the two evaluations say of it.
use rule_kiln.Prelude.{
  ℕ, Bool, true, false, not, ◌&&◌, String, Option, none, some, List, [], ◌∷◌, ◌++◌, append-nil,
  append_assoc, ◌≡◌, refl, sym, ap, ◌∙◌, if◌then◌else◌, map, keep, last_with, last_with-Mem, times,
  times-keep, arith, Bool-cases, inl, inr, ◌>>=◌,
}
use rule_kiln.Numbers.{Floats}
use rule_kiln.Rules.{Rule}
use rule_kiln.Evaluation.Cases.{CaseEvalResult}
use rule_kiln.Failures.AllIds.{times-all_ids, told_is_in}
use rule_kiln.Failures.Analysis.{
  CaseEntry, FailureAnalysisResult, empty_result, add_class, class_of, class_alone, analyze_case,
  all_ids, analyze_ids, analyze_failures,
}
use rule_kiln.Failures.Attribution.{
  FailureClass, fixed, broken, unchanged_wrong, unchanged_correct, CaseEvaluationFailure,
  AnalyzedCase, RuleIndex, build_outcome_to_rule_ids,
}

module _ (fl : Floats) (key_index : String → Option ℕ) where
  open fl use {F}

  -- What the results of a case, if it has one of each, tell of it.
  abbrev pub is_told : FailureClass → Option (CaseEvalResult F) → Option (CaseEvalResult F) → Bool
  is_told k none none = false
  is_told fixed none (some d) = false
  is_told broken none (some d) = false
  is_told unchanged_correct none (some d) = d.passed
  is_told unchanged_wrong none (some d) = not d.passed
  is_told fixed (some b) none = false
  is_told broken (some b) none = false
  is_told unchanged_correct (some b) none = false
  is_told unchanged_wrong (some b) none = true
  is_told fixed (some b) (some d) = not b.passed && d.passed
  is_told broken (some b) (some d) = b.passed && not d.passed
  is_told unchanged_correct (some b) (some d) = b.passed && d.passed
  is_told unchanged_wrong (some b) (some d) = not b.passed && not d.passed

  abbrev pub list_of :
      FailureClass → FailureAnalysisResult fl key_index → List (CaseEntry fl key_index)
  list_of fixed r = r.fixed
  list_of broken r = r.broken
  list_of unchanged_correct r = r.unchanged_passing
  list_of unchanged_wrong r = r.unchanged_failing

  abbrev pub names : FailureClass → FailureAnalysisResult fl key_index → List String
  names k r = map (λ x. x.case_id) (list_of k r)

  abbrev same_class : FailureClass → FailureClass → Bool
  same_class fixed fixed = true
  same_class broken broken = true
  same_class unchanged_correct unchanged_correct = true
  same_class unchanged_wrong unchanged_wrong = true
  same_class _ _ = false

  names-append :
      (xs : List (CaseEntry fl key_index)) (x : CaseEntry fl key_index)
      → map (λ y. y.case_id) (xs ++ x ∷ []) ≡ map (λ y. y.case_id) xs ++ x.case_id ∷ []
  names-append [] x = refl
  names-append (y ∷ xs) x = ap (◌∷◌ y.case_id) (names-append xs x)

  names-add_class :
      (k class : FailureClass) (entry : CaseEntry fl key_index) (new : List CaseEvaluationFailure)
      (r : FailureAnalysisResult fl key_index)
      → names k (add_class fl key_index class entry new r)
        ≡ names k r ++ (if same_class k class then entry.case_id ∷ [] else [])
  unfolding add_class
  names-add_class fixed fixed entry new r = names-append r.fixed entry
  names-add_class broken broken entry new r = names-append r.broken entry
  names-add_class unchanged_correct unchanged_correct entry new r =
      names-append r.unchanged_passing entry
  names-add_class unchanged_wrong unchanged_wrong entry new r =
      names-append r.unchanged_failing entry
  names-add_class fixed _ entry new r = sym (append-nil _)
  names-add_class broken _ entry new r = sym (append-nil _)
  names-add_class unchanged_correct _ entry new r = sym (append-nil _)
  names-add_class unchanged_wrong _ entry new r = sym (append-nil _)

  told_both :
      (k : FailureClass) (b d : CaseEvalResult F)
      → same_class k (class_of fl key_index b.passed d.passed) ≡ is_told k (some b) (some d)
  told_both fixed b d = ground arith
  told_both broken b d = ground arith
  told_both unchanged_correct b d = ground arith
  told_both unchanged_wrong b d = ground arith

  told_alone :
      (k : FailureClass) (d : CaseEvalResult F)
      → same_class k (class_alone fl key_index d.passed) ≡ is_told k none (some d)
  told_alone fixed d = ground arith
  told_alone broken d = ground arith
  told_alone unchanged_correct d = ground arith
  told_alone unchanged_wrong d = ground arith

  told_gone :
      (k : FailureClass) (b : CaseEvalResult F)
      → same_class k unchanged_wrong ≡ is_told k (some b) none
  told_gone fixed b = refl
  told_gone broken b = refl
  told_gone unchanged_correct b = refl
  told_gone unchanged_wrong b = refl

  module _ (index : Option RuleIndex) (cases : List AnalyzedCase) where
    names-analyze_case :
        (k : FailureClass) (id : String) (b d : Option (CaseEvalResult F))
        (r : FailureAnalysisResult fl key_index)
        → ((x : CaseEvalResult F) → b ≡ some x → x.case_id ≡ id)
        → ((x : CaseEvalResult F) → d ≡ some x → x.case_id ≡ id)
        → names k (analyze_case fl key_index index cases b d r)
          ≡ names k r ++ (if is_told k b d then id ∷ [] else [])
    unfolding analyze_case
    names-analyze_case k id none none r hb hd = sym (append-nil _)
    names-analyze_case k id none (some d) r hb hd =
        names-add_class k (class_alone fl key_index d.passed) _ _ r
        ∙ rw (told_alone k d, hd d refl) refl
    names-analyze_case k id (some b) none r hb hd =
        names-add_class k unchanged_wrong _ _ r ∙ rw (told_gone k b, hb b refl) refl
    names-analyze_case k id (some b) (some d) r hb hd =
        names-add_class k (class_of fl key_index b.passed d.passed) _ _ r
        ∙ rw (told_both k b d, hd d refl) refl

    -- The loop over the ids.
    names-analyze_ids :
        (k : FailureClass) (baseline distilled : List (CaseEvalResult F)) (ids : List String)
        (r : FailureAnalysisResult fl key_index)
        → names k (analyze_ids fl key_index index cases baseline distilled ids r)
          ≡ names k r
            ++ keep
                (λ id.
                  is_told k
                    (last_with (λ x. x.case_id) id baseline)
                    (last_with (λ x. x.case_id) id distilled))
                ids
    unfolding analyze_ids
    names-analyze_ids k baseline distilled [] r = sym (append-nil _)
    names-analyze_ids k baseline distilled (id ∷ ids) r =
        let b = last_with (λ (x : CaseEvalResult F). x.case_id) id baseline in
        let d = last_with (λ (x : CaseEvalResult F). x.case_id) id distilled in
        names-analyze_ids k baseline distilled ids (analyze_case fl key_index index cases b d r)
        ∙ rw
            (names-analyze_case k id b d r
              (λ x. last_with-Mem (λ (x : CaseEvalResult F). x.case_id) id baseline x)
              (λ x. last_with-Mem (λ (x : CaseEvalResult F). x.case_id) id distilled x))
            (elim (Bool-cases (is_told k b d)) [
              | inl told ↦ rw told (append_assoc (names k r) (id ∷ []) _)
              | inr other ↦ rw (other, append-nil (names k r)) refl
            ])

  names-empty_result : (k : FailureClass) → names k (empty_result fl key_index) ≡ []
  unfolding empty_result
  names-empty_result fixed = refl
  names-empty_result broken = refl
  names-empty_result unchanged_correct = refl
  names-empty_result unchanged_wrong = refl

  -- The lists are filters of the set of all ids.
  names-all_ids :
      (k : FailureClass) (baseline distilled : List (CaseEvalResult F))
      (rules : Option (List (Rule F))) (cases : List AnalyzedCase)
      → names k (analyze_failures fl key_index (some baseline) distilled rules cases)
        ≡ keep
            (λ id.
              is_told k
                (last_with (λ x. x.case_id) id baseline)
                (last_with (λ x. x.case_id) id distilled))
            (all_ids fl key_index baseline distilled)
  unfolding analyze_failures empty_result
  names-all_ids k baseline distilled rules cases =
      names-analyze_ids (rules >>= λ rs. some (build_outcome_to_rule_ids rs)) cases k baseline
        distilled (all_ids fl key_index baseline distilled) (empty_result fl key_index)
      ∙ ap
          (λ xs.
            xs
            ++ keep
                (λ id.
                  is_told k (last_with (λ x. x.case_id) id baseline)
                    (last_with (λ x. x.case_id) id distilled))
                (all_ids fl key_index baseline distilled))
          (names-empty_result k)

  told_none : (k : FailureClass) → is_told k none none ≡ false
  told_none fixed = refl
  told_none broken = refl
  told_none unchanged_correct = refl
  told_none unchanged_wrong = refl

  -- Against a baseline, each list of the analysis names a case once if the last results that the two
  -- evaluations have of it tell it to be of the list's class, and not at all otherwise: fixed, broken,
  -- passing as before or with a result of the prompt alone, and failing as before, with a result of
  -- the prompt alone, or with one of the baseline alone.
  pub analyze_failures-names :
      (k : FailureClass) (id : String) (baseline distilled : List (CaseEvalResult F))
      (rules : Option (List (Rule F))) (cases : List AnalyzedCase)
      → times id (names k (analyze_failures fl key_index (some baseline) distilled rules cases)) ≡ (
          if is_told k
            (last_with (λ x. x.case_id) id baseline)
            (last_with (λ x. x.case_id) id distilled)
          then 1
          else 0)
  analyze_failures-names k id baseline distilled rules cases =
      rw
        (
          names-all_ids k baseline distilled rules cases,
          times-keep id
              (λ i.
                is_told k (last_with (λ (x : CaseEvalResult F). x.case_id) i baseline)
                  (last_with (λ (x : CaseEvalResult F). x.case_id) i distilled))
              (all_ids fl key_index baseline distilled),
          times-all_ids fl key_index id baseline distilled,
        )
        (ground (arith, told_is_in fl key_index id baseline distilled (is_told k) (told_none k)))
