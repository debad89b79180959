-- ===== src/Evaluation/Golden.antt =====
-- What the golden gate sees under the split policy.
use rule_kiln.Prelude.{
  ◌≡◌, refl, subst, Bool, true, false, not, ◌&&◌, List, [], ◌∷◌, map, String, str_eq, keep,
  count_if, All, All-imp, mem_str, arith, ℤ, eq_iff, Bool-cases, inl, inr,
}
use rule_kiln.Numbers.{Floats}
use rule_kiln.Evaluation.Cases.{Split, same_split, RuleKilnCase, CaseEvalResult, EvalResult}
use rule_kiln.Evaluation.Splits.{
  resolve_split_policy, resolve_split_policy-Routes, cases_of, same_split-eq,
}
use rule_kiln.Evaluation.Gates.{golden_ids, golden_failures_of}

-- The cases have ids of their own.
abbrev pub HaveOwnIds : List RuleKilnCase → Type 0
HaveOwnIds [] = Unit
HaveOwnIds (c ∷ cases) = (mem_str c.id (map (λ d. d.id) cases) ≡ false) × HaveOwnIds cases

mem-keep :
    (p : RuleKilnCase → Bool) (x : String) (cases : List RuleKilnCase)
    → mem_str x (map (λ c. c.id) cases) ≡ false
    → mem_str x (map (λ c. c.id) (keep p cases)) ≡ false
mem-keep p x [] h = refl
mem-keep p x (c ∷ cases) h = ground (arith, mem-keep p x cases)

-- No id is in two splits.
mem-other_split :
    (s t : Split) (x : String) (cases : List RuleKilnCase)
    → HaveOwnIds cases
    → same_split s t ≡ false
    → mem_str x (map (λ c. c.id) (cases_of s cases)) ≡ true
    → mem_str x (map (λ c. c.id) (cases_of t cases)) ≡ false
mem-other_split s t x [] own apart h = refl
mem-other_split s t x (c ∷ cases) own apart h =
    let one_split : same_split c.split s ≡ true → same_split c.split t ≡ false =
      λ a. ground (arith, same_split-eq c.split s a) in
    let rest = mem-other_split s t x cases own.1 apart in
    let head : c.id ≡ x → mem_str x (map (λ d. d.id) (cases_of s cases)) ≡ false = λ e.
      mem-keep (λ d. same_split d.split s) x cases
        (subst (λ k. mem_str k (map (λ d. d.id) cases) ≡ false) e own.0) in
    let head' : c.id ≡ x → mem_str x (map (λ d. d.id) (cases_of t cases)) ≡ false = λ e.
      mem-keep (λ d. same_split d.split t) x cases
        (subst (λ k. mem_str k (map (λ d. d.id) cases) ≡ false) e own.0) in
    elim (Bool-cases (str_eq c.id x)) [
      | inl same ↦
          ground (arith, one_split, head ((eq_iff c.id x).0 same), head' ((eq_iff c.id x).0 same))
      | inr differ ↦ ground (arith, one_split, rest)
    ]

module _ (floats : Floats) (int_of : floats.F → ℤ) where
  open floats use {F, lt, of_ℕ, sub, div}

  count_none :
      (ids : List String) (rs : List (CaseEvalResult F))
      → All (λ r. mem_str r.case_id ids ≡ false) rs
      → count_if (λ r. mem_str r.case_id ids && not r.passed) rs ≡ 0
  count_none ids [] h = refl
  count_none ids (r ∷ rs) h = rw (h.0, count_none ids rs h.1)

  -- If the cases have ids of their own and the evaluation split is not golden, then an evaluation of
  -- its cases counts no golden failure, whatever the golden cases would have shown.
  pub golden_failures_of-policy :
      (cases : List RuleKilnCase) (e : EvalResult F)
      → HaveOwnIds cases
      → same_split (resolve_split_policy cases).evaluation_split Split.golden ≡ false
      → All
          (λ r.
            mem_str r.case_id (map (λ c. c.id) (resolve_split_policy cases).evaluation_cases)
            ≡ true)
          e.case_results
      → golden_failures_of floats int_of cases e ≡ 0
  unfolding golden_failures_of golden_ids
  golden_failures_of-policy cases e own apart evaluated =
      let d = resolve_split_policy cases in
      count_none (map (λ c. c.id) (cases_of Split.golden cases)) e.case_results (
        All-imp e.case_results
          (λ r seen. mem-other_split d.evaluation_split Split.golden r.case_id cases own apart (
            subst (λ cs. mem_str r.case_id (map (λ c. c.id) cs) ≡ true)
              (resolve_split_policy-Routes cases).0 seen))
          evaluated)
