-- ===== src/Evaluation/Regressions.antt =====
-- The cases that passed in the baseline and no longer do.
use rule_kiln.Prelude.{
  ◌≡◌, ◌≤◌, refl, ap, ◌∙◌, Bool, true, false, not, Option, none, some, IsSetOf, times-keep, ◌&&◌,
  List, [], ◌∷◌, map, String, str_eq, keep, length, any, mem_str, arith, eq_iff, ℤ,
}
use rule_kiln.Numbers.{Floats}
use rule_kiln.Evaluation.Cases.{CaseEvalResult, EvalResult}
use rule_kiln.Evaluation.Gates.{set_of, pass_ids, regressions_of}

pub mem-set_of : (x : String) (xs : List String) → mem_str x (set_of xs) ≡ mem_str x xs
unfolding set_of
mem-set_of x [] = refl
mem-set_of x (y ∷ ys) =
    let same : str_eq y x ≡ true → mem_str y ys ≡ mem_str x ys =
      λ e. ap (λ k. mem_str k ys) ((eq_iff y x).0 e) in
    ground (arith, mem-set_of x ys, mem-set_of y ys, same)

IsSetOf-set_of : (xs : List String) → IsSetOf (λ x. mem_str x xs) (set_of xs)
unfolding set_of
IsSetOf-set_of [] k = refl
IsSetOf-set_of (y ∷ ys) k =
    let same : str_eq y k ≡ true → mem_str y ys ≡ mem_str k ys =
      λ e. ap (λ x. mem_str x ys) ((eq_iff y k).0 e) in
    ground (arith, IsSetOf-set_of ys k, mem-set_of y ys, same)

mem-keep_str :
    (p : String → Bool) (x : String) (xs : List String)
    → mem_str x (keep p xs) ≡ (mem_str x xs && p x)
mem-keep_str p x [] = refl
mem-keep_str p x (y ∷ ys) =
    let same : str_eq y x ≡ true → p y ≡ p x = λ e. ap p ((eq_iff y x).0 e) in
    ground (arith, mem-keep_str p x ys, same)

length-keep-le : (p : String → Bool) (xs : List String) → length (keep p xs) ≤ length xs
length-keep-le p [] = omega arith
length-keep-le p (x ∷ xs) = ground (arith, length-keep-le p xs)

module _ (floats : Floats) (int_of : floats.F → ℤ) where
  open floats use {F}

  -- Some result of the case passed.
  abbrev pub passes : String → EvalResult F → Bool
  passes x e = any (λ r. r.passed && str_eq r.case_id x) e.case_results

  mem-passed :
      (x : String) (rs : List (CaseEvalResult F))
      → mem_str x (map (λ r. r.case_id) (keep (λ r. r.passed) rs))
        ≡ any (λ r. r.passed && str_eq r.case_id x) rs
  mem-passed x [] = refl
  mem-passed x (r ∷ rs) = ground (arith, mem-passed x rs)

  mem-pass_ids : (x : String) (e : EvalResult F) → mem_str x (pass_ids floats int_of e) ≡ passes x e
  unfolding pass_ids
  mem-pass_ids x e = mem-set_of x _ ∙ mem-passed x e.case_results

  -- The regressions are the ids that passed in the baseline and do not pass now, and they are no
  -- more than the ids that passed, so that their rate is at most one.
  pub regressions_of_lem :
      (base e : EvalResult F)
      → ((x : String)
          → mem_str x (regressions_of floats int_of base e) ≡ (passes x base && not (passes x e)))
        × (length (regressions_of floats int_of base e) ≤ length (pass_ids floats int_of base))
  unfolding regressions_of
  regressions_of_lem base e = (
    λ x.
        mem-keep_str (λ y. not (mem_str y (pass_ids floats int_of e))) x
          (pass_ids floats int_of base)
        ∙ rw (mem-pass_ids x base, mem-pass_ids x e) refl,
    length-keep-le (λ y. not (mem_str y (pass_ids floats int_of e))) (pass_ids floats int_of base),
  )

  -- Some result of the case passed in an evaluation that may not be there.
  abbrev pub passed_in : Option (EvalResult F) → String → Bool
  passed_in none x = false
  passed_in (some e) x = passes x e

  pub IsSetOf-pass_ids : (e : EvalResult F) → IsSetOf (λ x. passes x e) (pass_ids floats int_of e)
  unfolding pass_ids
  IsSetOf-pass_ids e k = IsSetOf-set_of _ k ∙ rw (mem-passed k e.case_results) refl

  pub IsSetOf-regressions_of :
      (base e : EvalResult F)
      → IsSetOf (λ x. passes x base && not (passes x e)) (regressions_of floats int_of base e)
  unfolding regressions_of
  IsSetOf-regressions_of base e k =
      times-keep k (λ y. not (mem_str y (pass_ids floats int_of e))) (pass_ids floats int_of base)
      ∙ rw (IsSetOf-pass_ids base k, mem-pass_ids k e) (ground arith)
