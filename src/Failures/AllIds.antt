-- ===== src/Failures/AllIds.antt =====
-- The set of all ids of `analyze_failures`: an id is in it once if either evaluation has a result of
-- the case, and is not in it otherwise.
use rule_kiln.Prelude.{
  ℕ, ◌≡◌, refl, ap, ◌∙◌, Bool, true, false, ◌||◌, String, Option, none, List, [], ◌∷◌, ◌++◌,
  if◌then◌else◌, map, times, times-append, times-absent, mem_str, str_eq, eq_iff, last_with, arith,
  Bool-cases, inl, inr,
}
use rule_kiln.Numbers.{Floats}
use rule_kiln.Evaluation.Cases.{CaseEvalResult}
use rule_kiln.Failures.Analysis.{all_ids}
use rule_kiln.Failures.Attribution.{append_new, append_all_new}

mem_str-append :
    (k : String) (xs ys : List String) → mem_str k (xs ++ ys) ≡ (mem_str k xs || mem_str k ys)
mem_str-append k [] ys = refl
mem_str-append k (x ∷ xs) ys = ground (arith, mem_str-append k xs ys)

-- A member stays as often as it was, and anything else is added once.
times-append_all_new :
    (k : String) (ys xs : List String)
    → times k (append_all_new ys xs)
      ≡ (if mem_str k xs then times k xs else if mem_str k ys then 1 else 0)
unfolding append_all_new append_new
times-append_all_new k [] xs = ground (arith, times-absent k xs)
times-append_all_new k (y ∷ ys) xs =
    let same : str_eq y k ≡ true → mem_str y xs ≡ mem_str k xs =
      λ e. ap (λ z. mem_str z xs) ((eq_iff y k).0 e) in
    elim (Bool-cases (mem_str y xs)) [
      | inl old ↦ rw old (times-append_all_new k ys xs ∙ ground (arith, same))
      | inr new ↦ rw new (
          times-append_all_new k ys (xs ++ y ∷ [])
          ∙ rw (mem_str-append k xs (y ∷ []), times-append k xs (y ∷ []))
              (ground (arith, same, times-absent k xs)))
    ]

mem_str-append_all_new :
    (k : String) (ys xs : List String)
    → mem_str k (append_all_new ys xs) ≡ (mem_str k xs || mem_str k ys)
unfolding append_all_new append_new
mem_str-append_all_new k [] xs = ground arith
mem_str-append_all_new k (y ∷ ys) xs =
    let same : str_eq y k ≡ true → mem_str y xs ≡ mem_str k xs =
      λ e. ap (λ z. mem_str z xs) ((eq_iff y k).0 e) in
    ground (
      arith,
      mem_str-append_all_new k ys xs,
      mem_str-append_all_new k ys (xs ++ y ∷ []),
      mem_str-append k xs (y ∷ []),
      same,
    )

last_with-absent {ℓ} :
    {A : Type ℓ} (key : A → String) (k : String) (xs : List A)
    → mem_str k (map key xs) ≡ false
    → last_with key k xs ≡ none
unfolding last_with
last_with-absent key k [] h = refl
last_with-absent key k (x ∷ xs) h = ground (arith, last_with-absent key k xs)

module _ (fl : Floats) (key_index : String → Option ℕ) where
  open fl use {F}

  abbrev has : String → List (CaseEvalResult F) → Bool
  has k rs = mem_str k (map (λ r. r.case_id) rs)

  pub times-all_ids :
      (k : String) (baseline distilled : List (CaseEvalResult F))
      → times k (all_ids fl key_index baseline distilled)
        ≡ (if has k baseline || has k distilled then 1 else 0)
  unfolding all_ids
  times-all_ids k baseline distilled =
      times-append_all_new k (map (λ r. r.case_id) distilled) _
      ∙ rw
          (
            mem_str-append_all_new k (map (λ (r : CaseEvalResult F). r.case_id) baseline) [],
            times-append_all_new k (map (λ (r : CaseEvalResult F). r.case_id) baseline) [],
          )
          (ground arith)

  -- A test that fails for a case without results need not ask whether a case has any.
  pub told_is_in :
      (k : String) (baseline distilled : List (CaseEvalResult F))
      (told : Option (CaseEvalResult F) → Option (CaseEvalResult F) → Bool)
      → told none none ≡ false
      → (has k baseline || has k distilled) ≡ false
      → told (last_with (λ x. x.case_id) k baseline) (last_with (λ x. x.case_id) k distilled)
        ≡ false
  told_is_in k baseline distilled told nothing out =
      let gone : (rs : List (CaseEvalResult F))
          → has k rs ≡ false
          → last_with (λ x. x.case_id) k rs ≡ none =
        λ rs. last_with-absent (λ (x : CaseEvalResult F). x.case_id) k rs in
      rw (gone baseline (ground arith), gone distilled (ground arith)) nothing
