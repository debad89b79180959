-- ===== src/Evaluation/Chosen.antt =====
-- Which strategy is selected.

use rule_kiln.Prelude.{
  ℕ, ◌≡◌, ◌≢◌, refl, sym, subst, Bool, true, false, not, ◌||◌, List, [], ◌∷◌, String, str_eq, keep,
  All, All-keep, All-keep_of, All-imp, All-zip, arith, ℤ,
}
use rule_kiln.Numbers.{Floats}
use rule_kiln.Pruning.Ranking.{lookup}
use rule_kiln.Evaluation.Cases.{TaskMode}
use rule_kiln.Evaluation.Select.{
  Entry, Gates, le, primary_metric_epsilon, malformed_epsilon, top_of, select_top, gate_passed,
  score_of_entry, by_score, candidates, passing, pool_of, choose, select_strategy_generic,
}
use rule_kiln.Evaluation.Ties.{
  keep-nonempty, All-kept, All-at, top_attained, top_of_lem, top_of-All, IsIn, All-IsIn, IsChosen,
}
use rule_kiln.Evaluation.Picks.{single-Picks, near, by_golden-Picks}

module _ (floats : Floats) (int_of : floats.F → ℤ)
    (cancel : (x : floats.F) → floats.sub x x ≡ floats.of_ℕ 0)
    (small : floats.lt (primary_metric_epsilon floats int_of) (floats.of_ℕ 0) ≡ false)
    (tiny : floats.lt (malformed_epsilon floats int_of) (floats.of_ℕ 0) ≡ false) where
  open floats use {F, lt, of_ℕ, sub, lt_order}

  abbrev E : Type 0
  E = Entry floats int_of

  module _ (mode : TaskMode) (gates : Gates floats int_of) (prompt_tokens : List (String × ℕ)) where
    abbrev score : E → F
    score = score_of_entry floats int_of mode gates prompt_tokens

    -- `best - x` is within the tolerance.
    abbrev pub IsNear : F → F → Type 0
    IsNear best x = le floats int_of (sub best x) (primary_metric_epsilon floats int_of) ≡ true

    by_score-Chosen :
        (Q : E → Type 0) (pool : List E)
        → All Q pool
        → pool ≢ []
        → IsChosen floats int_of
            (λ c.
              Q c
              × ((b : E) × Q b
                  × All (λ d. lt (score b) (score d) ≡ false) pool
                  × IsNear (score b) (score c)))
            (by_score floats int_of mode gates prompt_tokens pool)
    unfolding by_score select_top
    by_score-Chosen Q [] q some_left = ground (arith, some_left refl)
    by_score-Chosen Q (c ∷ cs) q some_left =
        let top = top_of floats int_of score c cs in
        let p : E → Bool =
          λ d. le floats int_of (sub top (score d)) (primary_metric_epsilon floats int_of) in
        let (b, qb, same) = top_of_lem floats int_of Q score c cs q in
        let upper : All (λ d. lt (score b) (score d) ≡ false) (c ∷ cs) =
          subst (λ x. All (λ d. lt x (score d) ≡ false) (c ∷ cs)) (sym same)
            (top_of-All floats int_of score c cs) in
        let P : E → Type 0 = λ d.
          Q d
          × ((b : E) × Q b
              × All (λ e. lt (score b) (score e) ≡ false) (c ∷ cs)
              × IsNear (score b) (score d)) in
        single-Picks floats int_of cancel small tiny P _ (keep p (c ∷ cs)) _
          (by_golden-Picks floats int_of cancel small tiny mode gates prompt_tokens P)
          (All-imp (keep p (c ∷ cs))
            (λ d (qd, close).
              (qd, (b, qb, upper, subst (λ x. IsNear x (score d)) (sym same) close)))
            (All-zip Q _ (keep p (c ∷ cs)) (All-keep_of Q p (c ∷ cs) q) (All-keep p (c ∷ cs))))
          (keep-nonempty p (c ∷ cs) (
            top_attained floats int_of score p c cs (λ d e.
              subst
                (λ x.
                  le floats int_of (sub x (score d)) (primary_metric_epsilon floats int_of) ≡ true)
                e (near floats int_of cancel small tiny (score d)))))

    pool-nonempty :
        (cands ps : List E)
        → cands ≢ []
        → pool_of floats int_of mode gates prompt_tokens ps cands ≢ []
    pool-nonempty cands [] h = h
    pool-nonempty cands (p ∷ ps) h = λ e. ground arith

    module _ (evals : List E) (baseline : String) where
      abbrev pub IsOut : E → Type 0
      IsOut c = (str_eq c.0 baseline || str_eq c.0 "baseline") ≡ false

      abbrev passes : E → Bool
      passes c = gate_passed floats int_of (lookup c.0 gates)

      -- Past its gate, if any evaluated strategy but the baselines is.
      abbrev pub IsGated : E → Type 0
      IsGated c = (d : E) → IsIn floats int_of d evals → IsOut d → passes d ≡ true → passes c ≡ true

      -- A strategy that may be selected: evaluated, of neither baseline, and past its gate if any is.
      abbrev pub IsContender : E → Type 0
      IsContender c = IsIn floats int_of c evals × IsOut c × IsGated c

      -- Within the tolerance of a contender whose score no contender exceeds.
      abbrev pub IsNearBest : E → Type 0
      IsNearBest c =
          (b : E) × IsContender b
          × All (λ d. IsOut d → IsGated d → lt (score b) (score d) ≡ false) evals
          × IsNear (score b) (score c)

      abbrev out : E → Bool
      out c = not (str_eq c.0 baseline || str_eq c.0 "baseline")

      All-evals : (P : E → Type 0) → All P (keep out evals) → All (λ d. IsOut d → P d) evals
      All-evals P h = All-imp evals (λ d f o. f (ground (arith, o))) (All-kept P out evals h)

      inside : All (λ c. IsIn floats int_of c evals × IsOut c) (keep out evals)
      inside =
          All-zip _ _ (keep out evals)
            (All-keep_of (λ c. IsIn floats int_of c evals) out evals (All-IsIn floats int_of evals))
            (All-imp (keep out evals) (λ c e. ground (arith, e)) (All-keep out evals))

      -- The pool is just the contenders.
      pool-Contenders :
          (cands ps : List E)
          → cands ≡ keep out evals
          → ps ≡ keep passes cands
          → All IsContender (pool_of floats int_of mode gates prompt_tokens ps cands)
            × ((P : E → Type 0)
                → All P (pool_of floats int_of mode gates prompt_tokens ps cands)
                → All (λ d. IsOut d → IsGated d → P d) evals)
      pool-Contenders cands [] e f =
          let nobody : All (λ d. IsOut d → passes d ≡ true → ⊥) evals =
            All-evals (λ d. passes d ≡ true → ⊥)
              (subst (All (λ d. passes d ≡ true → ⊥)) e
                (All-kept (λ _. ⊥) passes cands (subst (All (λ _. ⊥)) f tt))) in
          (
            subst (All IsContender) (sym e) (
                All-imp (keep out evals)
                  (λ c (within, o). (
                    within,
                    o,
                    λ d there away ok. absurd (
                        All-at floats int_of (λ x. IsOut x → passes x ≡ true → ⊥) evals nobody d
                          there away ok),
                  ))
                  inside),
            λ P h. All-imp evals (λ d g o _. g o) (All-evals P (subst (All P) e h)),
          )
      pool-Contenders cands (p ∷ ps) e f =
          let Good : E → Type 0 = λ c. (IsIn floats int_of c evals × IsOut c) × (passes c ≡ true) in
          let good : All Good (p ∷ ps) = subst (All Good) (sym f) (
            All-zip _ _ (keep passes cands)
              (All-keep_of (λ c. IsIn floats int_of c evals × IsOut c) passes cands
                (subst (All (λ c. IsIn floats int_of c evals × IsOut c)) (sym e) inside))
              (All-keep passes cands)) in
          (
            All-imp (p ∷ ps) (λ c (b, ok). (b.0, b.1, λ _ _ _ _. ok)) good,
            λ P h.
                All-imp evals (λ d g o gated. g o (gated p good.0.0.0 good.0.0.1 good.0.1))
                  (All-evals (λ d. passes d ≡ true → P d)
                    (subst (All (λ d. passes d ≡ true → P d)) e
                      (All-kept P passes cands (subst (All P) f h)))),
          )

      choose-Chosen :
          (cands : List E)
          → cands ≡ keep out evals
          → cands ≢ []
          → IsChosen floats int_of
              (λ c. IsContender c × IsNearBest c)
              (choose floats int_of mode gates prompt_tokens baseline cands)
      unfolding passing
      choose-Chosen [] e left = ground (arith, left refl)
      choose-Chosen (c ∷ cs) e left =
          let ps = passing floats int_of mode gates prompt_tokens (c ∷ cs) in
          let both = pool-Contenders (c ∷ cs) ps e refl in
          let (s, why, same, (d, (contender, (b, best, upper, close)), name)) =
            by_score-Chosen IsContender (pool_of floats int_of mode gates prompt_tokens ps (c ∷ cs))
              both.0 (pool-nonempty (c ∷ cs) ps left) in
          (
            s,
            why,
            same,
            (
              d,
              (contender, (b, best, both.1 (λ x. lt (score b) (score x) ≡ false) upper, close)),
              name,
            ),
          )

      -- If x - x is 0.0 and the tolerances are not negative, and there is a candidate, then a strategy
      -- is always selected, and it is one that was evaluated, of neither baseline, that passed its gate
      -- if any such strategy did, and whose primary score is within the tolerance of that of a strategy
      -- which is all this too and which no other such strategy exceeds.
      pub select_strategy_generic-IsChosen :
          candidates floats int_of mode gates prompt_tokens baseline evals ≢ []
          → IsChosen floats int_of
              (λ c. IsContender c × IsNearBest c)
              (select_strategy_generic floats int_of mode gates prompt_tokens evals baseline)
      unfolding select_strategy_generic candidates
      select_strategy_generic-IsChosen left = choose-Chosen (keep out evals) refl left
