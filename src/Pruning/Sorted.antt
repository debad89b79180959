-- ===== src/Pruning/Sorted.antt =====
-- The order of the selected rules, and how a rule that is capped stands to those before the cap.
use rule_kiln.Prelude.{
  ℕ, zero, suc, ◌+◌, ◌≡◌, Bool, false, List, [], ◌∷◌, ltb, take, drop, length, All, All-zip,
  All-drop, IsSorted, IsSorted-take, sort_by-IsSorted, if_elim, if◌then◌else◌,
}
use rule_kiln.Numbers.{Floats}
use rule_kiln.Rules.{Rule}
use rule_kiln.Pruning.Ranking.{ranks_before, ranks_before-IsStrictOrder}
use rule_kiln.Pruning.Prune.{
  PruningConfig, PruningRecord, screen, rank, fit, cap, token_count, prune_rules,
}

-- In a sorted list what is dropped comes before nothing that is taken.
pub drop-behind {ℓ} :
    {A : Type ℓ} (before : A → A → Bool) (n : ℕ) (xs : List A)
    → IsSorted before xs
    → All (λ d. All (λ s. before d s ≡ false) (take n xs)) (drop n xs)
drop-behind before zero [] h = tt
drop-behind before zero (x ∷ xs) h = (tt, drop-behind before zero xs h.1)
drop-behind before (suc n) [] h = tt
drop-behind before (suc n) (x ∷ xs) h =
    All-zip _ _ (drop n xs) (All-drop _ n xs h.0) (drop-behind before n xs h.1)

module _ (floats : Floats) (config : PruningConfig floats) where
  open floats use {F}

  abbrev pub before : Rule F → Rule F → Bool
  before =
      ranks_before floats config.ranking_mode config.regression_penalty config.utility_signals
        config.classroom_utility_signals

  pub All-fit :
      (P : Rule F → Type 0) (running : ℕ) (rs : List (Rule F))
      → All P rs
      → All P (fit floats config running rs).0
  unfolding fit
  All-fit P running [] h = tt
  All-fit P running (r ∷ rs) h =
      let over = ltb config.max_prompt_tokens (running + token_count floats config r) in
      let ih = All-fit P (if over then running else running + token_count floats config r) rs h.1 in
      if_elim {A = List (Rule F) × List (PruningRecord floats)} (λ s. All P s.0) over (λ _. ih)
        (λ _. (h.0, ih))

  fit-IsSorted :
      (running : ℕ) (rs : List (Rule F))
      → IsSorted before rs
      → IsSorted before (fit floats config running rs).0
  unfolding fit
  fit-IsSorted running [] h = tt
  fit-IsSorted running (r ∷ rs) h =
      let over = ltb config.max_prompt_tokens (running + token_count floats config r) in
      let next = if over then running else running + token_count floats config r in
      let ih = fit-IsSorted next rs h.1 in
      if_elim {A = List (Rule F) × List (PruningRecord floats)} (λ s. IsSorted before s.0) over
        (λ _. ih) (λ _. (All-fit (λ y. before y r ≡ false) next rs h.0, ih))

  pub rank-IsSorted : (rs : List (Rule F)) → IsSorted before (rank floats config rs)
  unfolding rank
  rank-IsSorted rs =
      sort_by-IsSorted before
        (ranks_before-IsStrictOrder floats config.ranking_mode config.regression_penalty
          config.utility_signals config.classroom_utility_signals)
        rs

  cap-IsSorted :
      (rs : List (Rule F)) → IsSorted before rs → IsSorted before (cap floats config rs).0
  unfolding cap
  cap-IsSorted rs h =
      if_elim {A = List (Rule F) × List (PruningRecord floats)} (λ s. IsSorted before s.0)
        (ltb config.max_rules (length rs)) (λ _. IsSorted-take before config.max_rules rs h)
        (λ _. h)

  -- The selected rules stand in the order of the ranking mode: no rule stands behind one that it
  -- outranks, by priority first and then by the mode's score.
  pub prune_rules-IsSorted :
      (rules : List (Rule F)) → IsSorted before (prune_rules floats config rules).selected
  unfolding prune_rules rank
  prune_rules-IsSorted rules =
      let screened = screen floats config rules in
      fit-IsSorted 0 (cap floats config (rank floats config screened.0)).0 (
        cap-IsSorted (rank floats config screened.0) (
          sort_by-IsSorted before
            (ranks_before-IsStrictOrder floats config.ranking_mode config.regression_penalty
              config.utility_signals config.classroom_utility_signals)
            screened.0))
