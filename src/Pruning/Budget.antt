-- ===== src/Pruning/Budget.antt =====
-- The budgets: how many rules, and how many tokens.
use rule_kiln.Prelude.{
  ℕ, ◌+◌, ◌≡◌, ◌≤◌, refl, false, none, List, [], ◌∷◌, arith, ltb, length, length-take-le, sum_by,
  All, sort_by-length, sort_by-sum_by,
}
use rule_kiln.Numbers.{Floats}
use rule_kiln.Rules.{Rule}
use rule_kiln.Pruning.Prune.{
  PruningConfig, screen, screen_reason, rank, fit, cap, token_count, prune_rules,
}

module _ (floats : Floats) (config : PruningConfig floats) where
  open floats use {F}

  -- The tokens of a list of rules.
  abbrev pub tokens : List (Rule F) → ℕ
  tokens rs = sum_by (token_count floats config) rs

  fit-tokens :
      (running : ℕ) (rs : List (Rule F))
      → running ≤ config.max_prompt_tokens
      → running + tokens (fit floats config running rs).0 ≤ config.max_prompt_tokens
  unfolding fit
  fit-tokens running [] h = omega arith
  fit-tokens running (r ∷ rs) h =
      ground (arith, fit-tokens running rs, fit-tokens (running + token_count floats config r) rs)

  fit-length-le :
      (running : ℕ) (rs : List (Rule F)) → length (fit floats config running rs).0 ≤ length rs
  unfolding fit
  fit-length-le running [] = omega arith
  fit-length-le running (r ∷ rs) =
      ground
        (arith, fit-length-le running rs, fit-length-le (running + token_count floats config r) rs)

  cap-length-le : (rs : List (Rule F)) → length (cap floats config rs).0 ≤ config.max_rules
  unfolding cap
  cap-length-le rs = ground (arith, length-take-le config.max_rules rs)

  -- The selected rules are at most `max_rules`, and their tokens at most `max_prompt_tokens`.
  pub prune_rules_bounds :
      (rules : List (Rule F))
      → let result = prune_rules floats config rules in
        (length result.selected ≤ config.max_rules)
        × (tokens result.selected ≤ config.max_prompt_tokens)
  unfolding prune_rules
  prune_rules_bounds rules =
      let capped = cap floats config (rank floats config (screen floats config rules).0) in
      (
        omega (
          arith,
          fit-length-le 0 capped.0,
          cap-length-le (rank floats config (screen floats config rules).0),
        ),
        omega (arith, fit-tokens 0 capped.0 (omega arith)),
      )

  screen_unchanged :
      (rs : List (Rule F))
      → All (λ r. screen_reason floats config r ≡ none) rs
      → screen floats config rs ≡ (rs, [])
  unfolding screen
  screen_unchanged [] h = refl
  screen_unchanged (r ∷ rs) h = rw (h.0, screen_unchanged rs h.1)

  fit_unchanged :
      (running : ℕ) (rs : List (Rule F))
      → running + tokens rs ≤ config.max_prompt_tokens
      → fit floats config running rs ≡ (rs, [])
  unfolding fit
  fit_unchanged running [] h = refl
  fit_unchanged running (r ∷ rs) h =
      let fits : ltb config.max_prompt_tokens (running + token_count floats config r) ≡ false =
        ground arith in
      rw (fits, fit_unchanged (running + token_count floats config r) rs (omega arith))

  cap_unchanged :
      (rs : List (Rule F)) → length rs ≤ config.max_rules → cap floats config rs ≡ (rs, [])
  unfolding cap
  cap_unchanged rs h = let fits : ltb config.max_rules (length rs) ≡ false = ground arith in rw fits

  rank-length : (rs : List (Rule F)) → length (rank floats config rs) ≡ length rs
  unfolding rank
  rank-length rs = sort_by-length _ rs

  rank-tokens : (rs : List (Rule F)) → tokens (rank floats config rs) ≡ tokens rs
  unfolding rank
  rank-tokens rs = sort_by-sum_by _ (token_count floats config) rs

  -- Rules that all pass the screen and together fit both budgets are all selected, in the order of
  -- their rank, and none is pruned.
  pub prune_rules_unpruned :
      (rules : List (Rule F))
      → All (λ r. screen_reason floats config r ≡ none) rules
      → length rules ≤ config.max_rules
      → tokens rules ≤ config.max_prompt_tokens
      → prune_rules floats config rules
        ≡ record { selected = rank floats config rules; pruned = [] }
  unfolding prune_rules
  prune_rules_unpruned rules pass few small = rw (
    screen_unchanged rules pass,
    cap_unchanged (rank floats config rules) (omega (arith, rank-length rules)),
    fit_unchanged 0 (rank floats config rules) (omega (arith, rank-tokens rules)),
  )
