-- ===== src/Pruning/Selection.antt =====
-- Which rules are selected, and what a reason for pruning says.
use rule_kiln.Prelude.{
  ℕ, zero, suc, ◌+◌, refl, ◌∙◌, Bool-cases, inl, inr, IsSorted, ◌≡◌, ◌≤◌, ◌<◌, ◌⊎◌, Bool, true,
  false, not, ◌&&◌, Option, none, some, List, [], ◌∷◌, ◌++◌, map, arith, ltb, take, drop, length,
  count_if, All, All-append, All-take, All-drop, All-map, All-zip, All-imp, All-sort_by, if_elim,
}
use rule_kiln.Numbers.{Floats}
use rule_kiln.Rules.{Rule}
use rule_kiln.Pruning.Prune.{
  PruningConfig, PruningRecord, PruningResult, PruningReason, pruned_for, screen, screen_reason,
  sort_verdict, rank, fit, cap, token_count, prune_rules, is_golden,
}
use rule_kiln.Pruning.Budget.{tokens}
use rule_kiln.Pruning.Sorted.{before, drop-behind, rank-IsSorted, All-fit}

-- Is the record one of the rules that did not fit the tokens?
abbrev is_over_tokens : PruningReason → Bool
is_over_tokens PruningReason.prompt_token_budget_exceeded = true
is_over_tokens _ = false

module _ (floats : Floats) (config : PruningConfig floats) where
  open floats use {F}

  -- A rule without conflicts that has the support asked for, or is protected as golden.
  abbrev pub Meets : Rule F → Type 0
  Meets r =
      (r.has_conflicts ≡ false)
      × ((config.min_rule_support_count ≤ r.support_count)
          ⊎ ((config.preserve_golden_rules ≡ true) × (is_golden floats config r ≡ true)))

  abbrev passed_over : List (PruningRecord floats) → ℕ
  passed_over ps = count_if (λ p. is_over_tokens p.reason) ps

  -- The rules that reached the token budget, selected or passed over for it, are as many as the cap
  -- allows, and the rule outranks none of the selected.
  abbrev pub IsBeyondCap : PruningResult floats → Rule F → Type 0
  IsBeyondCap result r =
      (length result.selected + passed_over result.pruned ≡ config.max_rules)
      × All (λ s. before floats config r s ≡ false) result.selected

  -- With the rule the selected ones would take more tokens than allowed.
  abbrev pub IsTooLong : PruningResult floats → Rule F → Type 0
  IsTooLong result r =
      config.max_prompt_tokens < tokens floats config result.selected + token_count floats config r

  -- What each reason says of the rule that was pruned for it.
  abbrev pub Explains : PruningResult floats → Rule F → PruningReason → Type 0
  Explains result r PruningReason.unresolved_conflict = r.has_conflicts ≡ true
  Explains result r PruningReason.below_min_support =
      (r.has_conflicts ≡ false)
      × (r.support_count < config.min_rule_support_count)
      × ((config.preserve_golden_rules && is_golden floats config r) ≡ false)
  Explains result r PruningReason.max_rules_exceeded = Meets r × IsBeyondCap result r
  Explains result r PruningReason.prompt_token_budget_exceeded = Meets r × IsTooLong result r
  Explains result r PruningReason.duplicate_or_subsumed = ⊥

  abbrev pub IsExplained : PruningResult floats → PruningRecord floats → Type 0
  IsExplained result p = Explains result p.rule p.reason

  -- A verdict of the first loop, which knows no budget.
  abbrev Verdict : Rule F → Option PruningReason → Type 0
  Verdict r none = Meets r
  Verdict r (some why) =
      ((result : PruningResult floats) → Explains result r why) × (is_over_tokens why ≡ false)

  screen_reason-Verdict : (r : Rule F) → Verdict r (screen_reason floats config r)
  unfolding screen_reason
  screen_reason-Verdict r =
      if_elim (Verdict r) r.has_conflicts (λ conflict. ((λ _. conflict), refl))
        (λ calm.
          if_elim (Verdict r)
            (ltb r.support_count config.min_rule_support_count
              && not (config.preserve_golden_rules && is_golden floats config r))
            (λ weak. ((λ _. (calm, ground arith, ground arith)), refl))
            (λ strong. (calm, ground arith)))

  -- Kept rules that meet the requirements, and records that hold whatever the budgets do.
  abbrev IsSound : List (Rule F) × List (PruningRecord floats) → Type 0
  IsSound (kept, pruned) =
      All Meets kept
      × All (λ p. (result : PruningResult floats) → IsExplained result p) pruned
      × (passed_over pruned ≡ 0)

  sort_verdict-IsSound :
      (r : Rule F) (o : Option PruningReason) (s : List (Rule F) × List (PruningRecord floats))
      → Verdict r o
      → IsSound s
      → IsSound (sort_verdict floats config r o s)
  sort_verdict-IsSound r none s v h = ((v, h.0), h.1, h.2)
  sort_verdict-IsSound r (some why) s v h = (h.0, (v.0, h.1), rw v.1 h.2)

  screen-IsSound : (rs : List (Rule F)) → IsSound (screen floats config rs)
  unfolding screen
  screen-IsSound [] = (tt, tt, refl)
  screen-IsSound (r ∷ rs) =
      sort_verdict-IsSound r (screen_reason floats config r) (screen floats config rs)
        (screen_reason-Verdict r) (screen-IsSound rs)

  All-rank : (P : Rule F → Type 0) (rs : List (Rule F)) → All P rs → All P (rank floats config rs)
  unfolding rank
  All-rank P rs h = All-sort_by _ P rs h

  passed_over-append :
      (ps qs : List (PruningRecord floats))
      → passed_over (ps ++ qs) ≡ passed_over ps + passed_over qs
  passed_over-append [] qs = omega arith
  passed_over-append (p ∷ ps) qs = ground (arith, passed_over-append ps qs)

  passed_over-capped :
      (rs : List (Rule F))
      → passed_over (map (pruned_for floats PruningReason.max_rules_exceeded) rs) ≡ 0
  passed_over-capped [] = refl
  passed_over-capped (r ∷ rs) = passed_over-capped rs

  -- What the cap leaves, and with records of the cap it leaves as many as it allows, none outranked.
  abbrev IsCapped : PruningResult floats → List (Rule F) × List (PruningRecord floats) → Type 0
  IsCapped result (kept, pruned) =
      All Meets kept
      × (((length kept ≡ config.max_rules)
            → length result.selected + passed_over result.pruned ≡ config.max_rules)
          → ((r : Rule F)
              → All (λ s. before floats config r s ≡ false) kept
              → All (λ s. before floats config r s ≡ false) result.selected)
          → All (IsExplained result) pruned)
      × (passed_over pruned ≡ 0)

  length-take : (n : ℕ) (rs : List (Rule F)) → n ≤ length rs → length (take n rs) ≡ n
  length-take zero rs h = refl
  length-take (suc n) [] h = omega arith
  length-take (suc n) (r ∷ rs) h = omega (arith, length-take n rs (omega arith))

  cap-IsCapped :
      (result : PruningResult floats) (rs : List (Rule F))
      → All Meets rs
      → IsSorted (before floats config) rs
      → IsCapped result (cap floats config rs)
  unfolding cap
  cap-IsCapped result rs h sorted =
      let n = config.max_rules in
      if_elim {A = List (Rule F) × List (PruningRecord floats)} (IsCapped result)
        (ltb n (length rs))
        (λ full. (
          All-take Meets n rs h,
          (λ same behind.
              All-map (IsExplained result) (pruned_for floats PruningReason.max_rules_exceeded)
                (drop n rs)
                (All-zip Meets (IsBeyondCap result) (drop n rs) (All-drop Meets n rs h) (
                  All-imp (drop n rs)
                    (λ r last. (same (length-take n rs (ground arith)), behind r last))
                    (drop-behind (before floats config) n rs sorted)))),
          passed_over-capped (drop n rs),
        ))
        (λ _. (h, (λ same behind. tt), refl))

  fit-IsExplained :
      (result : PruningResult floats) (running : ℕ) (rs : List (Rule F))
      → All Meets rs
      → running + tokens floats config (fit floats config running rs).0
        ≤ tokens floats config result.selected
      → All Meets (fit floats config running rs).0
        × All (IsExplained result) (fit floats config running rs).1
  unfolding fit
  fit-IsExplained result running [] h le = (tt, tt)
  fit-IsExplained result running (r ∷ rs) h le =
      elim (Bool-cases (ltb config.max_prompt_tokens (running + token_count floats config r))) [
        | inl over ↦
            let ih = fit-IsExplained result running rs h.1 (rw over at le) in
            rw over (ih.0, ((h.0, ground arith), ih.1))
        | inr fits ↦
            let ih =
              fit-IsExplained result (running + token_count floats config r) rs h.1
                (ground arith) in
            rw fits ((h.0, ih.0), ih.1)
      ]

  fit-counts :
      (running : ℕ) (rs : List (Rule F))
      → length (fit floats config running rs).0 + passed_over (fit floats config running rs).1
        ≡ length rs
  unfolding fit
  fit-counts running [] = refl
  fit-counts running (r ∷ rs) =
      ground (arith, fit-counts running rs, fit-counts (running + token_count floats config r) rs)

  -- Every selected rule is free of conflicts and has the support asked for or is protected as
  -- golden, and the reason recorded for every pruned rule is true of it: it has conflicts; it has too
  -- little support and no protection; as many rules as the cap allows came before it, and it outranks
  -- none of the selected; or its tokens do not fit beside those of the selected rules.
  pub prune_rules-All :
      (rules : List (Rule F))
      → let result = prune_rules floats config rules in
        All Meets result.selected × All (IsExplained result) result.pruned
  unfolding prune_rules
  prune_rules-All rules =
      let result = prune_rules floats config rules in
      let screened = screen floats config rules in
      let ranked = rank floats config screened.0 in
      let capped = cap floats config ranked in
      let sound = screen-IsSound rules in
      let capped_sound =
        cap-IsCapped result ranked (All-rank Meets screened.0 sound.0)
          (rank-IsSorted floats config screened.0) in
      let fitted = fit-IsExplained result 0 capped.0 capped_sound.0 (omega arith) in
      let counted : passed_over result.pruned ≡ passed_over (fit floats config 0 capped.0).1 =
        rw
          (
            passed_over-append screened.1 (capped.1 ++ (fit floats config 0 capped.0).1),
            passed_over-append capped.1 (fit floats config 0 capped.0).1,
            sound.2,
            capped_sound.2,
          )
          (omega arith) in
      (
        fitted.0,
        All-append (IsExplained result) screened.1 _
            (All-imp screened.1 (λ p always. always result) sound.1)
            (All-append (IsExplained result) capped.1 _
              (capped_sound.1 (λ full. rw counted (fit-counts 0 capped.0 ∙ full))
                (λ r behind.
                  All-fit floats config (λ s. before floats config r s ≡ false) 0 capped.0 behind))
              fitted.1),
      )
