-- ===== src/Pruning/Partition.antt =====
-- No rule is lost: each is selected or pruned, exactly once.
use rule_kiln.Prelude.{
  ℕ, ◌+◌, ◌≡◌, refl, ap, Option, none, some, List, [], ◌∷◌, ◌++◌, map, Perm, perm_middle,
  append_assoc, ltb, take-append-drop, length, sort_by-perm, if_elim, append-nil, if◌then◌else◌,
}
use mathlib.Core.List.{map-append, perm_append_comm}
use mathlib.Core.List.Perm
use rule_kiln.Numbers.{Floats}
use rule_kiln.Rules.{Rule}
use rule_kiln.Pruning.Prune.{
  PruningConfig, PruningRecord, PruningReason, pruned_for, screen, screen_reason, sort_verdict,
  rank, fit, cap, token_count, prune_rules,
}

-- Three piles behind a list, and the same piles put back in turn.
regroup {ℓ} : {A : Type ℓ} (s a b c : List A) → Perm (s ++ (a ++ (b ++ c))) (((s ++ c) ++ b) ++ a)
regroup s a b c =
    rw (append_assoc (s ++ c) b a, append_assoc s c (b ++ a))
      (Perm.append_left s (
        Perm.trans (perm_append_comm a (b ++ c)) (
          Perm.trans (Perm.append_right a (perm_append_comm b c))
            (rw append_assoc (Perm.refl (c ++ (b ++ a)))))))

module _ (floats : Floats) (config : PruningConfig floats) where
  open floats use {F}

  -- The rules of the records, in their order.
  abbrev pub rules_of : List (PruningRecord floats) → List (Rule F)
  rules_of pruned = map (λ p. p.rule) pruned

  -- A split of rules into kept ones and records loses none and repeats none.
  abbrev Splits : List (Rule F) → List (Rule F) × List (PruningRecord floats) → Type 0
  Splits rules (kept, pruned) = Perm (kept ++ rules_of pruned) rules

  Splits-sort_verdict :
      (r : Rule F) (rs : List (Rule F)) (o : Option PruningReason)
      (s : List (Rule F) × List (PruningRecord floats))
      → Splits rs s
      → Splits (r ∷ rs) (sort_verdict floats config r o s)
  Splits-sort_verdict r rs none s h = Perm.cons r h
  Splits-sort_verdict r rs (some why) s h =
      Perm.trans (perm_middle s.0 (rules_of s.1)) (Perm.cons r h)

  screen-Splits : (rs : List (Rule F)) → Splits rs (screen floats config rs)
  unfolding screen
  screen-Splits [] = Perm.refl []
  screen-Splits (r ∷ rs) =
      Splits-sort_verdict r rs (screen_reason floats config r) (screen floats config rs)
        (screen-Splits rs)

  map-rule :
      (why : PruningReason) (rs : List (Rule F)) → rules_of (map (pruned_for floats why) rs) ≡ rs
  map-rule why [] = refl
  map-rule why (r ∷ rs) = ap (◌∷◌ r) (map-rule why rs)

  cap-Splits : (rs : List (Rule F)) → Splits rs (cap floats config rs)
  unfolding cap
  cap-Splits rs =
      if_elim {A = List (Rule F) × List (PruningRecord floats)} (Splits rs)
        (ltb config.max_rules (length rs))
        (λ _. rw (map-rule, take-append-drop config.max_rules rs) (Perm.refl rs))
        (λ _. rw append-nil (Perm.refl rs))

  fit-Splits : (running : ℕ) (rs : List (Rule F)) → Splits rs (fit floats config running rs)
  unfolding fit
  fit-Splits running [] = Perm.refl []
  fit-Splits running (r ∷ rs) =
      let over = ltb config.max_prompt_tokens (running + token_count floats config r) in
      let next = if over then running else running + token_count floats config r in
      let rest = fit floats config next rs in
      let ih = fit-Splits next rs in
      if_elim {A = List (Rule F) × List (PruningRecord floats)} (Splits (r ∷ rs)) over
        (λ _. Perm.trans (perm_middle rest.0 (rules_of rest.1)) (Perm.cons r ih))
        (λ _. Perm.cons r ih)

  -- Every rule given is either selected or pruned, and exactly once.
  pub prune_rules-perm :
      (rules : List (Rule F))
      → let result = prune_rules floats config rules in
        Perm (result.selected ++ rules_of result.pruned) rules
  unfolding prune_rules rank
  prune_rules-perm rules =
      let screened = screen floats config rules in
      let ranked = rank floats config screened.0 in
      let capped = cap floats config ranked in
      let fitted = fit floats config 0 capped.0 in
      let back : Perm (fitted.0 ++ rules_of fitted.1) capped.0 = fit-Splits 0 capped.0 in
      let uncapped : Perm (capped.0 ++ rules_of capped.1) screened.0 =
        Perm.trans (cap-Splits ranked) (sort_by-perm _ screened.0) in
      rw (map-append, map-append)
        (Perm.trans (regroup fitted.0 (rules_of screened.1) (rules_of capped.1) (rules_of fitted.1))
          (Perm.trans
            (Perm.append_right (rules_of screened.1)
              (Perm.trans (Perm.append_right (rules_of capped.1) back) uncapped))
            (screen-Splits rules)))
