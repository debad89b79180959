-- ===== src/Baselines/Balance.antt =====
-- The few-shot selection is balanced between labels.

use rule_kiln.Prelude.{
  ℕ, zero, suc, ◌≤◌, ◌<◌, ◌≡◌, refl, Bool, none, List, [], ◌∷◌, ◌++◌, map, String, length,
  length-append, take, count_if, sum_by, sort_by, sort_by-sum_by, ltb, if◌then◌else◌, Bool-cases,
  inl, inr, arith, All, All-imp, All-take, All-sort_by, str_eq, ltb→lt, ap, ◌⊎◌,
}
use rule_kiln.Baselines.Examples.{
  TrainCase, Lane, expected_label, group_cases, run_passes, top_up, fill, choose, by_id, by_label,
  select_deterministic_few_shot_examples,
}
use rule_kiln.Baselines.Counts.{
  held, AreFresh, AreFresh-taken, run_passes-taken, run_passes-sum_by, run_passes-held,
  taken-le-held, group_cases-held, group_cases-AreFresh, count_if-append, count_if-sort_by,
  top_up-le,
}
use rule_kiln.Baselines.Labels.{
  has_label, lanes_of, IsLabelled, count_unlabelled, lanes_taken, IsGrouped, group_cases-IsGrouped,
}
use rule_kiln.Baselines.Size.{run_passes-length}
use rule_kiln.Baselines.Lanes.{All-run_passes, run_passes-IsNear}

-- Filling up with cases of no label changes no label's count, and neither does the last cut.
top_up-keeps :
    (p : TrainCase → Bool) (k : ℕ) (ids : List String) (cs selected : List TrainCase)
    → count_if p selected ≤ count_if p (top_up k ids cs selected)
unfolding top_up
top_up-keeps p k ids [] selected = omega arith
top_up-keeps p k ids (c ∷ cs) selected = ground (
  arith,
  count_if-append p selected (c ∷ []),
  top_up-keeps p k ids cs selected,
  top_up-keeps p k ids cs (selected ++ c ∷ []),
)

top_up-length-le :
    (k : ℕ) (ids : List String) (cs selected : List TrainCase)
    → length selected < k
    → length (top_up k ids cs selected) ≤ k
unfolding top_up
top_up-length-le k ids [] selected h = omega arith
top_up-length-le k ids (c ∷ cs) selected h = ground (
  arith,
  length-append selected (c ∷ []),
  top_up-length-le k ids cs selected,
  top_up-length-le k ids cs (selected ++ c ∷ []),
)

take_all : (n : ℕ) (xs : List TrainCase) → length xs ≤ n → take n xs ≡ xs
take_all n [] h = take_nil n
  where
    take_nil : (n : ℕ) → take n (let e : List TrainCase = [] in e) ≡ []
    take_nil zero = refl
    take_nil (suc n) = refl
take_all zero (x ∷ xs) h = absurd (omega arith)
take_all (suc n) (x ∷ xs) h = ap (◌∷◌ x) (take_all n xs (omega arith))

module _ (strip : String → String) where
  take-fill :
      (a : String) (k : ℕ) (fallback selected : List TrainCase)
      → length selected ≤ k
      → All (λ c. expected_label strip c ≡ none) fallback
      → count_if (has_label strip a) (take k (fill k fallback selected))
        ≡ count_if (has_label strip a) selected
  take-fill a k fallback selected h none_of = elim (Bool-cases (ltb (length selected) k)) [
    | inr full ↦ rw full (rw (take_all k selected h) refl)
    | inl room ↦
        let ids = map (λ (c : TrainCase). c.id) selected in
        let whole =
          take_all k (top_up k ids fallback selected)
            (top_up-length-le k ids fallback selected (ltb→lt _ k room)) in
        rw room (
          rw whole (
            omega (
              arith,
              top_up-keeps (has_label strip a) k ids fallback selected,
              top_up-le (has_label strip a) k ids fallback selected,
              count_unlabelled strip a fallback none_of,
            )))
  ]

  -- No label is ahead of another by more than one, unless the other has been taken whole.
  abbrev pub IsBalanced : String → String → List TrainCase → List TrainCase → Type 0
  IsBalanced a b selected cs =
      (count_if (has_label strip a) selected ≤ suc (count_if (has_label strip b) selected))
      ⊎ (count_if (has_label strip b) selected ≡ count_if (has_label strip b) cs)

  passes_balanced :
      (a b : String) (k : ℕ) (gs : List Lane)
      → All (IsLabelled strip) gs
      → ((a : String) → lanes_of a gs ≤ 1)
      → AreFresh gs
      → (count_if (has_label strip a) (run_passes k k gs []).1
          ≤ suc (count_if (has_label strip b) (run_passes k k gs []).1))
        ⊎ (count_if (has_label strip b) (run_passes k k gs []).1
            ≡ sum_by (held (has_label strip b)) gs)
  passes_balanced a b k gs h once fresh =
      let final = run_passes k k gs [] in
      let (r, near) = run_passes-IsNear k 0 k gs [] (All-imp gs (λ g e. omega (arith, e)) fresh) in
      let after = All-run_passes (IsLabelled strip) (λ g l. l) k k gs [] h in
      let single : (a : String) → lanes_of a final.0 ≤ 1 = λ a. omega (
        arith,
        once a,
        run_passes-sum_by (λ g. if str_eq g.label a then 1 else 0) (λ g. refl) k k gs [],
      ) in
      ground (
        arith,
        lanes_taken strip a r final.0 after near (single a),
        lanes_taken strip b r final.0 after near (single b),
        taken-le-held (has_label strip b) final.0,
        run_passes-taken (has_label strip a) k k gs [],
        run_passes-taken (has_label strip b) k k gs [],
        AreFresh-taken (has_label strip a) gs fresh,
        AreFresh-taken (has_label strip b) gs fresh,
        run_passes-held (has_label strip b) k k gs [],
      )

  choose_balanced :
      (a b : String) (k : ℕ) (found : List Lane × List TrainCase)
      → IsGrouped strip found
      → AreFresh found.0
      → (count_if (has_label strip a) (choose k found)
          ≤ suc (count_if (has_label strip b) (choose k found)))
        ⊎ (count_if (has_label strip b) (choose k found)
            ≡ sum_by (held (has_label strip b)) found.0)
  unfolding choose
  choose_balanced a b k ([], fallback) v fresh =
      let none_of =
        count_unlabelled strip a (take k fallback) (All-take _ k fallback v.unlabelled) in
      inl (omega (arith, none_of))
  choose_balanced a b k (g ∷ gs, fallback) v fresh =
      let lanes = sort_by by_label (g ∷ gs) in
      let selected = (run_passes k k lanes []).1 in
      let single : (a : String) → lanes_of a lanes ≤ 1 = λ a. omega (
        arith,
        v.once a,
        sort_by-sum_by by_label (λ g. if str_eq g.label a then 1 else 0) (g ∷ gs),
      ) in
      let bound = (run_passes-length k k lanes [] (omega arith) (omega arith)).0 in
      let same_a = take-fill a k fallback selected bound v.unlabelled in
      let same_b = take-fill b k fallback selected bound v.unlabelled in
      ground (
        arith,
        same_a,
        same_b,
        sort_by-sum_by by_label (held (has_label strip b)) (g ∷ gs),
        passes_balanced a b k lanes (All-sort_by by_label _ (g ∷ gs) v.labelled) single
            (All-sort_by by_label _ (g ∷ gs) fresh),
      )

  -- Of any two labels, the selection has at most one example more of the first than of the second, or
  -- it has all cases of the second.
  pub select_deterministic_few_shot_examples-IsBalanced :
      (a b : String) (k : ℕ) (train_cases : List TrainCase)
      → IsBalanced a b (select_deterministic_few_shot_examples strip k train_cases) train_cases
  unfolding select_deterministic_few_shot_examples
  select_deterministic_few_shot_examples-IsBalanced a b zero train_cases = inl (omega arith)
  select_deterministic_few_shot_examples-IsBalanced a b (suc k) train_cases =
      let cs = sort_by by_id train_cases in
      let found = group_cases strip cs ([], []) in
      let v =
        group_cases-IsGrouped strip cs ([], [])
          record { labelled = tt; unlabelled = tt; once = λ a. omega arith } in
      ground (
        arith,
        choose_balanced a b (suc k) found v (group_cases-AreFresh strip cs ([], []) tt),
        group_cases-held (has_label strip b) strip cs ([], []),
        count_unlabelled strip b found.1 v.unlabelled,
        count_if-sort_by (has_label strip b) by_id train_cases,
      )
