-- ===== src/Baselines/Counts.antt =====
-- What the few-shot selection takes of the training cases, counted by any test: the selection never
-- has more than there are.
use rule_kiln.Prelude.{
  ℕ, zero, suc, ◌+◌, ◌≤◌, ◌≡◌, refl, sym, ◌∙◌, Bool, some, List, [], ◌∷◌, ◌++◌, map, String, take,
  get_elem?, count_if, sum_by, sort_by, sort_by-sum_by, if◌then◌else◌, Option-cases, inl, inr,
  arith, All, All-sort_by, if_elim, str_eq,
}
use rule_kiln.Baselines.Examples.{
  TrainCase, Lane, expected_label, add_to_group, group_cases, run_pass, run_passes, advanced,
  top_up, fill, choose, by_id, by_label, select_deterministic_few_shot_examples,
}

module _ {ℓ} {A : Type ℓ} (p : A → Bool) where
  abbrev pub indicator : A → ℕ
  indicator x = if p x then 1 else 0

  pub count_if-append : (xs ys : List A) → count_if p (xs ++ ys) ≡ count_if p xs + count_if p ys
  count_if-append [] ys = omega arith
  count_if-append (x ∷ xs) ys = ground (arith, count_if-append xs ys)

  pub count_if-sum_by : (xs : List A) → count_if p xs ≡ sum_by indicator xs
  count_if-sum_by [] = refl
  count_if-sum_by (x ∷ xs) = ground (arith, count_if-sum_by xs)

  pub count_if-sort_by :
      (before : A → A → Bool) (xs : List A) → count_if p (sort_by before xs) ≡ count_if p xs
  count_if-sort_by before xs =
      count_if-sum_by (sort_by before xs)
      ∙ sort_by-sum_by before indicator xs
      ∙ sym (count_if-sum_by xs)

  pub count_if-take-suc :
      (xs : List A) (i : ℕ) (x : A)
      → get_elem? xs i ≡ some x
      → count_if p (take (suc i) xs) ≡ count_if p (take i xs) + indicator x
  count_if-take-suc [] i x e = ground arith
  count_if-take-suc (y ∷ ys) zero x e = ground arith
  count_if-take-suc (y ∷ ys) (suc i) x e = ground (arith, count_if-take-suc ys i x e)

  pub count_if-take-le : (n : ℕ) (xs : List A) → count_if p (take n xs) ≤ count_if p xs
  count_if-take-le zero xs = omega arith
  count_if-take-le (suc n) [] = omega arith
  count_if-take-le (suc n) (x ∷ xs) = ground (arith, count_if-take-le n xs)

-- No group has been taken from.
abbrev pub AreFresh : List Lane → Type 0
AreFresh gs = All (λ g. g.index ≡ 0) gs

module _ (f : Lane → ℕ) (stays : (g : Lane) → f (advanced g) ≡ f g) where
  -- A sum over the lanes that does not read their index survives the passes.
  run_pass-sum_by :
      (k : ℕ) (gs : List Lane) (selected : List TrainCase)
      → sum_by f (run_pass k gs selected).lanes ≡ sum_by f gs
  unfolding run_pass
  run_pass-sum_by k [] selected = refl
  run_pass-sum_by k (g ∷ gs) selected = elim (Option-cases (get_elem? g.cases g.index)) [
    | inl e ↦ rw (e, run_pass) (omega (arith, run_pass-sum_by k gs selected))
    | inr (c, e) ↦
        rw (e, run_pass) (ground (arith, stays g, run_pass-sum_by k gs (selected ++ c ∷ [])))
  ]

  pub run_passes-sum_by :
      (fuel k : ℕ) (gs : List Lane) (selected : List TrainCase)
      → sum_by f (run_passes fuel k gs selected).0 ≡ sum_by f gs
  unfolding run_passes
  run_passes-sum_by zero k gs selected = refl
  run_passes-sum_by (suc fuel) k gs selected =
      let pass = run_pass k gs selected in
      ground
        (arith, run_pass-sum_by k gs selected, run_passes-sum_by fuel k pass.lanes pass.selected)

module _ (p : TrainCase → Bool) where
  -- What a lane holds, and what was taken of it.
  abbrev pub held : Lane → ℕ
  held g = count_if p g.cases

  abbrev pub taken : Lane → ℕ
  taken g = count_if p (take g.index g.cases)

  -- A pass adds to the selection what it takes of the lanes.
  pub run_pass-taken :
      (k : ℕ) (gs : List Lane) (selected : List TrainCase)
      → count_if p (run_pass k gs selected).selected + sum_by taken gs
        ≡ count_if p selected + sum_by taken (run_pass k gs selected).lanes
  unfolding run_pass
  run_pass-taken k [] selected = refl
  run_pass-taken k (g ∷ gs) selected = elim (Option-cases (get_elem? g.cases g.index)) [
    | inl e ↦ rw (e, run_pass) (omega (arith, run_pass-taken k gs selected))
    | inr (c, e) ↦
        let more = selected ++ c ∷ [] in
        let step = count_if-take-suc p g.cases g.index c e in
        let added = count_if-append p selected (c ∷ []) in
        rw (e, run_pass) (ground (arith, step, added, run_pass-taken k gs more))
  ]

  pub run_passes-taken :
      (fuel k : ℕ) (gs : List Lane) (selected : List TrainCase)
      → count_if p (run_passes fuel k gs selected).1 + sum_by taken gs
        ≡ count_if p selected + sum_by taken (run_passes fuel k gs selected).0
  unfolding run_passes
  run_passes-taken zero k gs selected = refl
  run_passes-taken (suc fuel) k gs selected =
      let pass = run_pass k gs selected in
      ground (arith, run_pass-taken k gs selected, run_passes-taken fuel k pass.lanes pass.selected)

  pub run_passes-held :
      (fuel k : ℕ) (gs : List Lane) (selected : List TrainCase)
      → sum_by held (run_passes fuel k gs selected).0 ≡ sum_by held gs
  run_passes-held fuel k gs selected = run_passes-sum_by held (λ g. refl) fuel k gs selected

  pub taken-le-held : (gs : List Lane) → sum_by taken gs ≤ sum_by held gs
  taken-le-held [] = omega arith
  taken-le-held (g ∷ gs) = omega (arith, count_if-take-le p g.index g.cases, taken-le-held gs)

  pub top_up-le :
      (k : ℕ) (ids : List String) (cs selected : List TrainCase)
      → count_if p (top_up k ids cs selected) ≤ count_if p selected + count_if p cs
  unfolding top_up
  top_up-le k ids [] selected = omega arith
  top_up-le k ids (c ∷ cs) selected = ground (
    arith,
    count_if-append p selected (c ∷ []),
    top_up-le k ids cs selected,
    top_up-le k ids cs (selected ++ c ∷ []),
  )

  add_to_group-held :
      (label : String) (c : TrainCase) (gs : List Lane)
      → sum_by held (add_to_group label c gs) ≡ indicator p c + sum_by held gs
  unfolding add_to_group
  add_to_group-held label c [] = ground arith
  add_to_group-held label c (g ∷ gs) =
      ground (arith, count_if-append p g.cases (c ∷ []), add_to_group-held label c gs)

  module _ (strip : String → String) where
    -- The grouping keeps every case, in a group or among those with no label.
    pub group_cases-held :
        (cs : List TrainCase) (found : List Lane × List TrainCase)
        → sum_by held (group_cases strip cs found).0 + count_if p (group_cases strip cs found).1
          ≡ sum_by held found.0 + count_if p found.1 + count_if p cs
    unfolding group_cases
    group_cases-held [] (gs, fallback) = omega arith
    group_cases-held (c ∷ cs) (gs, fallback) = elim (Option-cases (expected_label strip c)) [
      | inl e ↦
          rw (e, group_cases)
            (ground (
              arith,
              count_if-append p fallback (c ∷ []),
              group_cases-held cs (gs, fallback ++ c ∷ []),
            ))
      | inr (label, e) ↦
          rw (e, group_cases)
            (ground (
              arith,
              add_to_group-held label c gs,
              group_cases-held cs (add_to_group label c gs, fallback),
            ))
    ]

  pub AreFresh-taken : (gs : List Lane) → AreFresh gs → sum_by taken gs ≡ 0
  AreFresh-taken [] h = refl
  AreFresh-taken (g ∷ gs) h = rw h.0 (omega (arith, AreFresh-taken gs h.1))

  fill-le :
      (k : ℕ) (fallback selected : List TrainCase)
      → count_if p (fill k fallback selected) ≤ count_if p selected + count_if p fallback
  fill-le k fallback selected =
      ground (arith, top_up-le k (map (λ (c : TrainCase). c.id) selected) fallback selected)

  choose-le :
      (k : ℕ) (found : List Lane × List TrainCase)
      → AreFresh found.0
      → count_if p (choose k found) ≤ sum_by held found.0 + count_if p found.1
  unfolding choose
  choose-le k ([], fallback) h = omega (arith, count_if-take-le p k fallback)
  choose-le k (g ∷ gs, fallback) h =
      let lanes = sort_by by_label (g ∷ gs) in
      let selected = (run_passes k k lanes []).1 in
      omega (
        arith,
        count_if-take-le p k (fill k fallback selected),
        fill-le k fallback selected,
        run_passes-taken k k lanes [],
        AreFresh-taken lanes (All-sort_by by_label _ (g ∷ gs) h),
        taken-le-held (run_passes k k lanes []).0,
        run_passes-held k k lanes [],
        sort_by-sum_by by_label held (g ∷ gs),
      )

add_to_group-AreFresh :
    (label : String) (c : TrainCase) (gs : List Lane)
    → AreFresh gs
    → AreFresh (add_to_group label c gs)
unfolding add_to_group
add_to_group-AreFresh label c [] h = (refl, tt)
add_to_group-AreFresh label c (g ∷ gs) h =
    if_elim AreFresh (str_eq g.label label) (λ _. (h.0, h.1))
      (λ _. (h.0, add_to_group-AreFresh label c gs h.1))

module _ (strip : String → String) where
  pub group_cases-AreFresh :
      (cs : List TrainCase) (found : List Lane × List TrainCase)
      → AreFresh found.0
      → AreFresh (group_cases strip cs found).0
  unfolding group_cases
  group_cases-AreFresh [] found h = h
  group_cases-AreFresh (c ∷ cs) (gs, fallback) h = elim (Option-cases (expected_label strip c)) [
    | inl e ↦ rw (e, group_cases) (group_cases-AreFresh cs (gs, fallback ++ c ∷ []) h)
    | inr (label, e) ↦
        rw (e, group_cases)
          (group_cases-AreFresh cs (add_to_group label c gs, fallback)
            (add_to_group-AreFresh label c gs h))
  ]

  -- By any test, the examples hold no more cases than the training cases: none is made up, and none is
  -- taken twice.
  pub select_deterministic_few_shot_examples-le :
      (p : TrainCase → Bool) (k : ℕ) (train_cases : List TrainCase)
      → count_if p (select_deterministic_few_shot_examples strip k train_cases)
        ≤ count_if p train_cases
  unfolding select_deterministic_few_shot_examples
  select_deterministic_few_shot_examples-le p k train_cases =
      let cs = sort_by by_id train_cases in
      let found = group_cases strip cs ([], []) in
      ground (
        arith,
        choose-le p k found (group_cases-AreFresh cs ([], []) tt),
        group_cases-held p strip cs ([], []),
        count_if-sort_by p by_id train_cases,
      )
