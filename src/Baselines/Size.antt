-- ===== src/Baselines/Size.antt =====
-- How many examples the few-shot selection returns: as many as asked for, as long as there are cases.
use Prim.Native.Nat.{min}
use rule_kiln.Prelude.{
  ℕ, zero, suc, ◌+◌, ◌≤◌, ◌<◌, ◌≡◌, refl, ap, Bool, true, false, none, List, [], ◌∷◌, ◌++◌, map,
  String, length, length-append, take, get_elem?, count_if, sum_by, sort_by, sort_by-sum_by, leb,
  ltb, if◌then◌else◌, Bool-cases, Option-cases, inl, inr, arith, mem_str, All, str_eq, eq_iff, ◌⊎◌,
  ltb→lt, All-sort_by,
}
use rule_kiln.Baselines.Examples.{
  TrainCase, Lane, group_cases, advanced, taken_from, run_pass, run_passes, top_up, fill, choose,
  by_id, by_label, select_deterministic_few_shot_examples,
}
use rule_kiln.Baselines.Counts.{
  held, taken, AreFresh, run_passes-taken, group_cases-held, group_cases-AreFresh, count_if-sort_by,
  AreFresh-taken, taken-le-held, run_passes-held,
}

abbrev every : TrainCase → Bool
every c = true

count_if-every : (xs : List TrainCase) → count_if every xs ≡ length xs
count_if-every [] = refl
count_if-every (x ∷ xs) = omega (arith, count_if-every xs)

take-past : (xs : List TrainCase) (i : ℕ) → get_elem? xs i ≡ none → take i xs ≡ xs
take-past [] zero e = refl
take-past [] (suc i) e = refl
take-past (x ∷ xs) zero e = ground arith
take-past (x ∷ xs) (suc i) e = ap (◌∷◌ x) (take-past xs i e)

-- All has been taken of every lane.
abbrev AreSpent : List Lane → Type 0
AreSpent gs = sum_by (taken every) gs ≡ sum_by (held every) gs

-- A pass that has taken something says so.
not_idle :
    (k : ℕ) (gs : List Lane) (g : Lane) (c : TrainCase) (selected : List TrainCase)
    → ¬ (
        (if leb k (length (selected ++ c ∷ []))
          then record { lanes = g ∷ gs; selected = selected ++ c ∷ []; progressed = true }
          else taken_from g (run_pass k gs (selected ++ c ∷ []))).progressed
        ≡ false)
not_idle k gs g c selected h = ground arith

-- A pass that takes nothing finds all lanes spent; one that takes something adds to the selection.
run_pass-spent :
    (k : ℕ) (gs : List Lane) (selected : List TrainCase)
    → (run_pass k gs selected).progressed ≡ false
    → AreSpent (run_pass k gs selected).lanes
unfolding run_pass
run_pass-spent k [] selected h = refl
run_pass-spent k (g ∷ gs) selected h = elim (Option-cases (get_elem? g.cases g.index)) [
  | inl e ↦
      let idle : (run_pass k gs selected).progressed ≡ false = rw (e, run_pass) at h in
      let rest = run_pass-spent k gs selected idle in
      rw (e, run_pass) (omega (arith, ap (count_if every) (take-past g.cases g.index e), rest))
  | inr (c, e) ↦ absurd (not_idle k gs (advanced g) c selected (rw (e, run_pass) at h))
]

run_pass-length :
    (k : ℕ) (gs : List Lane) (selected : List TrainCase)
    → length selected < k
    → (length selected ≤ length (run_pass k gs selected).selected)
      × (length (run_pass k gs selected).selected ≤ k)
unfolding run_pass
run_pass-length k [] selected h = omega arith
run_pass-length k (g ∷ gs) selected h = elim (Option-cases (get_elem? g.cases g.index)) [
  | inl e ↦ rw (e, run_pass) (run_pass-length k gs selected h)
  | inr (c, e) ↦
      let added = length-append selected (c ∷ []) in
      rw (e, run_pass) (ground (arith, added, run_pass-length k gs (selected ++ c ∷ [])))
]

run_pass-progress :
    (k : ℕ) (gs : List Lane) (selected : List TrainCase)
    → length selected < k
    → (run_pass k gs selected).progressed ≡ true
    → length selected < length (run_pass k gs selected).selected
unfolding run_pass
run_pass-progress k [] selected h p = cc
run_pass-progress k (g ∷ gs) selected h p = elim (Option-cases (get_elem? g.cases g.index)) [
  | inl e ↦
      let busy : (run_pass k gs selected).progressed ≡ true = rw (e, run_pass) at p in
      rw (e, run_pass) (run_pass-progress k gs selected h busy)
  | inr (c, e) ↦
      let added = length-append selected (c ∷ []) in
      rw (e, run_pass) (ground (arith, added, run_pass-length k gs (selected ++ c ∷ [])))
]

-- The passes fill the selection, or leave all lanes spent. They never overfill it.
pub run_passes-length :
    (fuel k : ℕ) (gs : List Lane) (selected : List TrainCase)
    → length selected ≤ k
    → k ≤ fuel + length selected
    → (length (run_passes fuel k gs selected).1 ≤ k)
      × ((k ≤ length (run_passes fuel k gs selected).1)
          ⊎ AreSpent (run_passes fuel k gs selected).0)
unfolding run_passes
run_passes-length zero k gs selected h enough = (h, inl (omega arith))
run_passes-length (suc fuel) k gs selected h enough = elim (Bool-cases (ltb (length selected) k)) [
  | inr full ↦ rw full (h, inl (ground arith))
  | inl room ↦
      let below : length selected < k = ltb→lt (length selected) k room in
      let pass = run_pass k gs selected in
      let size = run_pass-length k gs selected below in
      elim (Bool-cases pass.progressed) [
        | inr idle ↦ rw room (rw idle (size.1, inr (run_pass-spent k gs selected idle)))
        | inl busy ↦
            let grown = run_pass-progress k gs selected below busy in
            rw room
              (rw busy (run_passes-length fuel k pass.lanes pass.selected size.1 (omega arith)))
      ]
]

-- Filling up with cases that are not yet selected.
top_up-length :
    (k : ℕ) (ids : List String) (cs selected : List TrainCase)
    → length selected < k
    → All (λ c. mem_str c.id ids ≡ false) cs
    → length (top_up k ids cs selected) ≡ min k (length selected + length cs)
unfolding top_up
top_up-length k ids [] selected h new = omega arith
top_up-length k ids (c ∷ cs) selected h new =
    let added = length-append selected (c ∷ []) in
    ground (arith, added, top_up-length k ids cs (selected ++ c ∷ []))

abbrev has_id : String → TrainCase → Bool
has_id id c = str_eq c.id id

-- No id stands twice.
abbrev pub HasUniqueIds : List TrainCase → Type 0
HasUniqueIds cs = (id : String) → count_if (λ c. str_eq c.id id) cs ≤ 1

selected-count :
    (id : String) (xs : List TrainCase)
    → mem_str id (map (λ c. c.id) xs) ≡ true
    → 1 ≤ count_if (has_id id) xs
selected-count id [] h = ground arith
selected-count id (x ∷ xs) h = ground (arith, selected-count id xs)

-- Where two lists together have no id twice, no member of the one is in the other.
apart_ids :
    (xs cs : List TrainCase)
    → ((id : String) → count_if (has_id id) xs + count_if (has_id id) cs ≤ 1)
    → All (λ c. mem_str c.id (map (λ x. x.id) xs) ≡ false) cs
apart_ids xs [] h = tt
apart_ids xs (c ∷ cs) h = (
  ground (arith, h c.id, selected-count c.id xs, eq_iff c.id c.id),
  apart_ids xs cs (λ id. ground (arith, h id)),
)

pub length-take : {A : Type 0} (n : ℕ) (xs : List A) → length (take n xs) ≡ min n (length xs)
length-take zero xs = omega arith
length-take (suc n) [] = omega arith
length-take (suc n) (x ∷ xs) = omega (arith, length-take n xs)

fill-length :
    (k : ℕ) (fallback selected : List TrainCase)
    → length selected ≤ k
    → ((id : String) → count_if (has_id id) selected + count_if (has_id id) fallback ≤ 1)
    → length (fill k fallback selected) ≡ min k (length selected + length fallback)
fill-length k fallback selected h apart = ground (
  arith,
  top_up-length k (map (λ (c : TrainCase). c.id) selected) fallback selected,
  apart_ids selected fallback apart,
)

choose-length :
    (k : ℕ) (found : List Lane × List TrainCase)
    → AreFresh found.0
    → ((id : String) → sum_by (held (has_id id)) found.0 + count_if (has_id id) found.1 ≤ 1)
    → length (choose k found) ≡ min k (sum_by (held every) found.0 + length found.1)
unfolding choose
choose-length k ([], fallback) h apart = omega (arith, length-take k fallback)
choose-length k (g ∷ gs, fallback) h apart =
    let lanes = sort_by by_label (g ∷ gs) in
    let fresh = All-sort_by by_label _ (g ∷ gs) h in
    let final = run_passes k k lanes [] in
    let bound = run_passes-length k k lanes [] (omega arith) (omega arith) in
    let once : (id : String) → count_if (has_id id) final.1 + count_if (has_id id) fallback ≤ 1 =
      λ id. omega (
        arith,
        apart id,
        run_passes-taken (has_id id) k k lanes [],
        AreFresh-taken (has_id id) lanes fresh,
        taken-le-held (has_id id) final.0,
        run_passes-held (has_id id) k k lanes [],
        sort_by-sum_by by_label (held (has_id id)) (g ∷ gs),
      ) in
    ground (
      arith,
      length-take k (fill k fallback final.1),
      fill-length k fallback final.1 bound.0 once,
      count_if-every final.1,
      bound.1,
      run_passes-taken every k k lanes [],
      AreFresh-taken every lanes fresh,
      taken-le-held every final.0,
      run_passes-held every k k lanes [],
      sort_by-sum_by by_label (held every) (g ∷ gs),
    )

module _ (strip : String → String) where
  -- Of training cases with distinct ids the selection returns as many as asked for, or all of them
  -- where there are fewer.
  pub select_deterministic_few_shot_examples-length :
      (k : ℕ) (train_cases : List TrainCase)
      → HasUniqueIds train_cases
      → length (select_deterministic_few_shot_examples strip k train_cases)
        ≡ min k (length train_cases)
  unfolding select_deterministic_few_shot_examples
  select_deterministic_few_shot_examples-length k train_cases unique =
      let cs = sort_by by_id train_cases in
      let found = group_cases strip cs ([], []) in
      let once : (id : String)
          → sum_by (held (has_id id)) found.0 + count_if (has_id id) found.1 ≤ 1 =
        λ id. omega (
          arith,
          unique id,
          group_cases-held (has_id id) strip cs ([], []),
          count_if-sort_by (has_id id) by_id train_cases,
        ) in
      ground (
        arith,
        choose-length k found (group_cases-AreFresh strip cs ([], []) tt) once,
        group_cases-held every strip cs ([], []),
        count_if-sort_by every by_id train_cases,
        count_if-every train_cases,
        count_if-every found.1,
      )
