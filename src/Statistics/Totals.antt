-- ===== src/Statistics/Totals.antt =====
-- What the label counts add up to.
use rule_kiln.Prelude.{
  ℕ, ◌+◌, ◌≡◌, refl, ap, sym, ◌∙◌, Bool, true, false, ◌&&◌, List, [], ◌∷◌, ◌++◌, map, String,
  str_eq, eq_iff, str_lt, sort_by-sum_by, count_if, sum_by, length, mem_str, arith, All, All-imp,
  Bool-cases, inl, inr, if_elim,
}
use rule_kiln.Evaluation.Gates.{set_of}
use rule_kiln.Evaluation.Regressions.{mem-set_of}
use rule_kiln.Statistics.Labels.{
  Pair, LabelCounts, no_counts, one_if, counted, tally, label_set, correct_count,
}

-- What a tally has added.
tally-counts :
    (label : String) (c : LabelCounts) (ps : List Pair)
    → let t = tally label c ps in
      (t.support ≡ c.support + count_if (λ p. str_eq p.0 label) ps)
      × (t.true_positive
          ≡ c.true_positive + count_if (λ p. str_eq p.0 label && str_eq p.1 label) ps)
      × (t.false_positive + t.true_positive
          ≡ c.false_positive + c.true_positive + count_if (λ p. str_eq p.1 label) ps)
      × (t.true_positive + t.false_negative + c.support
          ≡ c.true_positive + c.false_negative + t.support)
unfolding tally
tally-counts label c [] = (omega arith, omega arith, omega arith, omega arith)
tally-counts label c (p ∷ ps) =
    let h = tally-counts label (counted label p c) ps in
    (ground (arith, h.0), ground (arith, h.1), ground (arith, h.2), ground (arith, h.3))

abbrev IsDistinct : List String → Type 0
IsDistinct [] = Unit
IsDistinct (x ∷ xs) = (mem_str x xs ≡ false) × IsDistinct xs

set_of-IsDistinct : (xs : List String) → IsDistinct (set_of xs)
unfolding set_of
set_of-IsDistinct [] = tt
set_of-IsDistinct (x ∷ xs) =
    let rest = set_of-IsDistinct xs in
    if_elim IsDistinct (mem_str x (set_of xs)) (λ _. rest) (λ new. (new, rest))

str_eq_comm : (s t : String) → str_eq s t ≡ str_eq t s
str_eq_comm s t = ground (arith, eq_iff s t, eq_iff t s, sym {a = s} {b = t}, sym {a = t} {b = s})

-- How often a test holds of the members of a list.
hits_none :
    (x : String) (q : String → Bool) (xs : List String)
    → mem_str x xs ≡ false
    → sum_by (λ l. one_if (str_eq x l && q l)) xs ≡ 0
hits_none x q [] h = refl
hits_none x q (y ∷ ys) h = ground (arith, hits_none x q ys, str_eq_comm x y)

hits_once :
    (x : String) (q : String → Bool) (xs : List String)
    → IsDistinct xs
    → mem_str x xs ≡ true
    → sum_by (λ l. one_if (str_eq x l && q l)) xs ≡ one_if (q x)
hits_once x q [] d h = ground arith
hits_once x q (y ∷ ys) d h = elim (Bool-cases (str_eq y x)) [
  | inl same ↦
      let e : y ≡ x = (eq_iff y x).0 same in
      let gone : mem_str x ys ≡ false = ap (λ k. mem_str k ys) (sym e) ∙ d.0 in
      let value : q y ≡ q x = ap q e in
      ground (arith, hits_none x q ys gone, str_eq_comm x y, same, value)
  | inr other ↦ ground (arith, hits_once x q ys d.1, str_eq_comm x y, other)
]

sum_congr {ℓ} :
    {A : Type ℓ} (f g : A → ℕ) (xs : List A) → ((x : A) → f x ≡ g x) → sum_by f xs ≡ sum_by g xs
sum_congr f g [] h = refl
sum_congr f g (x ∷ xs) h = omega (arith, h x, sum_congr f g xs h)

spread :
    (q : String → Pair → Bool) (p : Pair) (ps : List Pair) (xs : List String)
    → sum_by (λ l. count_if (q l) (p ∷ ps)) xs
      ≡ sum_by (λ l. one_if (q l p)) xs + sum_by (λ l. count_if (q l) ps) xs
spread q p ps [] = omega arith
spread q p ps (x ∷ xs) = ground (arith, spread q p ps xs)

-- Each pair is counted under its actual label and no other.
counted_once :
    (r : Pair → String → Bool) (xs : List String) (ps : List Pair)
    → IsDistinct xs
    → All (λ p. mem_str p.0 xs ≡ true) ps
    → sum_by (λ l. count_if (λ p. str_eq p.0 l && r p l) ps) xs ≡ count_if (λ p. r p p.0) ps
counted_once r [] [] d h = refl
counted_once r (x ∷ xs) [] d h = omega (arith, counted_once r xs [] d.1 tt)
counted_once r xs (p ∷ ps) d h = ground (
  arith,
  spread (λ l p. str_eq p.0 l && r p l) p ps xs,
  hits_once p.0 (r p) xs d h.0,
  counted_once r xs ps d h.1,
)

mem_left : (x : String) (xs ys : List String) → mem_str x xs ≡ true → mem_str x (xs ++ ys) ≡ true
mem_left x [] ys h = ground arith
mem_left x (y ∷ xs) ys h = ground (arith, mem_left x xs ys)

own_labels : (ps : List Pair) → All (λ p. mem_str p.0 (map (λ p. p.0) ps) ≡ true) ps
own_labels [] = tt
own_labels (p ∷ ps) =
    (ground (arith, eq_iff p.0 p.0), All-imp ps (λ q h. ground (arith, h)) (own_labels ps))

count_all : (ps : List Pair) → count_if (λ p. true) ps ≡ length ps
count_all [] = refl
count_all (p ∷ ps) = omega (arith, count_all ps)

count_and :
    (l : String) (ps : List Pair)
    → count_if (λ p. str_eq p.0 l) ps ≡ count_if (λ p. str_eq p.0 l && true) ps
count_and l [] = refl
count_and l (p ∷ ps) = ground (arith, count_and l ps)

count_swapped :
    (ps : List Pair) → count_if (λ p. str_eq p.1 p.0) ps ≡ count_if (λ p. str_eq p.0 p.1) ps
count_swapped [] = refl
count_swapped (p ∷ ps) = ground (arith, count_swapped ps, str_eq_comm p.0 p.1)

-- The supports of all labels add up to the number of pairs, and their true positives to the number
-- of correct predictions, which accuracy divides.
pub label_totals :
    (ps : List Pair)
    → (sum_by (λ l. (tally l no_counts ps).support) (label_set ps) ≡ length ps)
      × (sum_by (λ l. (tally l no_counts ps).true_positive) (label_set ps) ≡ correct_count ps)
unfolding label_set correct_count
label_totals ps =
    let labels = map (λ p. p.0) ps ++ map (λ p. p.1) ps in
    let names = set_of labels in
    let known : All (λ p. mem_str p.0 names ≡ true) ps =
      All-imp ps
        (λ p h. mem-set_of p.0 labels ∙ mem_left p.0 (map (λ p. p.0) ps) (map (λ p. p.1) ps) h)
        (own_labels ps) in
    let once =
      λ (r : Pair → String → Bool). counted_once r names ps (set_of-IsDistinct labels) known in
    (
      sort_by-sum_by str_lt _ names
          ∙ sum_congr _ (λ l. count_if (λ p. str_eq p.0 l && true) ps) names
              (λ l. omega (arith, (tally-counts l no_counts ps).0, count_and l ps))
          ∙ once (λ _ _. true)
          ∙ count_all ps,
      sort_by-sum_by str_lt _ names
          ∙ sum_congr _ (λ l. count_if (λ p. str_eq p.0 l && str_eq p.1 l) ps) names
              (λ l. omega (arith, (tally-counts l no_counts ps).1))
          ∙ once (λ p l. str_eq p.1 l)
          ∙ count_swapped ps,
    )

-- Of a label's counts, the support is the number of its cases and splits into true positives and
-- false negatives, and the true and false positives are its predictions.
pub label_counts_lem :
    (label : String) (ps : List Pair)
    → let c = tally label no_counts ps in
      (c.support ≡ count_if (λ p. str_eq p.0 label) ps)
      × (c.true_positive + c.false_negative ≡ c.support)
      × (c.true_positive + c.false_positive ≡ count_if (λ p. str_eq p.1 label) ps)
label_counts_lem label ps =
    let h = tally-counts label no_counts ps in
    (omega (arith, h.0), omega (arith, h.3), omega (arith, h.2))
