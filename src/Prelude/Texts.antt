-- ===== src/Prelude/Texts.antt =====
-- The order of texts by code points, as Python's `<` has it: strict, and total on different texts.
use Prim.Native.Nat.{compare as compare_ℕ, Ordering}
use Prim.Native.Char.{Char, code}
use Prim.Native.String.{String, then, compare}
use Prim.Native.String.compare as compare
use mathlib.Core.Path.{◌≡◌, refl}
use mathlib.Core.Logic.{◌≢◌, ◌⊎◌, inl, inr}
use mathlib.Core.Bool.{true, false}
use native.Mathlib.Omega.{arith}
use text.Mathlib.TextEquality.{path_by_compare}
use rule_kiln.Prelude.Tests.{str_lt}
use rule_kiln.Prelude.Sorting.{IsStrictOrder}

compare-cons-cons :
    (c d : Char) (s t : String)
    → compare (String.◌∷◌ c s) (String.◌∷◌ d t) ≡ then (compare_ℕ (code c) (code d)) (compare s t)
compare-cons-cons c d s t i = compare.cons-cons c d s t i

compare-nil-cons : (d : Char) (t : String) → compare String.[] (String.◌∷◌ d t) ≡ Ordering.lt
compare-nil-cons d t i = compare.nil-cons d t i

compare-cons-nil : (d : Char) (t : String) → compare (String.◌∷◌ d t) String.[] ≡ Ordering.gt
compare-cons-nil d t i = compare.cons-nil d t i

str_lt_asymm : (s t : String) → str_lt s t ≡ true → str_lt t s ≡ false
str_lt_asymm String.[] String.[] h = refl
str_lt_asymm String.[] (String.◌∷◌ d t) h = ground (arith, compare-cons-nil d t)
str_lt_asymm (String.◌∷◌ c s) String.[] h = ground (arith, compare-cons-nil c s)
str_lt_asymm (String.◌∷◌ c s) (String.◌∷◌ d t) h =
    ground (arith, compare-cons-cons c d s t, compare-cons-cons d c t s, str_lt_asymm s t)

not_str_lt_trans : (s t u : String) → str_lt t s ≡ false → str_lt u t ≡ false → str_lt u s ≡ false
not_str_lt_trans String.[] t String.[] h k = refl
not_str_lt_trans String.[] t (String.◌∷◌ e u) h k = ground (arith, compare-cons-nil e u)
not_str_lt_trans (String.◌∷◌ c s) String.[] u h k = ground (arith, compare-nil-cons c s)
not_str_lt_trans (String.◌∷◌ c s) (String.◌∷◌ d t) String.[] h k =
    ground (arith, compare-nil-cons d t)
not_str_lt_trans (String.◌∷◌ c s) (String.◌∷◌ d t) (String.◌∷◌ e u) h k = ground (
  arith,
  compare-cons-cons d c t s,
  compare-cons-cons e d u t,
  compare-cons-cons e c u s,
  not_str_lt_trans s t u,
)

pub str_lt-IsStrictOrder : IsStrictOrder str_lt
str_lt-IsStrictOrder = record { asymm = str_lt_asymm; not_before_trans = not_str_lt_trans }

gt_flips : (s t : String) → compare s t ≡ Ordering.gt → compare t s ≡ Ordering.lt
gt_flips String.[] String.[] h = ground arith
gt_flips String.[] (String.◌∷◌ d t) h = ground (arith, compare-nil-cons d t)
gt_flips (String.◌∷◌ c s) String.[] h = compare-nil-cons c s
gt_flips (String.◌∷◌ c s) (String.◌∷◌ d t) h =
    ground (arith, compare-cons-cons c d s t, compare-cons-cons d c t s, gt_flips s t)

pub str_lt_total : (s t : String) → s ≢ t → (str_lt s t ≡ true) ⊎ (str_lt t s ≡ true)
str_lt_total s t d = by_answer (compare s t) refl
  where
    by_answer : (o : Ordering) → compare s t ≡ o → (str_lt s t ≡ true) ⊎ (str_lt t s ≡ true)
    by_answer Ordering.lt e = inl (rw (e, str_lt) refl)
    by_answer Ordering.eq e = absurd (d (path_by_compare s t e))
    by_answer Ordering.gt e = inr (rw (gt_flips s t e, str_lt) refl)
