-- ===== src/Prelude/Counts.antt =====
-- How often a list of texts names one.
use Prim.Native.Nat.{ℕ, ◌+◌}
use Prim.Native.String.{String}
use mathlib.Core.Path.{◌≡◌, refl, ap}
use mathlib.Core.Bool.{Bool, true, false}
use mathlib.Core.List.{List, [], ◌∷◌, ◌++◌}
use native.Mathlib.Omega.{arith}
use text.Mathlib.Text.{◌==◌ as str_eq}
use text.Mathlib.TextEquality.{eq_iff}
use rule_kiln.Prelude.Tests.{if◌then◌else◌}
use rule_kiln.Prelude.Lists.{keep, count_if, mem_str}

-- How often a list names an id.
abbrev pub times : String → List String → ℕ
times k xs = count_if (λ y. str_eq y k) xs

pub times-append : (k : String) (xs ys : List String) → times k (xs ++ ys) ≡ times k xs + times k ys
times-append k [] ys = omega arith
times-append k (x ∷ xs) ys = ground (arith, times-append k xs ys)

pub times-absent : (k : String) (xs : List String) → mem_str k xs ≡ false → times k xs ≡ 0
times-absent k [] h = refl
times-absent k (x ∷ xs) h = ground (arith, times-absent k xs)

pub times-keep :
    (k : String) (p : String → Bool) (xs : List String)
    → times k (keep p xs) ≡ (if p k then times k xs else 0)
times-keep k p [] = ground arith
times-keep k p (x ∷ xs) =
    let same : str_eq x k ≡ true → p x ≡ p k = λ e. ap p ((eq_iff x k).0 e) in
    ground (arith, times-keep k p xs, same)

-- Just the texts that pass a test, each once.
abbrev pub IsSetOf : (String → Bool) → List String → Type 0
IsSetOf p xs = (k : String) → times k xs ≡ (if p k then 1 else 0)
