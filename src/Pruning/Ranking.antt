-- ===== src/Pruning/Ranking.antt =====
-- The scores by which `prune_rules` ranks rules, and the order of each ranking mode.

use rule_kiln.Prelude.{
  ℕ, Bool, Option, none, some, List, [], ◌∷◌, map, String, str_eq, ltb, ltb_ℤ, length, lex, by_key,
  IsStrictOrder, by_key-IsStrictOrder, lex-IsStrictOrder, if◌then◌else◌, ◌==◌, arith,
}
use mathlib.Core.List.{foldl}
use rule_kiln.Numbers.{Floats}
use rule_kiln.Rules.{Rule}

pub data PruningMode : Type 0 where
  support_count utility utility_per_token anchor_utility : PruningMode
  mean_classroom_utility worst_student_utility : PruningMode

-- A dictionary from rule ids to (fixed, broken) counts, and one such for each student. An absent
-- dictionary is an empty one: the code treats both alike.
abbrev pub UtilitySignals : Type 0
UtilitySignals = List (String × (ℕ × ℕ))

abbrev pub ClassroomUtilitySignals : Type 0
ClassroomUtilitySignals = List (String × UtilitySignals)

unfoldable pub lookup {ℓ} : {V : Type ℓ} → String → List (String × V) → Option V
lookup k [] = none
lookup k ((j, v) ∷ d) = if str_eq j k then some v else lookup k d

-- `n or 1`
abbrev pub or_one : ℕ → ℕ
or_one n = if n == 0 then 1 else n

module _ (floats : Floats) where
  open floats use {F, lt, of_ℕ, neg, add, sub, mul, div}

  abbrev pub score_of : F → ℕ → Option (ℕ × ℕ) → F
  score_of penalty support none = of_ℕ support
  score_of penalty support (some (fixed, broken)) = sub (of_ℕ fixed) (mul penalty (of_ℕ broken))

  unfoldable pub utility_score : F → UtilitySignals → Rule F → F
  utility_score penalty signals r = score_of penalty r.support_count (lookup r.id signals)

  unfoldable pub utility_per_token_score : F → UtilitySignals → Rule F → F
  utility_per_token_score penalty signals r =
      div (utility_score penalty signals r) (of_ℕ (or_one r.estimated_token_count))

  abbrev pub per_student : F → ClassroomUtilitySignals → Rule F → List F
  per_student penalty classroom r = map (λ e. utility_score penalty e.1 r) classroom

  abbrev pub mean_or : F → List F → F
  mean_or default [] = default
  mean_or default (x ∷ xs) = div (foldl add (of_ℕ 0) (x ∷ xs)) (of_ℕ (length (x ∷ xs)))

  -- Python's `min`: the first of the least.
  abbrev pub min_or : F → List F → F
  min_or default [] = default
  min_or default (x ∷ xs) = foldl (λ least y. if lt y least then y else least) x xs

  unfoldable pub mean_classroom_utility_score : F → ClassroomUtilitySignals → Rule F → F
  mean_classroom_utility_score penalty classroom r =
      mean_or (of_ℕ r.support_count) (per_student penalty classroom r)

  unfoldable pub worst_student_utility_score : F → ClassroomUtilitySignals → Rule F → F
  worst_student_utility_score penalty classroom r =
      min_or (of_ℕ r.support_count) (per_student penalty classroom r)

  abbrev pub by_priority : Rule F → Rule F → Bool
  by_priority = by_key (λ r. r.priority) ltb_ℤ

  -- The key `(r.priority, -score(r))`.
  abbrev pub by_score : (Rule F → F) → Rule F → Rule F → Bool
  by_score score = lex by_priority (by_key (λ r. neg (score r)) lt)

  -- `-a < -b` on counts.
  abbrev pub gtb : ℕ → ℕ → Bool
  gtb a b = ltb b a

  -- The test `key(x) < key(y)` of a ranking mode.
  unfoldable pub ranks_before :
      PruningMode → F → UtilitySignals → ClassroomUtilitySignals → Rule F → Rule F → Bool
  ranks_before PruningMode.utility penalty signals classroom =
      by_score (utility_score penalty signals)
  ranks_before PruningMode.anchor_utility penalty signals classroom =
      by_score (utility_score penalty signals)
  ranks_before PruningMode.utility_per_token penalty signals classroom =
      by_score (utility_per_token_score penalty signals)
  ranks_before PruningMode.mean_classroom_utility penalty signals classroom =
      by_score (mean_classroom_utility_score penalty classroom)
  ranks_before PruningMode.worst_student_utility penalty signals classroom =
      by_score (worst_student_utility_score penalty classroom)
  ranks_before PruningMode.support_count penalty signals classroom =
      lex by_priority
        (lex (by_key (λ r. r.support_count) gtb) (by_key (λ r. neg r.support_ratio) lt))

  ltb_ℤ-IsStrictOrder : IsStrictOrder ltb_ℤ
  ltb_ℤ-IsStrictOrder = record {
    asymm = λ x y h. ground arith;
    not_before_trans = λ x y z h k. ground arith;
  }

  gtb-IsStrictOrder : IsStrictOrder gtb
  gtb-IsStrictOrder = record {
    asymm = λ x y h. ground arith;
    not_before_trans = λ x y z h k. ground arith;
  }

  by_priority-IsStrictOrder : IsStrictOrder by_priority
  by_priority-IsStrictOrder = by_key-IsStrictOrder (λ r. r.priority) ltb_ℤ-IsStrictOrder

  by_score-IsStrictOrder : (score : Rule F → F) → IsStrictOrder (by_score score)
  by_score-IsStrictOrder score =
      lex-IsStrictOrder by_priority-IsStrictOrder
        (by_key-IsStrictOrder (λ r. neg (score r)) floats.lt_order)

  -- In every mode the ranking is a strict order on keys.
  pub ranks_before-IsStrictOrder :
      (mode : PruningMode) (penalty : F) (signals : UtilitySignals)
      (classroom : ClassroomUtilitySignals)
      → IsStrictOrder (ranks_before mode penalty signals classroom)
  unfolding ranks_before
  ranks_before-IsStrictOrder PruningMode.support_count penalty signals classroom =
      lex-IsStrictOrder by_priority-IsStrictOrder (
        lex-IsStrictOrder (by_key-IsStrictOrder (λ r. r.support_count) gtb-IsStrictOrder)
          (by_key-IsStrictOrder (λ r. neg r.support_ratio) floats.lt_order))
  ranks_before-IsStrictOrder PruningMode.utility penalty signals classroom =
      by_score-IsStrictOrder (utility_score penalty signals)
  ranks_before-IsStrictOrder PruningMode.anchor_utility penalty signals classroom =
      by_score-IsStrictOrder (utility_score penalty signals)
  ranks_before-IsStrictOrder PruningMode.utility_per_token penalty signals classroom =
      by_score-IsStrictOrder (utility_per_token_score penalty signals)
  ranks_before-IsStrictOrder PruningMode.mean_classroom_utility penalty signals classroom =
      by_score-IsStrictOrder (mean_classroom_utility_score penalty classroom)
  ranks_before-IsStrictOrder PruningMode.worst_student_utility penalty signals classroom =
      by_score-IsStrictOrder (worst_student_utility_score penalty classroom)
