-- ===== src/Baselines/Tests.antt =====
-- Runs of the baseline strategies, and instances of their theorems.
use mathlib.Core.List.{Permᴰ}
use rule_kiln.Prelude.{
  ℕ, ◌≤◌, ◌-◌, ◌+◌, ◌≡◌, ◌≢◌, refl, none, some, List, [], ◌∷◌, String, map, length, sort_by, eq_iff,
  arith, ℤ, pos,
}
use rule_kiln.Numbers.Whole.{whole}
use rule_kiln.Evaluation.Cases.{TaskMode}
use rule_kiln.Pruning.Prune.{count_tokens_approx}
use rule_kiln.Baselines.Examples.{
  TrainCase, plain, select_deterministic_few_shot_examples, expected_label,
}
use rule_kiln.Baselines.Size.{HasUniqueIds, select_deterministic_few_shot_examples-length}
use rule_kiln.Baselines.Balance.{IsBalanced, select_deterministic_few_shot_examples-IsBalanced}
use rule_kiln.Baselines.Reorder.{select_deterministic_few_shot_examples-permᴰ}
use rule_kiln.Baselines.Budget.{
  IsLongest, few_shot_prompt, build_few_shot_prompt_with_budget,
  build_few_shot_prompt_with_budget-IsLongest,
}
use rule_kiln.Baselines.Nearest.{select_retrieval_examples}
use rule_kiln.Baselines.Votes.{predict_one, predict_with_knn}
use rule_kiln.Baselines.Majority.{votes_for, top_neighbors, predict_one-votes}

abbrev train_case : String → String → TrainCase
train_case name label = record {
  id = name;
  task_mode = TaskMode.classification;
  expected = plain label;
  input_json = "{}";
  output_json = "{}";
}

-- Three cases of one label, one of another, and one with none.
abbrev pool : List TrainCase
pool =
    train_case "c1" "refund"
    ∷ train_case "c4" ""
    ∷ train_case "c3" "refund"
    ∷ train_case "c2" "bug"
    ∷ train_case "c0" "refund"
    ∷ []

abbrev kept : String → String
kept s = s

abbrev chosen : ℕ → List String
chosen k = map (λ c. c.id) (select_deterministic_few_shot_examples kept k pool)

few_shot_run :
    (chosen 3 ≡ "c2" ∷ "c0" ∷ "c1" ∷ [])
    × (chosen 5 ≡ "c2" ∷ "c0" ∷ "c1" ∷ "c3" ∷ "c4" ∷ [])
    × (chosen 0 ≡ [])
unfolding select_deterministic_few_shot_examples expected_label sort_by
few_shot_run = (refl, refl, refl)

select_deterministic_few_shot_examples-IsBalanced_example :
    IsBalanced kept "refund" "bug" (select_deterministic_few_shot_examples kept 2 pool) pool
select_deterministic_few_shot_examples-IsBalanced_example =
    select_deterministic_few_shot_examples-IsBalanced kept "refund" "bug" 2 pool

abbrev pair : List TrainCase
pair = train_case "c1" "refund" ∷ train_case "c2" "bug" ∷ []

abbrev turned : List TrainCase
turned = train_case "c2" "bug" ∷ train_case "c1" "refund" ∷ []

ids_differ : (train_case "c1" "refund").id ≢ (train_case "c2" "bug").id
ids_differ e = ground (arith, eq_iff "c1" "c2")

pair-HasUniqueIds : HasUniqueIds pair
pair-HasUniqueIds id = ground (arith, eq_iff "c1" id, eq_iff "c2" id, eq_iff "c1" "c2")

select_deterministic_few_shot_examples-length_example :
    length (select_deterministic_few_shot_examples kept 1 pair) ≡ 1
select_deterministic_few_shot_examples-length_example =
    select_deterministic_few_shot_examples-length kept 1 pair pair-HasUniqueIds

select_deterministic_few_shot_examples-permᴰ_example :
    select_deterministic_few_shot_examples kept 3 pair
    ≡ select_deterministic_few_shot_examples kept 3 turned
select_deterministic_few_shot_examples-permᴰ_example =
    select_deterministic_few_shot_examples-permᴰ kept 3
      (Permᴰ.swap {a = train_case "c1" "refund"} {b = train_case "c2" "bug"} {l = []} refl refl)
      ((ids_differ, tt), (tt, tt))

-- With room for one example of two, the first is used.
budget_run : (build_few_shot_prompt_with_budget "base" pair 40).2 ≡ train_case "c1" "refund" ∷ []
unfolding build_few_shot_prompt_with_budget few_shot_prompt count_tokens_approx
budget_run = refl

build_few_shot_prompt_with_budget-IsLongest_example :
    IsLongest "base" 40 pair (build_few_shot_prompt_with_budget "base" pair 40)
build_few_shot_prompt_with_budget-IsLongest_example =
    build_few_shot_prompt_with_budget-IsLongest "base" pair 40

-- Embeddings of one whole number.
abbrev gap : ℕ → ℕ → ℤ
gap a b = pos ((a - b) + (b - a))

retrieval_run :
    (select_retrieval_examples whole gap 5 (7 ∷ 4 ∷ []) pair 5 none ≡ some turned)
    × (select_retrieval_examples whole gap 5 (7 ∷ 4 ∷ []) pair 5 (some "c1")
        ≡ some (train_case "c2" "bug" ∷ []))
unfolding select_retrieval_examples sort_by
retrieval_run = (refl, refl)

-- The nearest case is a bug; two of the three nearest are refunds.
knn_run :
    (predict_with_knn whole gap (5 ∷ 7 ∷ 2 ∷ []) ("bug" ∷ "refund" ∷ "refund" ∷ []) (4 ∷ []) 3 none
      ≡ some ("refund" ∷ []))
    × (predict_with_knn whole gap
          (5 ∷ 7 ∷ 2 ∷ [])
          ("bug" ∷ "refund" ∷ "refund" ∷ [])
          (4 ∷ [])
          1
          none
        ≡ some ("bug" ∷ []))
unfolding predict_with_knn sort_by
knn_run = (refl, refl)

abbrev three : List (ℕ × (String × String))
three = (5, ("0", "bug")) ∷ (7, ("1", "refund")) ∷ (2, ("2", "refund")) ∷ []

predict_one-votes_example :
    votes_for whole gap "bug" (top_neighbors whole gap three 3 4)
    ≤ votes_for whole gap (predict_one whole gap three 3 4) (top_neighbors whole gap three 3 4)
predict_one-votes_example = predict_one-votes whole gap three 3 4 "bug"
