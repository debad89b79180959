-- ===== src/Baselines/Reorder.antt =====
-- The few-shot selection does not depend on the order of the training cases.
use mathlib.Core.List.{Permᴰ}
use rule_kiln.Prelude.{
  ℕ, List, [], ◌∷◌, String, ◌≡◌, ◌≢◌, All-imp, Pairs, Apart, sort_by-permᴰ, str_lt_total,
  by_key-IsStrictOrder, str_lt-IsStrictOrder,
}
use rule_kiln.Baselines.Examples.{TrainCase, by_id, select_deterministic_few_shot_examples}

-- No two cases have one id.
abbrev pub HasDistinctIds : List TrainCase → Type 0
HasDistinctIds cs = Pairs (λ c d. c.id ≢ d.id) cs

HasDistinctIds-Apart : (cs : List TrainCase) → HasDistinctIds cs → Pairs (Apart by_id) cs
HasDistinctIds-Apart [] h = tt
HasDistinctIds-Apart (c ∷ cs) h =
    (All-imp cs (λ d differs. str_lt_total c.id d.id differs) h.0, HasDistinctIds-Apart cs h.1)

-- Training cases with distinct ids give the same examples in the same order, however they come.
pub select_deterministic_few_shot_examples-permᴰ :
    (strip : String → String) (k : ℕ) {train_cases train_cases' : List TrainCase}
    → Permᴰ train_cases train_cases'
    → HasDistinctIds train_cases
    → select_deterministic_few_shot_examples strip k train_cases
      ≡ select_deterministic_few_shot_examples strip k train_cases'
unfolding select_deterministic_few_shot_examples
select_deterministic_few_shot_examples-permᴰ strip k {train_cases} moved distinct = rw (
    sort_by-permᴰ by_id (by_key-IsStrictOrder (λ c. c.id) str_lt-IsStrictOrder) moved
      (HasDistinctIds-Apart train_cases distinct))
