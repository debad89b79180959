-- ===== src/Baselines/Nearest.antt =====
-- `select_retrieval_examples` and `predict_with_knn`, over the distance that a numeric library
-- computes.
use rule_kiln.Prelude.{
  ℕ, Bool, false, Option, none, some, List, [], ◌∷◌, map, String, str_eq, str_lt, take, sort_by,
  lex, by_key, if◌then◌else◌, ◌>>=◌,
}
use rule_kiln.Numbers.{Floats}
use rule_kiln.Baselines.Examples.{TrainCase}

module _ {A B : Type 0} where
  -- `zip(xs, ys, strict=True)`: none is a `ValueError`.
  unfoldable pub zip_strict : List A → List B → Option (List (A × B))
  zip_strict [] [] = some []
  zip_strict [] (y ∷ ys) = none
  zip_strict (x ∷ xs) [] = none
  zip_strict (x ∷ xs) (y ∷ ys) = zip_strict xs ys >>= λ rest. some ((x, y) ∷ rest)

module _ (floats : Floats) {V : Type 0} (distance : V → V → floats.F) where
  open floats use {F, lt, of_ℕ, add, div}

  -- A training case with its distance from the query.
  pub record Candidate : Type 0 where
    pub distance_value : F
    pub case : TrainCase

  abbrev pub is_excluded : Option String → TrainCase → Bool
  is_excluded none c = false
  is_excluded (some id) c = str_eq c.id id

  abbrev pub candidate : V → V × TrainCase → Candidate
  candidate query (v, c) = record { distance_value = distance query v; case = c }

  unfoldable pub candidates_of : V → Option String → List (V × TrainCase) → List Candidate
  candidates_of query exclude [] = []
  candidates_of query exclude (p ∷ ps) =
      let rest = candidates_of query exclude ps in
      if is_excluded exclude p.1 then rest else candidate query p ∷ rest

  -- The key `(distance, id)`.
  abbrev pub is_nearer : Candidate → Candidate → Bool
  is_nearer = lex (by_key (λ n. n.distance_value) lt) (by_key (λ n. n.case.id) str_lt)

  unfoldable pub nearest : V → Option String → ℕ → List (V × TrainCase) → List Candidate
  unfolding candidates_of
  nearest query exclude k ps = take k (sort_by is_nearer (candidates_of query exclude ps))

  unfoldable pub select_retrieval_examples :
      V → List V → List TrainCase → ℕ → Option String → Option (List TrainCase)
  unfolding nearest zip_strict ◌>>=◌
  select_retrieval_examples query train_embeddings train_cases k exclude_case_id =
      zip_strict train_embeddings train_cases >>= λ ps.
      some (map (λ n. n.case) (nearest query exclude_case_id k ps))
