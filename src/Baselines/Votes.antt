-- ===== src/Baselines/Votes.antt =====
-- `predict_with_knn`: the label that most of the nearest training cases have.
use Prim.Native.Nat.{max}
use rule_kiln.Prelude.{
  ℕ, zero, suc, Bool, Option, none, some, List, [], ◌∷◌, map, String, str_eq, str_lt, length, take,
  keep, sort_by, lex, by_key, leb, if◌then◌else◌, ◌==◌, ◌>>=◌, decimal,
}
use rule_kiln.Numbers.{Floats}
use rule_kiln.Baselines.Nearest.{zip_strict}

module _ (floats : Floats) {V : Type 0} (distance : V → V → floats.F) where
  open floats use {F, lt, of_ℕ, add, div}

  pub record Neighbor : Type 0 where
    pub distance_value : F
    pub case_id : String
    pub label : String

  -- The entries of `vote_counts` and `vote_distance_sum` under one label.
  pub record Vote : Type 0 where
    pub label : String
    pub count : ℕ
    pub distance_sum : F

  unfoldable pub add_vote : Neighbor → List Vote → List Vote
  add_vote n [] =
      record { label = n.label; count = 1; distance_sum = add (of_ℕ 0) n.distance_value } ∷ []
  add_vote n (v ∷ vs) =
      if str_eq v.label n.label
      then record v { count = suc v.count; distance_sum = add v.distance_sum n.distance_value } ∷ vs
      else v ∷ add_vote n vs

  unfoldable pub count_votes : List Neighbor → List Vote → List Vote
  unfolding add_vote
  count_votes [] votes = votes
  count_votes (n ∷ ns) votes = count_votes ns (add_vote n votes)

  -- `max(vote_counts.values())`
  unfoldable pub best_count : List Vote → ℕ
  best_count [] = 0
  best_count (v ∷ vs) = max v.count (best_count vs)

  -- The key `(mean distance, label)`.
  abbrev pub is_closer : Vote → Vote → Bool
  is_closer =
      lex (by_key (λ v. div v.distance_sum (of_ℕ v.count)) lt) (by_key (λ v. v.label) str_lt)

  abbrev pub first_label : List Vote → String
  first_label [] = ""
  first_label (v ∷ vs) = v.label

  unfoldable pub elect : List Neighbor → String
  unfolding count_votes best_count
  elect top =
      let votes = count_votes top [] in
      first_label (sort_by is_closer (keep (λ v. v.count == best_count votes) votes))

  abbrev pub is_nearer_neighbor : Neighbor → Neighbor → Bool
  is_nearer_neighbor =
      lex (by_key (λ n. n.distance_value) lt)
        (lex (by_key (λ n. n.case_id) str_lt) (by_key (λ n. n.label) str_lt))

  abbrev pub neighbor : V → V × (String × String) → Neighbor
  neighbor query (v, (id, label)) = record {
    distance_value = distance query v;
    case_id = id;
    label = label;
  }

  -- The label of one query.
  unfoldable pub predict_one : List (V × (String × String)) → ℕ → V → String
  unfolding elect
  predict_one train k query =
      elect (take k (sort_by is_nearer_neighbor (map (neighbor query) train)))

  -- `[str(i) for i in range(n)]`, from an index on.
  unfoldable pub index_ids : ℕ → ℕ → List String
  unfolding decimal
  index_ids i zero = []
  index_ids i (suc n) = decimal i ∷ index_ids (suc i) n

  unfoldable pub resolved_train_ids : Option (List String) → ℕ → List String
  unfolding index_ids
  resolved_train_ids none n = index_ids 0 n
  resolved_train_ids (some ids) n = if length ids == n then ids else index_ids 0 n

  abbrev pub blank : List V → List String
  blank queries = map (λ _. "") queries

  -- The loop over the queries; the `zip` in it raises for the first of them.
  abbrev pub predict_all : List V → List String → List String → ℕ → List V → Option (List String)
  predict_all vectors ids labels k [] = some []
  predict_all vectors ids labels k (q ∷ qs) = zip_strict ids labels >>= λ tags.
      zip_strict vectors tags >>= λ train. some (map (predict_one train k) (q ∷ qs))

  unfoldable pub predict_with_knn :
      List V → List String → List V → ℕ → Option (List String) → Option (List String)
  unfolding predict_one zip_strict ◌>>=◌ resolved_train_ids
  predict_with_knn [] labels queries k ids = some (blank queries)
  predict_with_knn (v ∷ vs) [] queries k ids = some (blank queries)
  predict_with_knn (v ∷ vs) (l ∷ ls) queries k ids =
      if leb k 0
      then some (blank queries)
      else predict_all (v ∷ vs) (resolved_train_ids ids (length (v ∷ vs))) (l ∷ ls) k queries
