-- ===== src/Baselines/Majority.antt =====
-- The label that the neighbours elect has the most votes.

use rule_kiln.Prelude.{
  ℕ, suc, ◌+◌, ◌≤◌, ◌≡◌, refl, true, false, List, [], ◌∷◌, map, String, str_eq, eq_iff, length,
  take, keep, count_if, sum_by, sort_by, if◌then◌else◌, ◌==◌, arith, All, All-imp, All-keep,
  All-keep_of, All-sort_by, All-zip, sort_by-length,
}
use rule_kiln.Numbers.{Floats}
use rule_kiln.Baselines.Votes.{
  Neighbor, Vote, add_vote, count_votes, best_count, is_closer, elect, first_label,
  is_nearer_neighbor, neighbor, predict_one,
}

module _ (floats : Floats) {V : Type 0} (distance : V → V → floats.F) where
  -- The votes for a label.
  abbrev pub votes_for : String → List (Neighbor floats distance) → ℕ
  votes_for label ns = count_if (λ n. str_eq n.label label) ns

  -- The entries say how many votes each label has.
  abbrev counted : String → List (Vote floats distance) → ℕ
  counted label votes = sum_by (λ v. if str_eq v.label label then v.count else 0) votes

  counted-add_vote :
      (label : String) (n : (Neighbor floats distance)) (votes : List (Vote floats distance))
      → counted label (add_vote floats distance n votes)
        ≡ (if str_eq n.label label then suc (counted label votes) else counted label votes)
  unfolding add_vote
  counted-add_vote label n [] = ground arith
  counted-add_vote label n (v ∷ vs) = ground (
    arith,
    eq_iff v.label n.label,
    eq_iff v.label label,
    eq_iff n.label label,
    counted-add_vote label n vs,
  )

  counted-count_votes :
      (label : String) (ns : List (Neighbor floats distance)) (votes : List (Vote floats distance))
      → counted label (count_votes floats distance ns votes)
        ≡ votes_for label ns + counted label votes
  unfolding count_votes
  counted-count_votes label [] votes = omega arith
  counted-count_votes label (n ∷ ns) votes = ground (
    arith,
    counted-add_vote label n votes,
    counted-count_votes label ns (add_vote floats distance n votes),
  )

  -- The entries of a label.
  abbrev entries_of : String → List (Vote floats distance) → ℕ
  entries_of label votes = sum_by (λ v. if str_eq v.label label then 1 else 0) votes

  entries_of-add_vote :
      (a : String) (n : Neighbor floats distance) (vs : List (Vote floats distance))
      → entries_of a vs ≤ 1
      → entries_of a (add_vote floats distance n vs) ≤ 1
        × (str_eq n.label a ≡ false
            → entries_of a (add_vote floats distance n vs) ≡ entries_of a vs)
  unfolding add_vote
  entries_of-add_vote a n [] h = ground arith
  entries_of-add_vote a n (v ∷ vs) h = ground (
    arith,
    eq_iff v.label n.label,
    eq_iff n.label a,
    eq_iff v.label a,
    entries_of-add_vote a n vs,
  )

  count_votes-once :
      (a : String) (ns : List (Neighbor floats distance)) (vs : List (Vote floats distance))
      → entries_of a vs ≤ 1
      → entries_of a (count_votes floats distance ns vs) ≤ 1
  unfolding count_votes
  count_votes-once a [] vs h = h
  count_votes-once a (n ∷ ns) vs h =
      count_votes-once a ns (add_vote floats distance n vs) (entries_of-add_vote a n vs h).0

  counted_absent :
      (a : String) (vs : List (Vote floats distance)) → entries_of a vs ≡ 0 → counted a vs ≡ 0
  counted_absent a [] h = refl
  counted_absent a (v ∷ vs) h = ground (arith, counted_absent a vs)

  counted-le-best_count :
      (a : String) (vs : List (Vote floats distance))
      → entries_of a vs ≤ 1
      → counted a vs ≤ best_count floats distance vs
  unfolding best_count
  counted-le-best_count a [] h = omega arith
  counted-le-best_count a (v ∷ vs) h =
      ground (arith, counted_absent a vs, counted-le-best_count a vs)

  own_votes : (vs : List (Vote floats distance)) → All (λ v. v.count ≤ counted v.label vs) vs
  own_votes [] = tt
  own_votes (v ∷ vs) =
      (ground (arith, eq_iff v.label v.label), All-imp vs (λ u h. ground (arith, h)) (own_votes vs))

  some_tied :
      (b : ℕ) (v : Vote floats distance) (vs : List (Vote floats distance))
      → b ≡ best_count floats distance (v ∷ vs)
      → 1 ≤ length (keep (λ (u : Vote floats distance). u.count == b) (v ∷ vs))
  unfolding best_count
  some_tied b v [] h = ground arith
  some_tied b v (u ∷ us) h = ground (arith, some_tied b u us)

  -- The label of the head of a list of entries that are tied for the best and none of which has more
  -- than its votes.
  first_label-votes :
      (votes tied : List (Vote floats distance)) (b : ℕ)
      → 1 ≤ length tied
      → All (λ v. ((v.count == b) ≡ true) × (v.count ≤ counted v.label votes)) tied
      → b ≤ counted (first_label floats distance tied) votes
  first_label-votes votes [] b h all = absurd (omega arith)
  first_label-votes votes (v ∷ vs) b h all = ground (arith, all.0)

  best-le-elected :
      (votes : List (Vote floats distance))
      → best_count floats distance votes
        ≤ counted
            (first_label floats distance (
              sort_by
                (is_closer floats distance)
                (keep (λ v. v.count == best_count floats distance votes) votes)))
            votes
  best-le-elected [] = unfold best_count in omega arith
  best-le-elected (v ∷ vs) =
      let votes = v ∷ vs in
      let b = best_count floats distance votes in
      let tied = keep (λ (u : Vote floats distance). u.count == b) votes in
      first_label-votes votes (sort_by (is_closer floats distance) tied) b
        (omega (arith, sort_by-length (is_closer floats distance) tied, some_tied b v vs refl))
        (All-sort_by _ _ tied (
          All-zip _ _ tied (All-keep (λ u. u.count == b) votes)
            (All-keep_of _ (λ u. u.count == b) votes (own_votes votes))))

  -- No label has more votes among the neighbours than the one they elect.
  pub elect-votes :
      (label : String) (top : List (Neighbor floats distance))
      → votes_for label top ≤ votes_for (elect floats distance top) top
  unfolding elect
  elect-votes label top =
      let votes = count_votes floats distance top [] in
      omega (
        arith,
        counted-count_votes label top [],
        counted-count_votes (elect floats distance top) top [],
        counted-le-best_count label votes (count_votes-once label top [] (omega arith)),
        best-le-elected votes,
      )

  -- The `k` nearest training cases of a query.
  abbrev pub top_neighbors : List (V × (String × String)) → ℕ → V → List (Neighbor floats distance)
  top_neighbors train k query =
      take k
        (sort_by (is_nearer_neighbor floats distance) (map (neighbor floats distance query) train))

  -- No label has more votes among the `k` training cases nearest to a query than the one predicted.
  pub predict_one-votes :
      (train : List (V × (String × String))) (k : ℕ) (query : V) (label : String)
      → votes_for label (top_neighbors train k query)
        ≤ votes_for (predict_one floats distance train k query) (top_neighbors train k query)
  unfolding predict_one
  predict_one-votes train k query label = elect-votes label (top_neighbors train k query)
