-- ===== src/Failures/Signals.antt =====
-- The signals that the pruning reads are the counts of an independent description.
use rule_kiln.Prelude.{
  ℕ, ◌+◌, false, String, Option, none, some, List, [], ◌∷◌, ◌≡◌, refl, ◌∙◌, if◌then◌else◌, str_eq,
  eq_iff, count_if, sum_by, arith, Bool-cases, inl, inr,
}
use rule_kiln.Pruning.Ranking.{lookup}
use rule_kiln.Failures.Attribution.{
  unattributed_rule_id, FailureClass, fixed, broken, unchanged_wrong, unchanged_correct,
  CaseEvaluationFailure,
}
use rule_kiln.Failures.Utility.{
  Counts, no_counts, Summary, change, change_all, add_fixed, add_violated, is_fixed, summarize,
  violated_rule_summary, signals_of, build_utility_signals,
}

-- How often a rule is named.
abbrev pub times : String → List String → ℕ
times id ids = count_if (λ j. str_eq j id) ids

-- How often a rule was to account for a case that was fixed, and for one that was broken.
unfoldable pub fixes : String → List CaseEvaluationFailure → ℕ
fixes id failures =
    sum_by (λ x. elim x.failure_class [ fixed ↦ times id x.matched_rule_ids | _ ↦ 0 ]) failures

unfoldable pub breaks : String → List CaseEvaluationFailure → ℕ
breaks id failures =
    sum_by (λ x. elim x.failure_class [ broken ↦ times id x.violated_rule_ids | _ ↦ 0 ]) failures

-- A rule without an entry counts as one with zeros.
abbrev or_zeros : Option Counts → Counts
or_zeros none = no_counts
or_zeros (some c) = c

abbrev pub or_zero : Option (ℕ × ℕ) → ℕ × ℕ
or_zero none = (0, 0)
or_zero (some p) = p

counts_in : String → Summary → Counts
counts_in id s = or_zeros (lookup id s)

-- One change, and all of a failure's: a count that each change raises by `k`.
counts-change :
    (f : Counts → Counts) (id j : String) (s : Summary)
    → counts_in j (change f id s) ≡ (if str_eq id j then f (counts_in j s) else counts_in j s)
unfolding counts_in change lookup
counts-change f id j [] = ground arith
counts-change f id j ((i, c) ∷ s) =
    ground (arith, eq_iff id j, eq_iff i id, eq_iff i j, counts-change f id j s)

count-change_all :
    (count : Counts → ℕ) (k : ℕ) (f : Counts → Counts)
    → ((c : Counts) → count (f c) ≡ count c + k)
    → (j : String) (ids : List String) (s : Summary)
    → count (counts_in j (change_all f ids s))
      ≡ count (counts_in j s) + sum_by (λ id. if str_eq id j then k else 0) ids
unfolding change_all
count-change_all count k f raises j [] s = omega arith
count-change_all count k f raises j (id ∷ ids) s =
    rw (count-change_all count k f raises j ids (change f id s), counts-change f id j s)
      (elim (Bool-cases (str_eq id j)) [
        | inl same ↦ rw same (omega (arith, raises (counts_in j s)))
        | inr other ↦ rw other (omega arith)
      ])

sum_ones :
    (j : String) (ids : List String) → sum_by (λ id. if str_eq id j then 1 else 0) ids ≡ times j ids
sum_ones j [] = refl
sum_ones j (id ∷ ids) = ground (arith, sum_ones j ids)

sum_zeros : (j : String) (ids : List String) → sum_by (λ id. if str_eq id j then 0 else 0) ids ≡ 0
sum_zeros j [] = refl
sum_zeros j (id ∷ ids) = ground (arith, sum_zeros j ids)

module _ (j : String) where
  -- The two counts of the rule after one failure's changes.
  abbrev after : FailureClass → List String → List String → Summary → Counts
  after class matched violated s = counts_in j (
      change_all (add_violated class) violated
        (if is_fixed class then change_all add_fixed matched s else s))

  fixed_after :
      (class : FailureClass) (matched violated : List String) (s : Summary)
      → (after class matched violated s).fixed_count
        ≡ (counts_in j s).fixed_count + (elim class [ fixed ↦ times j matched | _ ↦ 0 ])
  unfolding add_fixed add_violated
  fixed_after fixed matched violated s = omega (
    arith,
    count-change_all (λ c. c.fixed_count) 0 (add_violated fixed) (λ c. omega arith) j violated
        (change_all add_fixed matched s),
    sum_zeros j violated,
    count-change_all (λ c. c.fixed_count) 1 add_fixed (λ c. omega arith) j matched s,
    sum_ones j matched,
  )
  fixed_after broken matched violated s = omega (
    arith,
    count-change_all (λ c. c.fixed_count) 0 (add_violated broken) (λ c. omega arith) j violated s,
    sum_zeros j violated,
  )
  fixed_after unchanged_wrong matched violated s = omega (
    arith,
    count-change_all (λ c. c.fixed_count) 0 (add_violated unchanged_wrong) (λ c. omega arith) j
        violated s,
    sum_zeros j violated,
  )
  fixed_after unchanged_correct matched violated s = omega (
    arith,
    count-change_all (λ c. c.fixed_count) 0 (add_violated unchanged_correct) (λ c. omega arith) j
        violated s,
    sum_zeros j violated,
  )

  broken_after :
      (class : FailureClass) (matched violated : List String) (s : Summary)
      → (after class matched violated s).broken_count
        ≡ (counts_in j s).broken_count + (elim class [ broken ↦ times j violated | _ ↦ 0 ])
  unfolding add_fixed add_violated
  broken_after fixed matched violated s = omega (
    arith,
    count-change_all (λ c. c.broken_count) 0 (add_violated fixed) (λ c. omega arith) j violated
        (change_all add_fixed matched s),
    sum_zeros j violated,
    count-change_all (λ c. c.broken_count) 0 add_fixed (λ c. omega arith) j matched s,
    sum_zeros j matched,
  )
  broken_after broken matched violated s = omega (
    arith,
    count-change_all (λ c. c.broken_count) 1 (add_violated broken) (λ c. omega arith) j violated s,
    sum_ones j violated,
  )
  broken_after unchanged_wrong matched violated s = omega (
    arith,
    count-change_all (λ c. c.broken_count) 0 (add_violated unchanged_wrong) (λ c. omega arith) j
        violated s,
    sum_zeros j violated,
  )
  broken_after unchanged_correct matched violated s = omega (
    arith,
    count-change_all (λ c. c.broken_count) 0 (add_violated unchanged_correct) (λ c. omega arith) j
        violated s,
    sum_zeros j violated,
  )

  summarize-counts :
      (failures : List CaseEvaluationFailure) (s : Summary)
      → ((counts_in j (summarize failures s)).fixed_count
          ≡ (counts_in j s).fixed_count + fixes j failures)
        × ((counts_in j (summarize failures s)).broken_count
            ≡ (counts_in j s).broken_count + breaks j failures)
  unfolding summarize fixes breaks
  summarize-counts [] s = (omega arith, omega arith)
  summarize-counts (x ∷ failures) s =
      let rest = summarize-counts failures (
        change_all (add_violated x.failure_class) x.violated_rule_ids
          (if is_fixed x.failure_class then change_all add_fixed x.matched_rule_ids s else s)) in
      let now = fixed_after x.failure_class x.matched_rule_ids x.violated_rule_ids s in
      let now' = broken_after x.failure_class x.matched_rule_ids x.violated_rule_ids s in
      (omega (arith, rest.0, now), omega (arith, rest.1, now'))

  lookup-signals_of :
      (s : Summary)
      → str_eq j unattributed_rule_id ≡ false
      → or_zero (lookup j (signals_of s))
        ≡ ((counts_in j s).fixed_count, (counts_in j s).broken_count)
  unfolding signals_of counts_in lookup
  lookup-signals_of [] h = refl
  lookup-signals_of ((i, c) ∷ s) h = ground (
    arith,
    eq_iff i j,
    eq_iff i unattributed_rule_id,
    eq_iff j unattributed_rule_id,
    lookup-signals_of s h,
  )

pair_path : {a b c d : ℕ} → a ≡ c → b ≡ d → ◌≡◌ {A = ℕ × ℕ} (a, b) (c, d)
pair_path p q = λ i. (p i, q i)

at_start_fixed : (id : String) (n : ℕ) → (counts_in id []).fixed_count + n ≡ n
unfolding counts_in lookup
at_start_fixed id n = omega arith

at_start_broken : (id : String) (n : ℕ) → (counts_in id []).broken_count + n ≡ n
unfolding counts_in lookup
at_start_broken id n = omega arith

signals_of-unattributed : (s : Summary) → lookup unattributed_rule_id (signals_of s) ≡ none
unfolding signals_of lookup
signals_of-unattributed [] = refl
signals_of-unattributed ((i, c) ∷ s) =
    ground (arith, eq_iff i unattributed_rule_id, signals_of-unattributed s)

-- The signals give each real rule, with zeros where they are silent, how often it was matched by a case
-- that was fixed and how often it was violated by one that was broken; the sentinel has no signal.
pub build_utility_signals_lem :
    (failures : List CaseEvaluationFailure) (id : String)
    → str_eq id unattributed_rule_id ≡ false
    → (or_zero (lookup id (build_utility_signals failures))
        ≡ (fixes id failures, breaks id failures))
      × (lookup unattributed_rule_id (build_utility_signals failures) ≡ none)
unfolding build_utility_signals violated_rule_summary
build_utility_signals_lem failures id real =
    let counts = summarize-counts id failures [] in
    (
      lookup-signals_of id (summarize failures []) real
          ∙ pair_path (counts.0 ∙ at_start_fixed id (fixes id failures))
              (counts.1 ∙ at_start_broken id (breaks id failures)),
      signals_of-unattributed (summarize failures []),
    )
