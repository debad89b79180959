-- ===== src/Baselines/Labels.antt =====
-- Labels and the groups that the few-shot selection makes of them: how many cases of a label the
-- passes take.
use Prim.Native.Nat.{min}
use rule_kiln.Prelude.{
  ℕ, suc, ◌≤◌, ◌≡◌, refl, Bool, true, false, Option, none, some, List, [], ◌∷◌, ◌++◌, String,
  length, count_if, sum_by, if◌then◌else◌, Bool-cases, Option-cases, inl, inr, arith, All,
  All-append, All-take, str_eq, eq_iff,
}
use rule_kiln.Baselines.Examples.{TrainCase, Lane, expected_label, add_to_group, group_cases}
use rule_kiln.Baselines.Counts.{held, taken}
use rule_kiln.Baselines.Size.{length-take}
use rule_kiln.Baselines.Lanes.{IsNear}

-- Whether a case has the label.
abbrev pub is_label : String → Option String → Bool
is_label label none = false
is_label label (some l) = str_eq l label

-- The lanes of a label.
abbrev pub lanes_of : String → List Lane → ℕ
lanes_of a gs = sum_by (λ g. if str_eq g.label a then 1 else 0) gs

lanes_of-add :
    (a label : String) (c : TrainCase) (gs : List Lane)
    → lanes_of a gs ≤ 1
    → lanes_of a (add_to_group label c gs) ≤ 1
      × (str_eq label a ≡ false → lanes_of a (add_to_group label c gs) ≡ lanes_of a gs)
unfolding add_to_group
lanes_of-add a label c [] h = ground arith
lanes_of-add a label c (g ∷ gs) h =
    ground
      (arith, eq_iff g.label label, eq_iff label a, eq_iff g.label a, lanes_of-add a label c gs)

module _ (strip : String → String) where
  abbrev pub has_label : String → TrainCase → Bool
  has_label label c = is_label label (expected_label strip c)

  -- The members of a lane have its label.
  abbrev pub IsLabelled : Lane → Type 0
  IsLabelled g = All (λ c. expected_label strip c ≡ some g.label) g.cases

  count_own :
      (label : String) (cs : List TrainCase)
      → All (λ c. expected_label strip c ≡ some label) cs
      → count_if (has_label label) cs ≡ length cs
  count_own label [] h = refl
  count_own label (c ∷ cs) h = rw h.0 (ground (arith, eq_iff label label, count_own label cs h.1))

  count_other :
      (a label : String) (cs : List TrainCase)
      → str_eq label a ≡ false
      → All (λ c. expected_label strip c ≡ some label) cs
      → count_if (has_label a) cs ≡ 0
  count_other a label [] d h = refl
  count_other a label (c ∷ cs) d h = rw h.0 (ground (arith, count_other a label cs d h.1))

  pub count_unlabelled :
      (a : String) (cs : List TrainCase)
      → All (λ c. expected_label strip c ≡ none) cs
      → count_if (has_label a) cs ≡ 0
  count_unlabelled a [] h = refl
  count_unlabelled a (c ∷ cs) h = rw h.0 (count_unlabelled a cs h.1)

  -- A lane of another label holds no case of the label, and a lane of the label is counted whole.
  lane_taken :
      (a : String) (r : ℕ) (g : Lane)
      → IsLabelled g
      → (min r (length g.cases) ≤ g.index) × (g.index ≤ min (suc r) (length g.cases))
      → (str_eq g.label a ≡ false → (taken (has_label a) g ≡ 0) × (held (has_label a) g ≡ 0))
        × (str_eq g.label a ≡ true
            → (taken (has_label a) g ≡ g.index) × (held (has_label a) g ≡ length g.cases))
  lane_taken a r g h near = (
    λ other. (
      count_other a g.label _ other (All-take _ g.index g.cases h),
      count_other a g.label _ other h,
    ),
    λ own.
        let same = (eq_iff g.label a).0 own in
        let first = count_own g.label _ (All-take _ g.index g.cases h) in
        let whole = count_own g.label _ h in
        rw (← same) (omega (arith, first, length-take g.index g.cases), whole),
  )

  lanes_absent :
      (a : String) (r : ℕ) (gs : List Lane)
      → All IsLabelled gs
      → IsNear r gs
      → lanes_of a gs ≡ 0
      → (sum_by (taken (has_label a)) gs ≡ 0) × (sum_by (held (has_label a)) gs ≡ 0)
  lanes_absent a r [] h near none_of = (refl, refl)
  lanes_absent a r (g ∷ gs) h near none_of =
      let here = lane_taken a r g h.0 near.0 in
      let rest = lanes_absent a r gs h.1 near.1 in ground (arith, here, rest)

  -- Of one label the passes take all cases, or as many as there were full passes, or one more.
  pub lanes_taken :
      (a : String) (r : ℕ) (gs : List Lane)
      → All IsLabelled gs
      → IsNear r gs
      → lanes_of a gs ≤ 1
      → (sum_by (taken (has_label a)) gs ≤ suc r)
        × (min r (sum_by (held (has_label a)) gs) ≤ sum_by (taken (has_label a)) gs)
  lanes_taken a r [] h near once = omega arith
  lanes_taken a r (g ∷ gs) h near once =
      let here = lane_taken a r g h.0 near.0 in
      let rest = lanes_taken a r gs h.1 near.1 in
      ground (arith, here, rest, near.0, lanes_absent a r gs h.1 near.1)

  -- What the grouping makes: labelled lanes, no two of one label, and cases with no label.
  pub record IsGrouped (found : List Lane × List TrainCase) : Type 0 where
    pub labelled : All IsLabelled found.0
    pub unlabelled : All (λ c. expected_label strip c ≡ none) found.1
    pub once : (a : String) → lanes_of a found.0 ≤ 1

  add_to_group-IsLabelled :
      (label : String) (c : TrainCase) (gs : List Lane)
      → expected_label strip c ≡ some label
      → All IsLabelled gs
      → All IsLabelled (add_to_group label c gs)
  unfolding add_to_group
  add_to_group-IsLabelled label c [] e h = ((e, tt), tt)
  add_to_group-IsLabelled label c (g ∷ gs) e h = elim (Bool-cases (str_eq g.label label)) [
    | inl same ↦
        rw same
          (All-append _ g.cases (c ∷ []) h.0 (rw ((eq_iff g.label label).0 same) (e, tt)), h.1)
    | inr other ↦ rw other (h.0, add_to_group-IsLabelled label c gs e h.1)
  ]

  pub group_cases-IsGrouped :
      (cs : List TrainCase) (found : List Lane × List TrainCase)
      → IsGrouped found
      → IsGrouped (group_cases strip cs found)
  unfolding group_cases
  group_cases-IsGrouped [] found v = v
  group_cases-IsGrouped (c ∷ cs) (gs, fallback) v = elim (Option-cases (expected_label strip c)) [
    | inl e ↦
        rw (e, group_cases)
          (group_cases-IsGrouped cs (gs, fallback ++ c ∷ [])
            record {
              labelled = v.labelled;
              unlabelled = All-append _ fallback (c ∷ []) v.unlabelled (e, tt);
              once = v.once;
            })
    | inr (label, e) ↦
        rw (e, group_cases)
          (group_cases-IsGrouped cs (add_to_group label c gs, fallback)
            record {
              labelled = add_to_group-IsLabelled label c gs e v.labelled;
              unlabelled = v.unlabelled;
              once = λ a. (lanes_of-add a label c gs (v.once a)).0;
            })
  ]
