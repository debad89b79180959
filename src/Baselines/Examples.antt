-- ===== src/Baselines/Examples.antt =====
-- `select_deterministic_few_shot_examples` and `build_few_shot_prompt_with_budget`.
use rule_kiln.Prelude.{
  ℕ, zero, suc, Bool, true, false, Option, none, some, List, [], ◌∷◌, ◌++◌, map, String, str_eq,
  str_lt, leb, ltb, length, take, get_elem?, mem_str, sort_by, by_key, if◌then◌else◌,
}
use rule_kiln.Evaluation.Cases.{TaskMode}
use rule_kiln.PromptCompiler.Sections.{nonblank}

-- `case.expected`: a text, a dictionary, given by its entry `label` if that is a text, or none.
pub data Expected : Type 0 where
  plain : String → Expected
  fields : Option String → Expected
  missing : Expected

-- `RuleKilnCase`, with the fields that the examples read, and its rendering as an example: the input
-- and the expected output as JSON.
pub record TrainCase : Type 0 where
  pub id : String
  pub task_mode : TaskMode
  pub expected : Expected
  pub input_json : String
  pub output_json : String

abbrev pub is_labelled_mode : TaskMode → Bool
is_labelled_mode TaskMode.classification = true
is_labelled_mode TaskMode.routing = true
is_labelled_mode _ = false

-- A stripped text, unless it is empty.
abbrev pub stripped : String → Option String
stripped s = if nonblank s then some s else none

-- The members of a group, in the order of the sorted cases, and how many were taken.
pub record Lane : Type 0 where
  pub label : String
  pub cases : List TrainCase
  pub index : ℕ

-- `grouped[label].append(case)`
unfoldable pub add_to_group : String → TrainCase → List Lane → List Lane
add_to_group label c [] = record { label = label; cases = c ∷ []; index = 0 } ∷ []
add_to_group label c (g ∷ gs) =
    if str_eq g.label label
    then record g { cases = g.cases ++ c ∷ [] } ∷ gs
    else g ∷ add_to_group label c gs

abbrev pub sort_case :
    TrainCase → Option String → List Lane × List TrainCase → List Lane × List TrainCase
sort_case c none (grouped, fallback) = (grouped, fallback ++ c ∷ [])
sort_case c (some label) (grouped, fallback) = (add_to_group label c grouped, fallback)

module _ (strip : String → String) where
  abbrev pub label_in : Expected → Option String
  label_in (plain s) = stripped (strip s)
  label_in (fields (some s)) = stripped (strip s)
  label_in (fields none) = none
  label_in missing = none

  unfoldable pub expected_label : TrainCase → Option String
  expected_label c = if is_labelled_mode c.task_mode then label_in c.expected else none

  -- The loop over the sorted cases: the groups, and the cases with no label.
  unfoldable pub group_cases :
      List TrainCase → List Lane × List TrainCase → List Lane × List TrainCase
  unfolding add_to_group
  group_cases [] found = found
  group_cases (c ∷ cs) found = group_cases cs (sort_case c (expected_label c) found)

-- One pass over the labels: the lanes and the selection after it, and whether it took anything.
pub record Pass : Type 0 where
  pub lanes : List Lane
  pub selected : List TrainCase
  pub progressed : Bool

abbrev pub passed_over : Lane → Pass → Pass
passed_over g rest = record rest { lanes = g ∷ rest.lanes }

abbrev pub taken_from : Lane → Pass → Pass
taken_from g rest = record rest { lanes = g ∷ rest.lanes; progressed = true }

abbrev pub advanced : Lane → Lane
advanced g = record g { index = suc g.index }

-- `for label in labels`: a label with no case left is passed over, and a full selection ends the pass.
unfoldable pub run_pass : ℕ → List Lane → List TrainCase → Pass
run_pass k [] selected = record { lanes = []; selected = selected; progressed = false }
run_pass k (g ∷ gs) selected = elim (get_elem? g.cases g.index) [
  | none ↦ passed_over g (run_pass k gs selected)
  | some c ↦
      let more = run_pass k gs (selected ++ c ∷ []) in
      if leb k (length (selected ++ c ∷ []))
      then record { lanes = advanced g ∷ gs; selected = selected ++ c ∷ []; progressed = true }
      else taken_from (advanced g) more
]

-- `while len(selected) < k`, until a pass takes nothing. A pass that takes something adds to the
-- selection, so that `k` passes are enough.
unfoldable pub run_passes : ℕ → ℕ → List Lane → List TrainCase → List Lane × List TrainCase
run_passes zero k lanes selected = (lanes, selected)
run_passes (suc fuel) k lanes selected =
    let pass = run_pass k lanes selected in
    let rest = run_passes fuel k pass.lanes pass.selected in
    if ltb (length selected) k
    then (if pass.progressed then rest else (pass.lanes, pass.selected))
    else (lanes, selected)

-- The loop over the cases with no label, for a selection that is not full.
unfoldable pub top_up : ℕ → List String → List TrainCase → List TrainCase → List TrainCase
top_up k selected_ids [] selected = selected
top_up k selected_ids (c ∷ cs) selected =
    let more = selected ++ c ∷ [] in
    let rest = top_up k selected_ids cs more in
    let skip = top_up k selected_ids cs selected in
    if mem_str c.id selected_ids then skip else if leb k (length more) then more else rest

abbrev pub fill : ℕ → List TrainCase → List TrainCase → List TrainCase
fill k fallback selected =
    if ltb (length selected) k
    then top_up k (map (λ c. c.id) selected) fallback selected
    else selected

abbrev pub by_id : TrainCase → TrainCase → Bool
by_id = by_key (λ c. c.id) str_lt

-- `labels = sorted(grouped.keys())`
abbrev pub by_label : Lane → Lane → Bool
by_label = by_key (λ g. g.label) str_lt

unfoldable pub choose : ℕ → List Lane × List TrainCase → List TrainCase
unfolding run_passes run_pass top_up
choose k ([], fallback) = take k fallback
choose k (g ∷ gs, fallback) =
    take k (fill k fallback (run_passes k k (sort_by by_label (g ∷ gs)) []).1)

unfoldable pub select_deterministic_few_shot_examples :
    (strip : String → String) → ℕ → List TrainCase → List TrainCase
unfolding choose group_cases
select_deterministic_few_shot_examples strip k train_cases =
    if leb k 0 then [] else choose k (group_cases strip (sort_by by_id train_cases) ([], []))
