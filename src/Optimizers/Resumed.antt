-- ===== src/Optimizers/Resumed.antt =====
-- What an ablation records, in one run and when it is taken up again.

use rule_kiln.Prelude.{
  ℕ, ◌≤◌, ◌≡◌, refl, sym, subst, ap, ◌∙◌, true, false, none, some, List, [], ◌∷◌, ◌++◌, map, String,
  ltb, length, take, mem_str, All, Pairs, All-append_left, arith,
}
use rule_kiln.Numbers.{Floats}
use rule_kiln.Rules.{Rule}
use rule_kiln.Pruning.Ranking.{lookup}
use rule_kiln.Optimizers.Evals.{
  MetricName, is_distilled, EvalMap, SynthesizedRule, get_selected_synthesized_rules,
  OptimizerCalls, OptimizerTask,
}
use rule_kiln.Optimizers.Rounds.{
  rule_ids, AreDistinct, AreNew, rounds, rounds-Adds, rounds_pass, rounds-append, rest-AreNew,
  all_marked,
}
use rule_kiln.Optimizers.Ablation.{
  ablation_strategy_id, RuleAblationRecord, AblationState, ablate_selected, run_rule_ablation,
}

module _ (floats : Floats) (calls : OptimizerCalls floats) (task : OptimizerTask floats)
    (metric : MetricName) where
  open floats use {F}
  open calls use {Prompt, compile, evaluate}

  Pairs-append_left :
      (R : Rule F → Rule F → Type 0) (xs ys : List (Rule F)) → Pairs R (xs ++ ys) → Pairs R xs
  Pairs-append_left R [] ys h = tt
  Pairs-append_left R (x ∷ xs) ys h = (All-append_left _ xs ys h.0, Pairs-append_left R xs ys h.1)

  Pairs-append_right :
      (R : Rule F → Rule F → Type 0) (xs ys : List (Rule F)) → Pairs R (xs ++ ys) → Pairs R ys
  Pairs-append_right R [] ys h = h
  Pairs-append_right R (x ∷ xs) ys h = Pairs-append_right R xs ys h.1

  -- The selected rules that the ablation goes through.
  abbrev pub ablated_rules : List (SynthesizedRule floats) → List (Rule F)
  ablated_rules rows = take task.max_ablation_rules (get_selected_synthesized_rules floats rows)

  -- The conditions under which the ablation runs.
  pub record IsEnabled (strategy : String) (eval_case_count : ℕ)
      (rows : List (SynthesizedRule floats)) : Type 0 where
    pub enabled : task.enable_rule_ablation ≡ true
    pub small : ltb task.small_run_case_threshold eval_case_count ≡ false
    pub distilled : is_distilled strategy ≡ true
    pub some_rules : 1 ≤ length (get_selected_synthesized_rules floats rows)

  ablate_selected_lem :
      (strategy : String) (rules : List (Rule F)) (markers : List String)
      (eval_map : EvalMap floats)
      → 1 ≤ length rules
      → (ablate_selected floats calls task metric strategy rules markers eval_map).artifact
        ≡ some
            (rounds floats calls task metric rules
              (lookup strategy eval_map)
              record { markers = markers; eval_map = eval_map; records = [] }
              (take task.max_ablation_rules rules)).records
  ablate_selected_lem strategy [] markers eval_map h = absurd (omega arith)
  ablate_selected_lem strategy (r ∷ rs) markers eval_map h = refl

  run_rule_ablation_lem :
      (strategy : String) (n : ℕ) (rows : List (SynthesizedRule floats)) (markers : List String)
      (eval_map : EvalMap floats)
      → IsEnabled strategy n rows
      → (run_rule_ablation floats calls task metric strategy n rows markers eval_map).artifact
        ≡ some
            (rounds floats calls task metric
              (get_selected_synthesized_rules floats rows)
              (lookup strategy eval_map)
              record { markers = markers; eval_map = eval_map; records = [] }
              (ablated_rules rows)).records
  unfolding run_rule_ablation
  run_rule_ablation_lem strategy n rows markers eval_map v = rw (v.enabled) (
      rw (v.small) (
        rw (v.distilled) (
          ablate_selected_lem strategy (get_selected_synthesized_rules floats rows) markers eval_map
            v.some_rules)))

  -- An enabled ablation for which no rule has a marker records each of the rules that it goes
  -- through, once and in their order, whether or not compiling and evaluating their prompts fail.
  pub run_rule_ablation-records :
      (strategy : String) (eval_case_count : ℕ) (rows : List (SynthesizedRule floats))
      (markers : List String) (eval_map : EvalMap floats)
      → IsEnabled strategy eval_case_count rows
      → AreDistinct floats calls task metric (ablated_rules rows)
      → AreNew floats calls task metric markers (ablated_rules rows)
      → (records : List (RuleAblationRecord floats)) × ((run_rule_ablation floats calls task metric
            strategy eval_case_count rows markers eval_map).artifact
          ≡ some records)
        × (rule_ids floats calls task metric records ≡ map (λ r. r.id) (ablated_rules rows))
  run_rule_ablation-records strategy n rows markers eval_map v apart new =
      let rules = get_selected_synthesized_rules floats rows in
      let start : AblationState floats = record {
        markers = markers;
        eval_map = eval_map;
        records = [];
      } in
      (
        (rounds floats calls task metric rules (lookup strategy eval_map) start
            (ablated_rules rows)).records,
        run_rule_ablation_lem strategy n rows markers eval_map v,
        (rounds-Adds floats calls task metric rules (lookup strategy eval_map) start
            (ablated_rules rows) apart new).1,
      )

  -- What a process leaves that dies after the rounds floats calls task metric of some rules: their markers.
  abbrev pub markers_after :
      String
      → List (SynthesizedRule floats)
      → List String
      → EvalMap floats
      → List (Rule F)
      → List String
  markers_after strategy rows markers eval_map done =
      (rounds floats calls task metric (get_selected_synthesized_rules floats rows)
        (lookup strategy eval_map) record { markers = markers; eval_map = eval_map; records = [] }
        done).markers

  -- An enabled ablation that a process died in, after the rounds floats calls task metric of some rules, forgets them when it
  -- is taken up again: it records the other rules only.
  pub resumed_ablation_forgets :
      (strategy : String) (eval_case_count : ℕ) (rows : List (SynthesizedRule floats))
      (markers : List String) (eval_map : EvalMap floats) (done rest : List (Rule F))
      → IsEnabled strategy eval_case_count rows
      → ablated_rules rows ≡ done ++ rest
      → AreDistinct floats calls task metric (done ++ rest)
      → AreNew floats calls task metric markers (done ++ rest)
      → All (λ r. lookup (ablation_strategy_id r.id) eval_map ≡ none) done
      → (records : List (RuleAblationRecord floats)) × ((run_rule_ablation floats calls task metric
            strategy eval_case_count rows
            (markers_after strategy rows markers eval_map done)
            eval_map).artifact
          ≡ some records)
        × (rule_ids floats calls task metric records ≡ map (λ r. r.id) rest)
  resumed_ablation_forgets strategy n rows markers eval_map done rest v split apart new absent =
      let rules = get_selected_synthesized_rules floats rows in
      let full = lookup strategy eval_map in
      let start : AblationState floats = record {
        markers = markers;
        eval_map = eval_map;
        records = [];
      } in
      let left = markers_after strategy rows markers eval_map done in
      let again : AblationState floats = record {
        markers = left;
        eval_map = eval_map;
        records = [];
      } in
      let kept =
        (rounds-Adds floats calls task metric rules full start done
          (Pairs-append_left _ done rest apart) (All-append_left _ done rest new)).0 in
      let marked =
        subst (λ l. All (λ r. mem_str (ablation_strategy_id r.id) l ≡ true) done) (sym kept)
          (all_marked floats calls task metric markers done) in
      let skips =
        rounds-append floats calls task metric rules full again done rest
        ∙ ap (λ s. rounds floats calls task metric rules full s rest)
            (rounds_pass floats calls task metric rules full again done marked absent) in
      (
        (rounds floats calls task metric rules full again rest).records,
        run_rule_ablation_lem strategy n rows left eval_map v
            ∙ ap (λ l. some (rounds floats calls task metric rules full again l).records) split
            ∙ ap (λ s. some s.records) skips,
        (rounds-Adds floats calls task metric rules full again rest
            (Pairs-append_right _ done rest apart)
            (rest-AreNew floats calls task metric rules full start done rest apart new)).1,
      )
