-- ===== src/Optimizers/Rounds.antt =====
-- The rounds of an ablation: what they record and which markers they leave.
use text.Mathlib.TextLemmas.{append_cancel_left}
use rule_kiln.Prelude.{
  ◌≡◌, ◌≢◌, refl, sym, subst, ◌∙◌, true, false, Option, none, some, List, [], ◌∷◌, ◌++◌, map,
  String, eq_iff, mem_str, All, All-imp, Pairs, All-zip, arith, append_assoc, append-nil,
}
use mathlib.Core.List.{map-append}
use rule_kiln.Numbers.{Floats}
use rule_kiln.Rules.{Rule}
use rule_kiln.Pruning.Ranking.{lookup}
use rule_kiln.Optimizers.Evals.{MetricName, StrategyEval, OptimizerCalls, OptimizerTask}
use rule_kiln.Optimizers.Ablation.{
  ablation_strategy_id, RuleAblationRecord, AblationState, reload, evaluated, compiled, ablate_rule,
  ablate_rules,
}

pub mem_str-append :
    (s t : String) (xs : List String)
    → mem_str s xs ≡ false
    → t ≢ s
    → mem_str s (xs ++ t ∷ []) ≡ false
mem_str-append s t [] h d = ground (arith, eq_iff t s)
mem_str-append s t (x ∷ xs) h d = ground (arith, mem_str-append s t xs)

mem_str-append_self : (s : String) (xs : List String) → mem_str s (xs ++ s ∷ []) ≡ true
mem_str-append_self s [] = ground (arith, eq_iff s s)
mem_str-append_self s (x ∷ xs) = ground (arith, mem_str-append_self s xs)

mem_str-append_left :
    (s : String) (xs ys : List String) → mem_str s xs ≡ true → mem_str s (xs ++ ys) ≡ true
mem_str-append_left s [] ys h = cc
mem_str-append_left s (x ∷ xs) ys h = ground (arith, mem_str-append_left s xs ys)

-- Different rules have different markers.
ablation_strategy_id-ne : (a b : String) → a ≢ b → ablation_strategy_id a ≢ ablation_strategy_id b
unfolding ablation_strategy_id
ablation_strategy_id-ne a b d e = d (append_cancel_left "ablation_without_" a b e)

module _ (floats : Floats) (calls : OptimizerCalls floats) (task : OptimizerTask floats)
    (metric : MetricName) where
  open floats use {F}
  open calls use {Prompt, compile, evaluate}

  -- The rules that records are about.
  abbrev pub rule_ids : List (RuleAblationRecord floats) → List String
  rule_ids records = map (λ a. a.rule_id) records

  -- No two rules have one id.
  abbrev pub AreDistinct : List (Rule F) → Type 0
  AreDistinct rs = Pairs (λ r s. r.id ≢ s.id) rs

  -- No rule has its marker.
  abbrev pub AreNew : List String → List (Rule F) → Type 0
  AreNew markers rs = All (λ r. mem_str (ablation_strategy_id r.id) markers ≡ false) rs

  still-AreNew :
      (r : Rule F) (markers : List String) (rs : List (Rule F))
      → All (λ s. r.id ≢ s.id) rs
      → AreNew markers rs
      → AreNew (markers ++ ablation_strategy_id r.id ∷ []) rs
  still-AreNew r markers rs apart new =
      All-imp rs
        (λ s both.
          mem_str-append (ablation_strategy_id s.id) (ablation_strategy_id r.id) markers both.1
            (ablation_strategy_id-ne r.id s.id both.0))
        (All-zip _ _ rs apart new)

  pub all_marked :
      (markers : List String) (rs : List (Rule F))
      → All
          (λ r.
            mem_str (ablation_strategy_id r.id) (markers ++ map (λ r. ablation_strategy_id r.id) rs)
            ≡ true)
          rs
  all_marked markers [] = tt
  all_marked markers (r ∷ rs) =
      let id = ablation_strategy_id r.id in
      let later = map (λ (r : Rule F). ablation_strategy_id r.id) rs in
      let more = markers ++ id ∷ [] in
      let regroup : more ++ later ≡ markers ++ id ∷ later = append_assoc markers (id ∷ []) later in
      subst (λ l. All (λ r. mem_str (ablation_strategy_id r.id) l ≡ true) (r ∷ rs)) regroup
        (mem_str-append_left id more later (mem_str-append_self id markers), all_marked more rs)

  module _ (rules : List (Rule F)) (full_eval : Option (StrategyEval floats)) where
    abbrev pub round : AblationState floats → Rule F → AblationState floats
    round = ablate_rule floats calls task metric rules full_eval

    abbrev pub rounds : AblationState floats → List (Rule F) → AblationState floats
    rounds = ablate_rules floats calls task metric rules full_eval

    -- The round adds a record on the rule, and its marker.
    abbrev Adds : AblationState floats → Rule F → AblationState floats → Type 0
    Adds s r s' =
        (s'.markers ≡ s.markers ++ ablation_strategy_id r.id ∷ [])
        × (rule_ids s'.records ≡ rule_ids s.records ++ r.id ∷ [])

    evaluated-Adds :
        (s : AblationState floats) (r : Rule F) (o : Option (StrategyEval floats))
        → Adds s r (evaluated floats calls task metric rules full_eval s r o)
    evaluated-Adds s r none = (refl, map-append _ s.records _)
    evaluated-Adds s r (some e) = (refl, map-append _ s.records _)

    compiled-Adds :
        (s : AblationState floats) (r : Rule F) (o : Option Prompt)
        → Adds s r (compiled floats calls task metric rules full_eval s r o)
    compiled-Adds s r none = (refl, map-append _ s.records _)
    compiled-Adds s r (some prompt) =
        evaluated-Adds s r (evaluate prompt (ablation_strategy_id r.id))

    round-Adds :
        (s : AblationState floats) (r : Rule F)
        → mem_str (ablation_strategy_id r.id) s.markers ≡ false
        → Adds s r (round s r)
    unfolding ablate_rule
    round-Adds s r new = rw new (compiled-Adds s r _)

    -- Rounds over rules with no marker record each of them, and leave their markers.
    pub rounds-Adds :
        (s : AblationState floats) (rs : List (Rule F))
        → AreDistinct rs
        → AreNew s.markers rs
        → ((rounds s rs).markers ≡ s.markers ++ map (λ r. ablation_strategy_id r.id) rs)
          × (rule_ids (rounds s rs).records ≡ rule_ids s.records ++ map (λ r. r.id) rs)
    unfolding ablate_rules
    rounds-Adds s [] apart new = (sym (append-nil s.markers), sym (append-nil (rule_ids s.records)))
    rounds-Adds s (r ∷ rs) apart new =
        let added = round-Adds s r new.0 in
        let later =
          rounds-Adds (round s r) rs apart.1
            (rw (added.0) (still-AreNew r s.markers rs apart.0 new.1)) in
        (
          later.0 ∙ (rw (added.0) (append_assoc s.markers _ _)),
          later.1 ∙ (rw (added.1) (append_assoc (rule_ids s.records) _ _)),
        )

    -- A rule whose marker stands, and whose evaluation is not at hand, is passed over.
    round_passes :
        (s : AblationState floats) (r : Rule F)
        → mem_str (ablation_strategy_id r.id) s.markers ≡ true
        → lookup (ablation_strategy_id r.id) s.eval_map ≡ none
        → round s r ≡ s
    unfolding ablate_rule
    round_passes s r marked absent = rw marked (rw (absent, reload))

    pub rounds_pass :
        (s : AblationState floats) (rs : List (Rule F))
        → All (λ r. mem_str (ablation_strategy_id r.id) s.markers ≡ true) rs
        → All (λ r. lookup (ablation_strategy_id r.id) s.eval_map ≡ none) rs
        → rounds s rs ≡ s
    unfolding ablate_rules
    rounds_pass s [] marked absent = refl
    rounds_pass s (r ∷ rs) marked absent =
        rw (round_passes s r marked.0 absent.0) (rounds_pass s rs marked.1 absent.1)

    pub rounds-append :
        (s : AblationState floats) (rs rs' : List (Rule F))
        → rounds s (rs ++ rs') ≡ rounds (rounds s rs) rs'
    unfolding ablate_rules
    rounds-append s [] rs' = refl
    rounds-append s (r ∷ rs) rs' = rounds-append (round s r) rs rs'

    pub rest-AreNew :
        (s : AblationState floats) (done rest : List (Rule F))
        → AreDistinct (done ++ rest)
        → AreNew s.markers (done ++ rest)
        → AreNew (rounds s done).markers rest
    unfolding ablate_rules
    rest-AreNew s [] rest apart new = new
    rest-AreNew s (r ∷ rs) rest apart new =
        rest-AreNew (round s r) rs rest apart.1
          (rw ((round-Adds s r new.0).0) (still-AreNew r s.markers (rs ++ rest) apart.0 new.1))
