-- ===== src/PromptCompiler/Compile.antt =====
-- `compile_prompt`: the baseline, the rules in the order of priority and topic, and further
-- instructions.
use rule_kiln.Prelude.{
  ℕ, suc, Bool, Option, none, some, List, [], ◌∷◌, ◌++◌, map, String, str_lt, ltb_ℤ, length, lex,
  by_key, sort_by, decimal,
}
use rule_kiln.Rules.{Rule, OutcomeCondition}
use rule_kiln.PromptCompiler.Sections.{
  join, ◌+++◌, nonblank, section_if, Texts, PromptTask, compile_baseline_prompt,
}

-- A heading with a line for each text, if there are any.
abbrev pub lines_under : String → List String → List String
lines_under heading [] = []
lines_under heading (t ∷ ts) = heading ∷ map (λ u. "- " +++ u) (t ∷ ts)

abbrev pub when_text : List String → String
when_text [] = "default"
when_text (w ∷ ws) = join ", " (w ∷ ws)

abbrev pub outcome_line : String × OutcomeCondition → String
outcome_line (name, oc) = "**" +++ name +++ "**: " +++ when_text oc.when

unfoldable pub rule_header : ℕ → String → String → String
unfolding decimal
rule_header total strategy version =
    "# Distilled Rule Policy (strategy: "
    +++ strategy
    +++ ", version: "
    +++ version
    +++ ")\n\nThe following "
    +++ decimal total
    +++ " rule(s) are distilled from observed examples. Apply them strictly and in order of priority."

abbrev pub instruction_sections : Option String → List String
instruction_sections none = []
instruction_sections (some t) = section_if (nonblank t) ("# Additional Instructions\n\n" +++ t)

module _ {F : Type 0} where
  -- `_render_rule`
  unfoldable pub render_rule : ℕ → Rule F → String
  unfolding decimal join
  render_rule index r = join "\n" (
      ("## Rule " +++ decimal index +++ ": " +++ r.topic)
      ∷ (lines_under "**Applies when:**" r.applies_when
          ++ (lines_under "**Outcomes:**" (map outcome_line r.outcome_conditions)
              ++ lines_under "**Tie-breakers (in order):**" r.tie_breakers)))

  -- `enumerate(rules, n)`, rendered.
  unfoldable pub render_from : ℕ → List (Rule F) → List String
  unfolding render_rule
  render_from n [] = []
  render_from n (r ∷ rs) = render_rule n r ∷ render_from (suc n) rs

  -- The key `(r.priority, r.topic)`.
  abbrev pub by_priority_and_topic : Rule F → Rule F → Bool
  by_priority_and_topic = lex (by_key (λ r. r.priority) ltb_ℤ) (by_key (λ r. r.topic) str_lt)

  unfoldable pub policy_sections : List (Rule F) → String → String → List String
  unfolding rule_header render_from
  policy_sections [] strategy version = []
  policy_sections (r ∷ rs) strategy version =
      join "\n\n" (rule_header (length (r ∷ rs)) strategy version ∷ render_from 1 (r ∷ rs)) ∷ []

  unfoldable pub system_prompt :
      Texts → PromptTask → List (Rule F) → String → String → Option String → String
  unfolding compile_baseline_prompt policy_sections
  system_prompt py task rules strategy version additional = join "\n\n" (
      compile_baseline_prompt py task
      ∷ (policy_sections (sort_by by_priority_and_topic rules) strategy version
          ++ instruction_sections additional))

  -- The prompt and its hash.
  unfoldable pub compile_prompt :
      Texts → PromptTask → List (Rule F) → String → String → Option String → String × String
  unfolding system_prompt
  compile_prompt py task rules strategy version additional =
      let prompt = system_prompt py task rules strategy version additional in
      (prompt, py.sha256 prompt)
