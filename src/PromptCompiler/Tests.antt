-- ===== src/PromptCompiler/Tests.antt =====
-- Runs of the prompt compiler, and instances of its theorems.
use mathlib.Core.List.{Permᴰ}
use rule_kiln.Prelude.{
  true, false, String, none, some, List, [], ◌∷◌, ◌≡◌, refl, All, inl, ℤ, str_eq, sort_by,
}
use rule_kiln.Rules.{Rule}
use rule_kiln.Rules.Samples.{costly, cheap, rare}
use rule_kiln.PromptCompiler.Sections.{
  ◌+++◌, Texts, PromptTask, BaselinePromptPolicy, with_enum, compile_baseline_prompt,
}
use rule_kiln.PromptCompiler.Compile.{compile_prompt}
use rule_kiln.PromptCompiler.Order.{compile_prompt-permᴰ}
use rule_kiln.PromptCompiler.Blocks.{HasBlock, compile_prompt-HasBlock}

abbrev plain_texts : Texts
plain_texts = record { strip = λ s. s; dumps = λ d. "{}"; sha256 = λ s. s }

abbrev all_sections : BaselinePromptPolicy
all_sections = record {
  include_role = true;
  include_task_description = true;
  include_input_template = true;
  include_output_schema = true;
  include_allowed_values = true;
  include_prompt_scaffold = true;
  include_input_boundary = true;
}

abbrev triage : PromptTask
triage = record {
  description = "Route the ticket.";
  input_template = "";
  output_schema =
      some
        record { properties = ("label", with_enum ("a" ∷ "b" ∷ [])) ∷ []; required = "label" ∷ [] };
  policy = all_sections;
  role = "";
  task_scope = "one" ∷ [];
  non_scope = "two" ∷ [];
  prompt_injection_boundary = [];
}

baseline_run :
    compile_baseline_prompt plain_texts triage
    ≡ "# Task\n\nRoute the ticket.\n\n# Output Format\n\nReturn only valid JSON matching this schema:\n\n```json\n{}\n```\n\n# Allowed Values\n\nThe output field must be exactly one of:\n\n- a\n- b\n\n# Rules\n\n- one\n- two"
unfolding compile_baseline_prompt
baseline_run = refl

abbrev compiled : List (Rule ℤ) → String
compiled rules = (compile_prompt plain_texts triage rules "s" "v1" none).0

prompt_run :
    compiled (cheap ∷ rare ∷ [])
    ≡ compile_baseline_prompt plain_texts triage
      +++ "\n\n# Distilled Rule Policy (strategy: s, version: v1)\n\nThe following 2 rule(s) are distilled from observed examples. Apply them strictly and in order of priority.\n\n## Rule 1: rare\n\n## Rule 2: cheap"
unfolding compile_prompt compile_baseline_prompt sort_by
prompt_run = refl

compile_prompt-permᴰ_example :
    compile_prompt plain_texts triage (cheap ∷ costly ∷ []) "s" "v1" none
    ≡ compile_prompt plain_texts triage (costly ∷ cheap ∷ []) "s" "v1" none
compile_prompt-permᴰ_example =
    compile_prompt-permᴰ plain_texts triage "s" "v1" none
      (Permᴰ.swap {a = cheap} {b = costly} {l = []} refl refl) ((inl refl, tt), (tt, tt))

compile_prompt-HasBlock_example :
    ((rest : String) × (compiled (cheap ∷ costly ∷ [])
        ≡ compile_baseline_prompt plain_texts triage +++ rest))
    × All (HasBlock (compiled (cheap ∷ costly ∷ []))) (cheap ∷ costly ∷ [])
compile_prompt-HasBlock_example =
    compile_prompt-HasBlock plain_texts triage (cheap ∷ costly ∷ []) "s" "v1" none

-- Of two rules with one priority and one topic, the first that comes stays first.
abbrev twin : Rule ℤ
twin = record cheap { applies_when = "always" ∷ [] }

tied_prompts_differ : str_eq (compiled (cheap ∷ twin ∷ [])) (compiled (twin ∷ cheap ∷ [])) ≡ false
unfolding compile_prompt sort_by
tied_prompts_differ = refl
