-- ===== src/PromptCompiler/Order.antt =====
-- The prompt does not depend on the order in which the rules come.
use mathlib.Core.List.{Permᴰ}
use rule_kiln.Prelude.{
  Option, List, String, ◌≡◌, Pairs, Apart, sort_by-permᴰ, IsStrictOrder, by_key-IsStrictOrder,
  lex-IsStrictOrder, str_lt-IsStrictOrder,
}
use rule_kiln.Numbers.Whole.{ltb_ℤ_order}
use rule_kiln.Rules.{Rule}
use rule_kiln.PromptCompiler.Sections.{Texts, PromptTask}
use rule_kiln.PromptCompiler.Compile.{by_priority_and_topic, compile_prompt}

module _ {F : Type 0} where
  by_priority_and_topic-IsStrictOrder : IsStrictOrder (by_priority_and_topic {F = F})
  by_priority_and_topic-IsStrictOrder =
      lex-IsStrictOrder (by_key-IsStrictOrder (λ r. r.priority) ltb_ℤ_order)
        (by_key-IsStrictOrder (λ r. r.topic) str_lt-IsStrictOrder)

  -- Rules no two of which have both one priority and one topic compile to one prompt and one hash,
  -- in whatever order they are given.
  pub compile_prompt-permᴰ :
      (py : Texts) (task : PromptTask) (strategy version : String) (additional : Option String)
      {rules rules' : List (Rule F)}
      → Permᴰ rules rules'
      → Pairs (Apart by_priority_and_topic) rules
      → compile_prompt py task rules strategy version additional
        ≡ compile_prompt py task rules' strategy version additional
  unfolding compile_prompt
  compile_prompt-permᴰ py task strategy version additional moved apart =
      rw (sort_by-permᴰ by_priority_and_topic by_priority_and_topic-IsStrictOrder moved apart)
