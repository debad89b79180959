-- ===== src/PromptCompiler.antt =====
-- src/rulekiln/pipeline/prompt_compiler.py: the baseline prompt of a task, and the prompt of a
-- strategy, which adds the rules to it.
pub mod Sections
pub mod Compile
pub mod Order
pub mod Blocks
pub mod Tests
