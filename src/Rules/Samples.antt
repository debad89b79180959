-- ===== src/Rules/Samples.antt =====
-- Rules for the tests.
use rule_kiln.Prelude.{ℕ, Bool, true, false, none, [], String, ℤ, pos}
use rule_kiln.Rules.{Rule}

-- A rule with an id, a priority, a support count and an estimate of its tokens.
abbrev pub rule_of : String → ℤ → ℕ → ℕ → Bool → Rule ℤ
rule_of name p support cost conflict = record {
  id = name;
  rule_type = "general";
  topic = name;
  applies_when = [];
  outcome_conditions = [];
  tie_breakers = [];
  priority = p;
  source_case_ids = [];
  source_micro_rule_ids = [];
  has_conflicts = conflict;
  conflict_summary = none;
  conflicting_micro_rule_ids = [];
  support_count = support;
  support_ratio = pos 0;
  golden_case_backed = false;
  estimated_token_count = cost;
}

abbrev pub costly : Rule ℤ
costly = rule_of "costly" (pos 1) 9 80 false

abbrev pub cheap : Rule ℤ
cheap = rule_of "cheap" (pos 1) 4 30 false

abbrev pub rare : Rule ℤ
rare = rule_of "rare" (pos 0) 1 10 false

abbrev pub torn : Rule ℤ
torn = rule_of "torn" (pos 0) 7 10 true
