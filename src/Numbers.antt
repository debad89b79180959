-- ===== src/Numbers.antt =====
-- Python's floats, which the program only computes with and compares: the type, its operations, and
-- what it relies on of `<`, which holds as long as no value is a NaN.
pub mod Whole
use rule_kiln.Prelude.{ℕ, Bool, not, ◌&&◌, List, [], ◌∷◌, IsStrictOrder}

pub record Floats : Type 1 where
  pub F : Type 0
  pub lt : F → F → Bool
  pub of_ℕ : ℕ → F
  pub neg : F → F
  pub add : F → F → F
  pub sub : F → F → F
  pub mul : F → F → F
  pub div : F → F → F
  pub lt_order : IsStrictOrder lt
