-- ===== src/Baselines/Retrieval.antt =====
-- What the retrieved examples are: the nearest, and never the case itself.
use rule_kiln.Prelude.{◌≡◌, Option, List, ◌++◌, map, String, IsSorted, Perm}
use rule_kiln.Numbers.{Floats}
use rule_kiln.Baselines.Examples.{TrainCase}
use rule_kiln.Baselines.Nearest.{Candidate, candidates_of, is_nearer}

module _ (floats : Floats) {V : Type 0} (distance : V → V → floats.F) where
  -- The examples, followed by the candidates left out, are all candidates, and no candidate comes
  -- nearer than one before it.
  abbrev pub AreNearest : V → Option String → List (V × TrainCase) → List TrainCase → Type 0
  AreNearest query exclude ps examples =
      (first : List (Candidate floats distance)) × (rest : List (Candidate floats distance))
      × (examples ≡ map (λ n. n.case) first)
      × Perm (first ++ rest) (candidates_of floats distance query exclude ps)
      × IsSorted (is_nearer floats distance) (first ++ rest)
