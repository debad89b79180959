-- ===== src/Baselines/Lanes.antt =====
-- What every pass keeps of the lanes, and how far the lanes are from each other.
use Prim.Native.Nat.{min}
use rule_kiln.Prelude.{
  ℕ, zero, suc, ◌≤◌, ◌<◌, ◌≡◌, refl, false, none, some, List, [], ◌∷◌, ◌++◌, length, get_elem?, leb,
  ltb, Bool-cases, Option-cases, inl, inr, arith, All, All-imp, if_elim, leb→le, ltb→lt,
}
use rule_kiln.Baselines.Examples.{TrainCase, Lane, Pass, advanced, run_pass, run_passes}

get_elem?-lt {ℓ} :
    {A : Type ℓ} (xs : List A) (i : ℕ) (x : A) → get_elem? xs i ≡ some x → i < length xs
get_elem?-lt [] i x e = ground arith
get_elem?-lt (y ∷ ys) zero x e = omega arith
get_elem?-lt (y ∷ ys) (suc i) x e = omega (arith, get_elem?-lt ys i x e)

get_elem?-past {ℓ} : {A : Type ℓ} (xs : List A) (i : ℕ) → get_elem? xs i ≡ none → length xs ≤ i
get_elem?-past [] i e = omega arith
get_elem?-past (y ∷ ys) zero e = ground arith
get_elem?-past (y ∷ ys) (suc i) e = omega (arith, get_elem?-past ys i e)

-- A property of lanes that does not read the index survives a pass.
All-run_pass :
    (P : Lane → Type 0) (stays : (g : Lane) → P g → P (advanced g)) (k : ℕ) (gs : List Lane)
    (selected : List TrainCase)
    → All P gs
    → All P (run_pass k gs selected).lanes
unfolding run_pass
All-run_pass P stays k [] selected h = tt
All-run_pass P stays k (g ∷ gs) selected h = elim (Option-cases (get_elem? g.cases g.index)) [
  | inl e ↦ rw (e, run_pass) (h.0, All-run_pass P stays k gs selected h.1)
  | inr (c, e) ↦
      rw (e, run_pass)
        (if_elim (λ (pass : Pass). All P pass.lanes) (leb k (length (selected ++ c ∷ [])))
          (λ _. (stays g h.0, h.1))
          (λ _. (stays g h.0, All-run_pass P stays k gs (selected ++ c ∷ []) h.1)))
]

-- After `r` full passes; and within the next one.
abbrev pub IsEven : ℕ → List Lane → Type 0
IsEven r gs = All (λ g. g.index ≡ min r (length g.cases)) gs

abbrev pub IsNear : ℕ → List Lane → Type 0
IsNear r gs =
    All (λ g. (min r (length g.cases) ≤ g.index) × (g.index ≤ min (suc r) (length g.cases))) gs

IsNear-of_IsEven : (r : ℕ) (gs : List Lane) → IsEven r gs → IsNear r gs
IsNear-of_IsEven r gs h = All-imp gs (λ g e. omega arith) h

run_pass-IsNear :
    (r k : ℕ) (gs : List Lane) (selected : List TrainCase)
    → IsEven r gs
    → IsNear r (run_pass k gs selected).lanes
unfolding run_pass
run_pass-IsNear r k [] selected h = tt
run_pass-IsNear r k (g ∷ gs) selected h = elim (Option-cases (get_elem? g.cases g.index)) [
  | inl e ↦ rw (e, run_pass) (omega (arith, h.0), run_pass-IsNear r k gs selected h.1)
  | inr (c, e) ↦
      let within = get_elem?-lt g.cases g.index c e in
      let here : (min r (length g.cases) ≤ suc g.index)
          × (suc g.index ≤ min (suc r) (length g.cases)) =
        omega (arith, h.0) in
      rw (e, run_pass)
        (if_elim (λ (pass : Pass). IsNear r pass.lanes) (leb k (length (selected ++ c ∷ [])))
          (λ _. (here, IsNear-of_IsEven r gs h.1))
          (λ _. (here, run_pass-IsNear r k gs (selected ++ c ∷ []) h.1)))
]

run_pass-IsEven :
    (r k : ℕ) (gs : List Lane) (selected : List TrainCase)
    → IsEven r gs
    → length (run_pass k gs selected).selected < k
    → IsEven (suc r) (run_pass k gs selected).lanes
unfolding run_pass
run_pass-IsEven r k [] selected h room = tt
run_pass-IsEven r k (g ∷ gs) selected h room = elim (Option-cases (get_elem? g.cases g.index)) [
  | inl e ↦
      let left : length (run_pass k gs selected).selected < k = rw (e, run_pass) at room in
      rw (e, run_pass)
        (
          omega (arith, h.0, get_elem?-past g.cases g.index e),
          run_pass-IsEven r k gs selected h.1 left,
        )
  | inr (c, e) ↦
      let within = get_elem?-lt g.cases g.index c e in
      let more = selected ++ c ∷ [] in
      elim (Bool-cases (leb k (length more))) [
        | inl full ↦
            let past : length more < k = rw full at (rw (e, run_pass) at room) in
            absurd (omega (arith, leb→le k (length more) full))
        | inr free ↦
            let left : length (run_pass k gs more).selected < k =
              rw free at (rw (e, run_pass) at room) in
            rw (e, run_pass) (rw free (omega (arith, h.0), run_pass-IsEven r k gs more h.1 left))
      ]
]

pub All-run_passes :
    (P : Lane → Type 0) (stays : (g : Lane) → P g → P (advanced g)) (fuel k : ℕ) (gs : List Lane)
    (selected : List TrainCase)
    → All P gs
    → All P (run_passes fuel k gs selected).0
unfolding run_passes
All-run_passes P stays zero k gs selected h = h
All-run_passes P stays (suc fuel) k gs selected h =
    let pass = run_pass k gs selected in
    let after = All-run_pass P stays k gs selected h in
    if_elim (λ (r : List Lane × List TrainCase). All P r.0) (ltb (length selected) k)
      (λ _.
        if_elim (λ (r : List Lane × List TrainCase). All P r.0) pass.progressed
          (λ _. All-run_passes P stays fuel k pass.lanes pass.selected after) (λ _. after))
      (λ _. h)

run_passes_full :
    (fuel k : ℕ) (gs : List Lane) (selected : List TrainCase)
    → ltb (length selected) k ≡ false
    → run_passes fuel k gs selected ≡ (gs, selected)
unfolding run_passes
run_passes_full zero k gs selected h = refl
run_passes_full (suc fuel) k gs selected h = rw h

-- The passes end within one pass.
pub run_passes-IsNear :
    (fuel r k : ℕ) (gs : List Lane) (selected : List TrainCase)
    → IsEven r gs
    → (q : ℕ) × IsNear q (run_passes fuel k gs selected).0
unfolding run_passes
run_passes-IsNear zero r k gs selected h = (r, IsNear-of_IsEven r gs h)
run_passes-IsNear (suc fuel) r k gs selected h =
    let pass = run_pass k gs selected in
    let near : (q : ℕ) × IsNear q pass.lanes = (r, run_pass-IsNear r k gs selected h) in
    elim (Bool-cases (ltb (length selected) k)) [
      | inr full ↦ rw full (r, IsNear-of_IsEven r gs h)
      | inl room ↦ elim (Bool-cases pass.progressed) [
        | inr idle ↦ rw room (rw idle near)
        | inl busy ↦ elim (Bool-cases (ltb (length pass.selected) k)) [
          | inl left ↦
              let even = run_pass-IsEven r k gs selected h (ltb→lt (length pass.selected) k left) in
              rw room (rw busy (run_passes-IsNear fuel (suc r) k pass.lanes pass.selected even))
          | inr over ↦
              rw room (rw busy (rw (run_passes_full fuel k pass.lanes pass.selected over) near))
        ]
      ]
    ]
