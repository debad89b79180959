-- ===== src/Prelude/Reorder.antt =====
-- A sort forgets the order of its input, as long as no two members have the same key.
use mathlib.Core.Path.{◌≡◌, refl, ap₂, subst, ◌∙◌}
use mathlib.Core.Logic.{◌⊎◌, inl, inr}
use mathlib.Core.Bool.{Bool, true}
use mathlib.Core.List.{List, [], ◌∷◌, Permᴰ}
use native.Mathlib.Omega.{arith}
use rule_kiln.Prelude.Lists.{All}
use rule_kiln.Prelude.Sorting.{IsStrictOrder, insert_by, sort_by}

module _ {ℓ} {A : Type ℓ} where
  -- The relation holds of every two members, whichever stands first.
  abbrev pub Pairs : (A → A → Type 0) → List A → Type ℓ
  Pairs R [] = Unit
  Pairs R (x ∷ xs) = All (R x) xs × Pairs R xs

module _ {ℓ} {A : Type ℓ} where
  pub All-permᴰ {κ} : (P : A → Type κ) {xs ys : List A} → Permᴰ xs ys → All P xs → All P ys
  All-permᴰ P Permᴰ.nil h = h
  All-permᴰ P (Permᴰ.cons e d) h = (subst P e h.0, All-permᴰ P d h.1)
  All-permᴰ P (Permᴰ.swap e f) h = (subst P f h.1.0, (subst P e h.0, h.1.1))
  All-permᴰ P (Permᴰ.trans d e) h = All-permᴰ P e (All-permᴰ P d h)

  pub Pairs-permᴰ :
      (R : A → A → Type 0) (flip : (x y : A) → R x y → R y x) {xs ys : List A}
      → Permᴰ xs ys
      → Pairs R xs
      → Pairs R ys
  Pairs-permᴰ R flip Permᴰ.nil h = h
  Pairs-permᴰ R flip (Permᴰ.cons {l₂ = ys} e d) h =
      (subst (λ a. All (R a) ys) e (All-permᴰ _ d h.0), Pairs-permᴰ R flip d h.1)
  Pairs-permᴰ R flip (Permᴰ.swap {a = a} {b = b} {b' = b'} {l = l} e f) h =
      let turned : Pairs R (b ∷ a ∷ l) = ((flip a b h.0.0, h.1.0), (h.0.1, h.1.1)) in
      subst (λ u. Pairs R (u ∷ b' ∷ l)) f (subst (λ v. Pairs R (b ∷ v ∷ l)) e turned)
  Pairs-permᴰ R flip (Permᴰ.trans d e) h = Pairs-permᴰ R flip e (Pairs-permᴰ R flip d h)

module _ {ℓ} {A : Type ℓ} (before : A → A → Bool) where
  -- One of the two comes strictly before the other.
  abbrev pub Apart : A → A → Type 0
  Apart x y = (before x y ≡ true) ⊎ (before y x ≡ true)

  Apart-sym : (x y : A) → Apart x y → Apart y x
  Apart-sym x y (inl h) = inr h
  Apart-sym x y (inr h) = inl h

  module _ (order : IsStrictOrder before) where
    insert_by_comm :
        (x y : A) (zs : List A)
        → Apart x y
        → insert_by before x (insert_by before y zs) ≡ insert_by before y (insert_by before x zs)
    unfolding insert_by
    insert_by_comm x y [] h = ground (arith, order.asymm x y, order.asymm y x)
    insert_by_comm x y (z ∷ zs) h = ground (
      arith,
      order.asymm x y,
      order.asymm y x,
      order.not_before_trans x y z,
      order.not_before_trans y x z,
      insert_by_comm x y zs h,
    )

    pub sort_by-permᴰ :
        {xs ys : List A} → Permᴰ xs ys → Pairs Apart xs → sort_by before xs ≡ sort_by before ys
    unfolding sort_by
    sort_by-permᴰ Permᴰ.nil h = refl
    sort_by-permᴰ (Permᴰ.cons e d) h = ap₂ (insert_by before) e (sort_by-permᴰ d h.1)
    sort_by-permᴰ (Permᴰ.swap {a = a} {b = b} {l = l} e f) h =
        insert_by_comm a b (sort_by before l) h.0.0 ∙ λ i.
        insert_by before (f i) (insert_by before (e i) (sort_by before l))
    sort_by-permᴰ (Permᴰ.trans d e) h =
        sort_by-permᴰ d h ∙ sort_by-permᴰ e (Pairs-permᴰ Apart Apart-sym d h)
