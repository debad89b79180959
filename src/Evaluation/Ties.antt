-- ===== src/Evaluation/Ties.antt =====
-- Extremes are attained, and what it is for an option to name an entry.

use rule_kiln.Prelude.{
  ℕ, ◌≡◌, ◌≢◌, refl, subst, Bool, true, false, if_elim, Option, some, List, [], ◌∷◌, String, keep,
  any, All, All-imp, arith, leb, ℤ, Bool-cases, inl, inr, ◌⊎◌,
}
use rule_kiln.Numbers.{Floats}
use rule_kiln.Evaluation.Select.{Reason, Entry, top_of, bottom_of, least_of}

pub keep-nonempty {ℓ} : {A : Type ℓ} (p : A → Bool) (xs : List A) → any p xs ≡ true → keep p xs ≢ []
keep-nonempty p [] h = ground arith
keep-nonempty p (x ∷ xs) h = ground (arith, keep-nonempty p xs)

-- What an `any` finds among members with a property.
pub any-All {ℓ} :
    {A : Type ℓ} (Q : A → Type 0) (p : A → Bool) (xs : List A)
    → All Q xs
    → any p xs ≡ true
    → (x : A) × Q x × (p x ≡ true)
any-All Q p [] q h = ground arith
any-All Q p (x ∷ xs) q h = elim (Bool-cases (p x)) [
  | inl found ↦ (x, q.0, found)
  | inr missed ↦ any-All Q p xs q.1 (ground arith)
]

-- What holds of all that a filter keeps.
pub All-kept {ℓ} :
    {A : Type ℓ} (P : A → Type 0) (p : A → Bool) (xs : List A)
    → All P (keep p xs)
    → All (λ x. p x ≡ true → P x) xs
All-kept P p [] h = tt
All-kept P p (x ∷ xs) h = elim (Bool-cases (p x)) [
  | inl kept ↦ let h' : All P (x ∷ keep p xs) = rw kept at h in ((λ _. h'.0), All-kept P p xs h'.1)
  | inr dropped ↦ let h' : All P (keep p xs) = rw dropped at h in ((λ kept. cc), All-kept P p xs h')
]

module _ (floats : Floats) (int_of : floats.F → ℤ) where
  open floats use {F, lt, lt_order}

  abbrev pub E : Type 0
  E = Entry floats int_of

  pub top_attained :
      (f : E → F) (p : E → Bool) (c : E) (cs : List E)
      → ((d : E) → f d ≡ top_of floats int_of f c cs → p d ≡ true)
      → any p (c ∷ cs) ≡ true
  unfolding top_of
  top_attained f p c [] h = ground (arith, h c refl)
  top_attained f p c (d ∷ ds) h = ground (arith, top_attained f p d ds, h c)

  -- The maximum is the value of one of the members, whatever all of them have in common.
  pub top_of_lem :
      (Q : E → Type 0) (f : E → F) (c : E) (cs : List E)
      → All Q (c ∷ cs)
      → (b : E) × Q b × (f b ≡ top_of floats int_of f c cs)
  unfolding top_of
  top_of_lem Q f c [] q = (c, q.0, refl)
  top_of_lem Q f c (d ∷ ds) q =
      if_elim {A = F} (λ x. (b : E) × Q b × (f b ≡ x)) (lt (f c) (top_of floats int_of f d ds))
        (λ _. top_of_lem Q f d ds q.1) (λ _. (c, q.0, refl))

  -- No member has a larger value.
  pub top_of-All :
      (f : E → F) (c : E) (cs : List E)
      → All (λ d. lt (top_of floats int_of f c cs) (f d) ≡ false) (c ∷ cs)
  unfolding top_of
  top_of-All f c [] = (irrefl (f c), tt)
    where
      irrefl : (x : F) → lt x x ≡ false
      irrefl x = ground (arith, lt_order.asymm x x)
  top_of-All f c (d ∷ ds) =
      let rest = top_of floats int_of f d ds in
      let ih = top_of-All f d ds in
      if_elim {A = F} (λ x. All (λ e. lt x (f e) ≡ false) (c ∷ d ∷ ds)) (lt (f c) rest)
        (λ larger. (lt_order.asymm (f c) rest larger, ih))
        (λ top. (
          ground (arith, lt_order.asymm (f c) (f c)),
          All-imp (d ∷ ds) (λ e below. lt_order.not_before_trans (f e) rest (f c) below top) ih,
        ))

  pub bottom_attained :
      (f : E → F) (p : E → Bool) (c : E) (cs : List E)
      → ((d : E) → f d ≡ bottom_of floats int_of f c cs → p d ≡ true)
      → any p (c ∷ cs) ≡ true
  unfolding bottom_of
  bottom_attained f p c [] h = ground (arith, h c refl)
  bottom_attained f p c (d ∷ ds) h = ground (arith, bottom_attained f p d ds, h c)

  pub least_attained :
      (f : E → ℕ) (p : E → Bool) (c : E) (cs : List E)
      → ((d : E) → f d ≡ least_of floats int_of f c cs → p d ≡ true)
      → any p (c ∷ cs) ≡ true
  unfolding least_of
  least_attained f p c [] h = ground (arith, h c refl)
  least_attained f p c (d ∷ ds) h = elim (Bool-cases (leb (f c) (least_of floats int_of f d ds))) [
    | inl first ↦ ground (arith, h c (ground arith))
    | inr later ↦ ground (arith, least_attained f p d ds (λ e same. h e (ground (arith, same))))
  ]

  abbrev pub IsIn : E → List E → Type 0
  IsIn c [] = ⊥
  IsIn c (d ∷ ds) = (d ≡ c) ⊎ IsIn c ds

  pub All-IsIn : (cs : List E) → All (λ c. IsIn c cs) cs
  All-IsIn [] = tt
  All-IsIn (c ∷ cs) = (inl refl, All-imp cs (λ d within. inr within) (All-IsIn cs))

  pub All-at : (P : E → Type 0) (cs : List E) → All P cs → (c : E) → IsIn c cs → P c
  All-at P [] h c within = ground (arith, within)
  All-at P (d ∷ ds) h c (inl same) = subst P same h.0
  All-at P (d ∷ ds) h c (inr within) = All-at P ds h.1 c within

  -- The option names a strategy of an entry with the property.
  abbrev pub IsChosen : (E → Type 0) → Option (String × Reason floats int_of) → Type 0
  IsChosen Q o =
      (s : String) × (why : Reason floats int_of) × (o ≡ some (s, why))
      × ((c : E) × Q c × (c.0 ≡ s))
