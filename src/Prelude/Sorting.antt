-- ===== src/Prelude/Sorting.antt =====
-- Python's `sorted(xs, key=…)`: a stable sort by a strict test on the keys. What it returns is
-- determined by the test, so insertion sort stands for it.
use Prim.Native.Nat.{ℕ, zero, suc, ◌+◌}
use mathlib.Core.Path.{◌≡◌, refl}
use mathlib.Core.Bool.{Bool, true, false, not, ◌&&◌, ◌||◌}
use mathlib.Core.List.{List, [], ◌∷◌, Perm}
use mathlib.Core.List.Perm
use native.Mathlib.Omega.{arith}
use mathlib.Core.Logic.{inl, inr}
use rule_kiln.Prelude.Tests.{Bool-cases, if_elim, if◌then◌else◌}
use rule_kiln.Prelude.Lists.{All, All-imp, All-take, length, sum_by, take}

-- A strict test on values behaves as `<` on keys: it is asymmetric, and its failure is transitive.
pub record IsStrictOrder {ℓ} {A : Type ℓ} (before : A → A → Bool) : Type ℓ where
  pub asymm : (x y : A) → before x y ≡ true → before y x ≡ false
  pub not_before_trans : (x y z : A) → before y x ≡ false → before z y ≡ false → before z x ≡ false

module _ {ℓ} {A : Type ℓ} (before : A → A → Bool) where
  unfoldable pub insert_by : A → List A → List A
  insert_by x [] = x ∷ []
  insert_by x (y ∷ ys) = if before y x then y ∷ insert_by x ys else x ∷ y ∷ ys

  unfoldable pub sort_by : List A → List A
  unfolding insert_by
  sort_by [] = []
  sort_by (x ∷ xs) = insert_by x (sort_by xs)

  -- No later member comes strictly before an earlier one.
  abbrev pub IsSorted : List A → Type 0
  IsSorted [] = Unit
  IsSorted (x ∷ xs) = All (λ y. before y x ≡ false) xs × IsSorted xs

module _ {ℓ} {A : Type ℓ} (before : A → A → Bool) where
  insert_by-perm : (x : A) (xs : List A) → Perm (insert_by before x xs) (x ∷ xs)
  unfolding insert_by
  insert_by-perm x [] = Perm.refl (x ∷ [])
  insert_by-perm x (y ∷ ys) =
      if_elim (λ l. Perm l (x ∷ y ∷ ys)) (before y x)
        (λ _. Perm.trans (Perm.cons y (insert_by-perm x ys)) (Perm.swap x y ys))
        (λ _. Perm.refl (x ∷ y ∷ ys))

  pub sort_by-perm : (xs : List A) → Perm (sort_by before xs) xs
  unfolding sort_by
  sort_by-perm [] = Perm.refl []
  sort_by-perm (x ∷ xs) =
      Perm.trans (insert_by-perm x (sort_by before xs)) (Perm.cons x (sort_by-perm xs))

  All-insert_by {κ} :
      (P : A → Type κ) (x : A) (xs : List A) → P x → All P xs → All P (insert_by before x xs)
  unfolding insert_by
  All-insert_by P x [] p h = (p, tt)
  All-insert_by P x (y ∷ ys) p h =
      if_elim (All P) (before y x) (λ _. (h.0, All-insert_by P x ys p h.1)) (λ _. (p, h))

  pub All-sort_by {κ} : (P : A → Type κ) (xs : List A) → All P xs → All P (sort_by before xs)
  unfolding sort_by
  All-sort_by P [] h = tt
  All-sort_by P (x ∷ xs) h = All-insert_by P x (sort_by before xs) h.0 (All-sort_by P xs h.1)

  All_of-insert_by {κ} :
      (P : A → Type κ) (x : A) (xs : List A) → All P (insert_by before x xs) → P x × All P xs
  unfolding insert_by
  All_of-insert_by P x [] h = (h.0, tt)
  All_of-insert_by P x (y ∷ ys) h = elim (Bool-cases (before y x)) [
    | inl lower ↦
        let held : All P (y ∷ insert_by before x ys) = rw lower at h in
        let rest = All_of-insert_by P x ys held.1 in (rest.0, (held.0, rest.1))
    | inr upper ↦ let held : All P (x ∷ y ∷ ys) = rw upper at h in (held.0, held.1)
  ]

  -- What holds of all members of the sorted list holds of all members.
  pub All_of-sort_by {κ} : (P : A → Type κ) (xs : List A) → All P (sort_by before xs) → All P xs
  unfolding sort_by
  All_of-sort_by P [] h = tt
  All_of-sort_by P (x ∷ xs) h =
      let held = All_of-insert_by P x (sort_by before xs) h in (held.0, All_of-sort_by P xs held.1)

  insert_by-sum_by :
      (f : A → ℕ) (x : A) (xs : List A) → sum_by f (insert_by before x xs) ≡ f x + sum_by f xs
  unfolding insert_by
  insert_by-sum_by f x [] = refl
  insert_by-sum_by f x (y ∷ ys) = ground (arith, insert_by-sum_by f x ys)

  -- Sorting keeps a sum over the members.
  pub sort_by-sum_by : (f : A → ℕ) (xs : List A) → sum_by f (sort_by before xs) ≡ sum_by f xs
  unfolding sort_by
  sort_by-sum_by f [] = refl
  sort_by-sum_by f (x ∷ xs) =
      omega (arith, insert_by-sum_by f x (sort_by before xs), sort_by-sum_by f xs)

  insert_by-length : (x : A) (xs : List A) → length (insert_by before x xs) ≡ suc (length xs)
  unfolding insert_by
  insert_by-length x [] = refl
  insert_by-length x (y ∷ ys) = ground (arith, insert_by-length x ys)

  pub sort_by-length : (xs : List A) → length (sort_by before xs) ≡ length xs
  unfolding sort_by
  sort_by-length [] = refl
  sort_by-length (x ∷ xs) = omega (arith, insert_by-length x (sort_by before xs), sort_by-length xs)

  module _ (order : IsStrictOrder before) where
    insert_by-IsSorted :
        (x : A) (xs : List A) → IsSorted before xs → IsSorted before (insert_by before x xs)
    unfolding insert_by
    insert_by-IsSorted x [] h = (tt, tt)
    insert_by-IsSorted x (y ∷ ys) h =
        if_elim (IsSorted before) (before y x)
          (λ lower. (
            All-insert_by (λ z. before z y ≡ false) x ys (order.asymm y x lower) h.0,
            insert_by-IsSorted x ys h.1,
          ))
          (λ upper.
            ((upper, All-imp ys (λ z after. order.not_before_trans x y z upper after) h.0), h))

    pub sort_by-IsSorted : (xs : List A) → IsSorted before (sort_by before xs)
    unfolding sort_by
    sort_by-IsSorted [] = tt
    sort_by-IsSorted (x ∷ xs) = insert_by-IsSorted x (sort_by before xs) (sort_by-IsSorted xs)

module _ {ℓ} {A : Type ℓ} (before : A → A → Bool) where
  pub IsSorted-take : (n : ℕ) (xs : List A) → IsSorted before xs → IsSorted before (take n xs)
  IsSorted-take zero xs h = tt
  IsSorted-take (suc n) [] h = tt
  IsSorted-take (suc n) (x ∷ xs) h = (All-take _ n xs h.0, IsSorted-take n xs h.1)

-- `<` on the values of a key.
abbrev pub by_key {ℓ κ} : {A : Type ℓ} {B : Type κ} → (A → B) → (B → B → Bool) → A → A → Bool
by_key key lt x y = lt (key x) (key y)

-- `<` on pairs of keys: by the second where the first does not tell apart.
abbrev pub lex {ℓ} : {A : Type ℓ} → (A → A → Bool) → (A → A → Bool) → A → A → Bool
lex first second x y = first x y || (not (first y x) && second x y)

module _ {ℓ} {A : Type ℓ} where
  pub by_key-IsStrictOrder {κ} :
      {B : Type κ} (key : A → B) {lt : B → B → Bool}
      → IsStrictOrder lt
      → IsStrictOrder (by_key key lt)
  by_key-IsStrictOrder key o = record {
    asymm = λ x y. o.asymm (key x) (key y);
    not_before_trans = λ x y z. o.not_before_trans (key x) (key y) (key z);
  }

  pub lex-IsStrictOrder :
      {first second : A → A → Bool}
      → IsStrictOrder first
      → IsStrictOrder second
      → IsStrictOrder (lex first second)
  lex-IsStrictOrder {first} {second} o p = record {
    asymm = λ x y h. ground (arith, o.asymm x y, o.asymm y x, p.asymm x y);
    not_before_trans = λ x y z h k. ground (
      arith,
      o.asymm x y,
      o.asymm y x,
      o.asymm y z,
      o.asymm z y,
      o.asymm x z,
      o.asymm z x,
      o.not_before_trans x y z,
      o.not_before_trans z y x,
      o.not_before_trans y x z,
      o.not_before_trans z x y,
      o.not_before_trans x z y,
      o.not_before_trans y z x,
      p.not_before_trans x y z,
    );
  }
