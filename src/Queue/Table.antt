-- ===== src/Queue/Table.antt =====
-- What the statements of the repository do to the table of jobs: `UPDATE … WHERE`, its row count,
-- a lookup by primary key, and `ORDER BY created_at LIMIT 1`.
use rule_kiln.Prelude.{
  ◌≡◌, ◌≤◌, Bool, true, false, Option, none, some, List, [], ◌∷◌, arith, leb, All, All-imp, leb→le,
  if_elim, if◌then◌else◌,
}
use rule_kiln.Queue.Job.{Job}

abbrev pub Table : Type 0
Table = List Job

unfoldable pub update_where : (Job → Bool) → (Job → Job) → Table → Table
update_where p set [] = []
update_where p set (j ∷ t) = (if p j then set j else j) ∷ update_where p set t

-- Of two candidates the one created first; the table's order breaks ties, which SQL leaves open.
abbrev pub earlier : Job → Option Job → Job
earlier j none = j
earlier j (some k) = if leb j.created_at k.created_at then j else k

unfoldable pub first_created : (Job → Bool) → Table → Option Job
first_created p [] = none
first_created p (j ∷ t) =
    let rest = first_created p t in if p j then some (earlier j rest) else rest

-- What a statement makes of each row, written or not.
pub All-update_where_to {κ μ} :
    (P : Job → Type κ) (Q : Job → Type μ) (p : Job → Bool) (set : Job → Job) (t : Table)
    → ((j : Job) → P j → p j ≡ true → Q (set j))
    → ((j : Job) → P j → p j ≡ false → Q j)
    → All P t
    → All Q (update_where p set t)
unfolding update_where
All-update_where_to P Q p set [] wrote left h = tt
All-update_where_to P Q p set (j ∷ t) wrote left h =
    (if_elim Q (p j) (wrote j h.0) (left j h.0), All-update_where_to P Q p set t wrote left h.1)

-- A statement that keeps a property of each row that it writes keeps it of the table.
pub All-update_where {κ} :
    (P : Job → Type κ) (p : Job → Bool) (set : Job → Job) (t : Table)
    → ((j : Job) → P j → p j ≡ true → P (set j))
    → All P t
    → All P (update_where p set t)
All-update_where P p set t keep h = All-update_where_to P P p set t keep (λ j ok _. ok) h

-- What is asked of the chosen row: it passes, and no passing row was created before it.
abbrev pub IsFirst : (Job → Bool) → Table → Job → Type 0
IsFirst p t j = (p j ≡ true) × All (λ k. p k ≡ true → j.created_at ≤ k.created_at) t

-- The outcome of the search: the first row, or no row passes.
abbrev pub IsChosen : (Job → Bool) → Table → Option Job → Type 0
IsChosen p t none = All (λ k. p k ≡ false) t
IsChosen p t (some j) = IsFirst p t j

IsChosen-step :
    (p : Job → Bool) (k : Job) (t : Table) (rest : Option Job)
    → IsChosen p t rest
    → IsChosen p (k ∷ t) (if p k then some (earlier k rest) else rest)
IsChosen-step p k t none h =
    if_elim (IsChosen p (k ∷ t)) (p k)
      (λ passes. (passes, ((λ _. omega arith), All-imp t (λ m fails passes'. cc) h)))
      (λ fails. (fails, h))
IsChosen-step p k t (some m) h =
    if_elim (IsChosen p (k ∷ t)) (p k)
      (λ passes.
        if_elim (IsFirst p (k ∷ t)) (leb k.created_at m.created_at)
          (λ older. (
            passes,
            (
              (λ _. omega arith),
              All-imp t
                  (λ n later q. omega (arith, later q, leb→le k.created_at m.created_at older)) h.1,
            ),
          ))
          (λ younger. (h.0, ((λ _. ground arith), h.1))))
      (λ fails. (h.0, ((λ passes. cc), h.1)))

-- The search finds the passing row that was created first, and fails only if no row passes.
pub first_created-IsChosen : (p : Job → Bool) (t : Table) → IsChosen p t (first_created p t)
unfolding first_created
first_created-IsChosen p [] = tt
first_created-IsChosen p (k ∷ t) =
    IsChosen-step p k t (first_created p t) (first_created-IsChosen p t)
