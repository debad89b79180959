-- ===== src/Queue/Keys.antt =====
-- Rows by primary key: what a lookup finds after an update, and that ids stay distinct.
use rule_kiln.Prelude.{
  ◌≡◌, refl, Bool, true, false, Option, none, some, [], ◌∷◌, String, arith, str_eq, eq_iff,
  str_eq_self, find, leb, All, All-imp, All-append, if_elim, if◌then◌else◌, Bool-cases, inl, inr,
}
use mathlib.Core.Option
use rule_kiln.Queue.Job.{Job}
use rule_kiln.Queue.Table.{
  Table, update_where, All-update_where, first_created, earlier, IsChosen, first_created-IsChosen,
}
use rule_kiln.Queue.Ops.{has_id, get_job, create_job}

-- No two rows have the same id.
abbrev pub IsKeyed : Table → Type 0
IsKeyed [] = Unit
IsKeyed (j ∷ t) = All (λ k. str_eq k.id j.id ≡ false) t × IsKeyed t

-- What holds of the row that a search found, if it found one.
abbrev pub OnSome {κ} : (Job → Type κ) → Option Job → Type κ
OnSome P none = Unit
OnSome P (some j) = P j

-- An update by id changes what a lookup of that id finds, and nothing else.
pub get_job-update_where :
    (k id : String) (set : Job → Job) (t : Table)
    → ((j : Job) → (set j).id ≡ j.id)
    → get_job k (update_where (has_id id) set t)
      ≡ (if str_eq k id then Option.map set (get_job k t) else get_job k t)
unfolding get_job update_where Option.map
get_job-update_where k id set [] keep = ground arith
get_job-update_where k id set (j ∷ t) keep = ground (
  arith,
  keep j,
  eq_iff k id,
  eq_iff j.id id,
  eq_iff j.id k,
  eq_iff (set j).id k,
  get_job-update_where k id set t keep,
)

str_eq-false_sym : (a b : String) → str_eq a b ≡ false → str_eq b a ≡ false
str_eq-false_sym a b h = ground (arith, eq_iff a b, eq_iff b a)

-- A property of every row holds of the row that a search finds.
pub OnSome-first_created {κ} :
    (P : Job → Type κ) (p : Job → Bool) (t : Table) → All P t → OnSome P (first_created p t)
unfolding first_created
OnSome-first_created P p [] h = tt
OnSome-first_created P p (k ∷ t) h = step (first_created p t) (OnSome-first_created P p t h.1)
  where
    step :
        (rest : Option Job) → OnSome P rest → OnSome P (if p k then some (earlier k rest) else rest)
    step none q = if_elim (OnSome P) (p k) (λ _. h.0) (λ _. q)
    step (some m) q =
        if_elim (OnSome P) (p k)
          (λ _. if_elim P (leb k.created_at m.created_at) (λ _. h.0) (λ _. q)) (λ _. q)

-- In a keyed table the row that a search finds is the row that its id finds.
pub get_job-first_created :
    (p : Job → Bool) (t : Table)
    → IsKeyed t
    → OnSome (λ j. get_job j.id t ≡ some j) (first_created p t)
unfolding first_created get_job
get_job-first_created p [] h = tt
get_job-first_created p (k ∷ t) h =
    step (first_created p t) (OnSome-first_created _ p t h.0) (get_job-first_created p t h.1)
  where
    Found : Job → Type 0
    Found j = find (has_id j.id) (k ∷ t) ≡ some j

    self : Found k
    self = rw (str_eq_self k.id)

    step :
        (rest : Option Job)
        → OnSome (λ m. str_eq m.id k.id ≡ false) rest
        → OnSome (λ m. find (has_id m.id) t ≡ some m) rest
        → OnSome Found (if p k then some (earlier k rest) else rest)
    step none other q = if_elim (OnSome Found) (p k) (λ _. self) (λ _. tt)
    step (some m) other q =
        let later : Found m = rw (str_eq-false_sym m.id k.id other, q) in
        if_elim (OnSome Found) (p k)
          (λ _. if_elim Found (leb k.created_at m.created_at) (λ _. self) (λ _. later)) (λ _. later)

-- Updates that keep ids keep them distinct.
pub IsKeyed-update_where :
    (p : Job → Bool) (set : Job → Job) (t : Table)
    → ((j : Job) → (set j).id ≡ j.id)
    → IsKeyed t
    → IsKeyed (update_where p set t)
unfolding update_where
IsKeyed-update_where p set [] keep h = tt
IsKeyed-update_where p set (j ∷ t) keep h =
    let same : (if p j then set j else j).id ≡ j.id =
      if_elim {A = Job} (λ r. r.id ≡ j.id) (p j) (λ _. keep j) (λ _. refl) in
    (
      rw same
          (All-update_where (λ k. str_eq k.id j.id ≡ false) p set t (λ k ok _. rw (keep k) ok) h.0),
      IsKeyed-update_where p set t keep h.1,
    )

-- A new row with a fresh id keeps them distinct.
pub IsKeyed-create_job :
    (j : Job) (t : Table) → get_job j.id t ≡ none → IsKeyed t → IsKeyed (create_job j t)
unfolding create_job get_job
IsKeyed-create_job j [] fresh h = (tt, tt)
IsKeyed-create_job j (k ∷ t) fresh h = (
  All-append (λ m. str_eq m.id k.id ≡ false) t (j ∷ []) h.0
      (ground (arith, eq_iff j.id k.id, eq_iff k.id j.id), tt),
  IsKeyed-create_job j t (ground arith) h.1,
)

-- In a keyed table the row that a lookup finds is the only one with its id.
pub get_job_unique :
    (id : String) (t : Table) (j : Job)
    → IsKeyed t
    → get_job id t ≡ some j
    → All (λ k. has_id id k ≡ true → k ≡ j) t
unfolding get_job
get_job_unique id [] j h e = tt
get_job_unique id (k ∷ t) j h e = elim (Bool-cases (has_id id k)) [
  | inl here ↦
      let found : k ≡ j = ground arith in
      (
        (λ _. found),
        All-imp t (λ m other same. ground (arith, eq_iff k.id id, eq_iff m.id id, eq_iff m.id k.id))
            h.0,
      )
  | inr there ↦ ((λ here. cc), get_job_unique id t j h.1 (rw there at e))
]

pub OnSome-get_job_unique :
    (id : String) (t : Table)
    → IsKeyed t
    → OnSome (λ j. All (λ k. has_id id k ≡ true → k ≡ j) t) (get_job id t)
OnSome-get_job_unique id t h = go (get_job id t) refl
  where
    go :
        (o : Option Job)
        → get_job id t ≡ o
        → OnSome (λ j. All (λ k. has_id id k ≡ true → k ≡ j) t) o
    go none e = tt
    go (some j) e = get_job_unique id t j h e

-- The row that a search finds passes its test.
pub first_created-passes :
    (p : Job → Bool) (t : Table) → OnSome (λ j. p j ≡ true) (first_created p t)
first_created-passes p t = go (first_created p t) (first_created-IsChosen p t)
  where
    go : (o : Option Job) → IsChosen p t o → OnSome (λ j. p j ≡ true) o
    go none h = tt
    go (some j) h = h.0
