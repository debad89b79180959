-- ===== src/Stages/Session.antt =====
-- The tables of src/rulekiln/db/models.py that the extraction stages write, and a database session on
-- them: reads see what was added and flushed, a commit keeps it, and the process may die at any
-- commit. `commits` counts the commits that the process lives to make.
use rule_kiln.Prelude.{
  ℕ, zero, suc, Bool, String, Option, none, some, List, [], ◌∷◌, ◌≤◌, ◌⊎◌, inl, inr, arith,
}

pub record StageMarker : Type 0 where
  pub job_id : String
  pub stage : String
  pub strategy : Option String
  pub artifact_type : Option String

-- `Case`, with the fields that the stages' queries read.
pub record CaseRow : Type 0 where
  pub id : String
  pub job_id : String

pub record MicroRule : Type 0 where
  pub id : String
  pub job_id : String
  pub case_id : String
  pub topic : String
  pub condition : String
  pub expected_outcome : String
  pub output_path : Option String
  pub rationale_summary : Option String
  pub rule_type : String
  pub positive_cues : List String
  pub negative_cues : List String

pub record PromptVersion : Type 0 where
  pub id : String
  pub job_id : String
  pub strategy : String
  pub version : String
  pub system_prompt : String
  pub prompt_hash : String
  pub is_selected : Bool

-- `job_stage` is the column `stage` of the job's own row.
pub record Db : Type 0 where
  pub job_stage : Option String
  pub cases : List CaseRow
  pub micro_rules : List MicroRule
  pub prompt_versions : List PromptVersion
  pub markers : List StageMarker

pub record Session : Type 0 where
  pub committed : Db
  pub current : Db
  pub commits : ℕ

-- `integrity_error`: a primary key stands twice. `provider_error`: a model call failed.
pub data Failure : Type 0 where
  crashed multiple_results_found integrity_error provider_error : Failure

pub data Result (A : Type 0) : Type 0 where
  ok : A → Session → Result A
  err : Failure → Session → Result A

abbrev pub M : Type 0 → Type 0
M A = Session → Result A

infixl 5 ◌>>=◌ ◌>>◌
abbrev pub ◌>>=◌ : {A B : Type 0} → M A → (A → M B) → M B
◌>>=◌ m f s = elim (m s) [ ok a s' ↦ f a s' | err e s' ↦ err e s' ]

abbrev pub ◌>>◌ : {B : Type 0} → M (Unit {0}) → M B → M B
◌>>◌ m k = m >>= λ _. k

abbrev pub pure : {A : Type 0} → A → M A
pure a s = ok a s

abbrev pub raise : {A : Type 0} → Failure → M A
raise e s = err e s

-- What a query reads.
abbrev pub query : {A : Type 0} → (Db → A) → M A
query f s = ok (f s.current) s

-- What a statement writes, up to the next commit.
abbrev pub write : (Db → Db) → M (Unit {0})
write f s = ok tt (record s { current = f s.current })

unfoldable pub commit_after : ℕ → Session → Result (Unit {0})
commit_after zero s = err crashed s
commit_after (suc n) s = ok tt (record s { committed = s.current; commits = n })

-- `await session.commit()`
unfoldable pub commit : M (Unit {0})
unfolding commit_after
commit s = commit_after s.commits s

-- `result.scalar_one_or_none()`
abbrev pub scalar_one_or_none : {A : Type 0} → List A → M (Option A)
scalar_one_or_none [] s = ok none s
scalar_one_or_none (x ∷ []) s = ok (some x) s
scalar_one_or_none (x ∷ y ∷ _) s = err multiple_results_found s

-- A process opens its session on what was committed.
abbrev pub open_session : ℕ → Db → Session
open_session n d = record { committed = d; current = d; commits = n }

-- What other processes see when the run has ended, however it ended.
abbrev pub committed_by : {A : Type 0} → Result A → Db
committed_by (ok _ s) = s.committed
committed_by (err _ s) = s.committed

-- What holds of the committed tables where the run has failed, and of the value and the session where
-- it has not.
abbrev pub Ends : {A : Type 0} → (Db → Type 0) → (A → Session → Type 0) → Result A → Type 0
Ends P Q (ok a s) = Q a s
Ends P Q (err _ s) = P s.committed

continue_from :
    {A B : Type 0} (P : Db → Type 0) (Q : A → Session → Type 0) (R : B → Session → Type 0)
    (f : A → M B) (r : Result A)
    → Ends P Q r
    → ((a : A) (s' : Session) → Q a s' → Ends P R (f a s'))
    → Ends P R (elim r [ ok a s' ↦ f a s' | err e s' ↦ err e s' ])
continue_from P Q R f (ok a s) h k = k a s h
continue_from P Q R f (err e s) h k = h

-- The rule of a chain of steps.
pub Ends-bind :
    {A B : Type 0} (P : Db → Type 0) (Q : A → Session → Type 0) (R : B → Session → Type 0) (m : M A)
    (f : A → M B) (s : Session)
    → Ends P Q (m s)
    → ((a : A) (s' : Session) → Q a s' → Ends P R (f a s'))
    → Ends P R ((m >>= f) s)
Ends-bind P Q R m f s h k = continue_from P Q R f (m s) h k

pub Ends-weaken :
    {A : Type 0} (P : Db → Type 0) (Q R : A → Session → Type 0) (r : Result A)
    → Ends P Q r
    → ((a : A) (s : Session) → Q a s → R a s)
    → Ends P R r
Ends-weaken P Q R (ok a s) h f = f a s h
Ends-weaken P Q R (err e s) h f = h

-- How the tables are left, either way.
pub Ends-split :
    {A : Type 0} (P R : Db → Type 0) (r : Result A)
    → Ends P (λ _ s. R s.committed) r
    → R (committed_by r) ⊎ P (committed_by r)
Ends-split P R (ok a s) h = inl h
Ends-split P R (err e s) h = inr h

-- A run that neither fails nor succeeds without a property leaves tables that have it.
pub Ends-committed :
    {A : Type 0} (P : Db → Type 0) (r : Result A)
    → Ends P (λ _ s. P s.committed) r
    → P (committed_by r)
Ends-committed P (ok a s) h = h
Ends-committed P (err e s) h = h

commit_after-Ends :
    (P : Db → Type 0) (Q : Unit {0} → Session → Type 0) (n : ℕ) (s : Session)
    → P s.committed
    → ((k : ℕ) → Q tt (record s { committed = s.current; commits = k }))
    → Ends P Q (commit_after n s)
unfolding commit_after
commit_after-Ends P Q zero s p q = p
commit_after-Ends P Q (suc k) s p q = q k

spend :
    (X : Type 0) (P : Db → Type 0) (Q : Unit {0} → Session → Type 0) (k n : ℕ) (s : Session)
    → (suc k ≤ n) ⊎ X
    → (X → P s.committed)
    → ((n : ℕ) → (k ≤ n) ⊎ X → Q tt (record s { committed = s.current; commits = n }))
    → Ends P Q (commit_after n s)
unfolding commit_after
spend X P Q k zero s (inl h) p q = absurd (omega arith)
spend X P Q k zero s (inr x) p q = p x
spend X P Q k (suc n) s (inl h) p q = q n (inl (omega arith))
spend X P Q k (suc n) s (inr x) p q = q n (inr x)

-- A commit fails with the tables as they were, or keeps them as they are.
pub commit-Ends :
    (P : Db → Type 0) (Q : Unit {0} → Session → Type 0) (s : Session)
    → P s.committed
    → ((k : ℕ) → Q tt (record s { committed = s.current; commits = k }))
    → Ends P Q (commit s)
unfolding commit
commit-Ends P Q s p q = commit_after-Ends P Q s.commits s p q

-- The same, counting: with a commit to spare, or with an excuse for stopping.
pub commit-spend :
    (X : Type 0) (P : Db → Type 0) (Q : Unit {0} → Session → Type 0) (k : ℕ) (s : Session)
    → (suc k ≤ s.commits) ⊎ X
    → (X → P s.committed)
    → ((n : ℕ) → (k ≤ n) ⊎ X → Q tt (record s { committed = s.current; commits = n }))
    → Ends P Q (commit s)
unfolding commit
commit-spend X P Q k s enough p q = spend X P Q k s.commits s enough p q
