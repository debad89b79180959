-- ===== src/Stages/Markers/Laws.antt =====
-- What `mark_stage_complete` and `is_stage_complete` do, and that no marker is written twice.
use rule_kiln.Prelude.{
  ◌≤◌, ◌+◌, Bool, true, false, ◌||◌, String, Option, none, some, List, [], ◌∷◌, ◌++◌, ◌≡◌, refl,
  sym, keep, any, count_if, if◌then◌else◌, eq_iff, arith, Bool-cases, inl, inr, str_eq_self,
}
use rule_kiln.Stages.Session.{StageMarker, Db, Session, ok, commit, Ends}
use rule_kiln.Stages.Markers.{
  same_text, same_marker, add_marker, mark_stage_complete, is_stage_complete, is_marked, AreUnique,
}

same_text_self : (o : Option String) → same_text o o ≡ true
same_text_self none = refl
same_text_self (some a) = str_eq_self a

same_text-eq : (o p : Option String) → same_text o p ≡ true → o ≡ p
same_text-eq none none h = refl
same_text-eq (some a) (some b) h = ground (arith, eq_iff a b)
same_text-eq none (some b) h = cc
same_text-eq (some a) none h = cc

pub same_marker_self : (k : StageMarker) → same_marker k k ≡ true
unfolding same_marker
same_marker_self k = ground (
  arith,
  str_eq_self k.job_id,
  str_eq_self k.stage,
  same_text_self k.strategy,
  same_text_self k.artifact_type,
)

pub same_marker-eq : (k m : StageMarker) → same_marker k m ≡ true → m ≡ k
unfolding same_marker
same_marker-eq k m h = ground (
  arith,
  eq_iff m.job_id k.job_id,
  eq_iff m.stage k.stage,
  same_text-eq m.strategy k.strategy,
  same_text-eq m.artifact_type k.artifact_type,
)

-- What the query finds, as against what stands in the table.
module _ (p : StageMarker → Bool) where
  keep-head :
      (m : StageMarker) (ms rest : List StageMarker) → keep p ms ≡ m ∷ rest → any p ms ≡ true
  keep-head m [] rest e = ground arith
  keep-head m (x ∷ ms) rest e = ground (arith, keep-head m ms rest)

  keep-nil : (ms : List StageMarker) → keep p ms ≡ [] → any p ms ≡ false
  keep-nil [] e = refl
  keep-nil (x ∷ ms) e = ground (arith, keep-nil ms)

  count-any : (ms : List StageMarker) → any p ms ≡ false → count_if p ms ≡ 0
  count-any [] e = refl
  count-any (x ∷ ms) e = ground (arith, count-any ms)

  any-append : (ms : List StageMarker) (m : StageMarker) → any p (ms ++ m ∷ []) ≡ (any p ms || p m)
  any-append [] m = ground arith
  any-append (x ∷ ms) m = ground (arith, any-append ms m)

  count-append :
      (ms : List StageMarker) (m : StageMarker)
      → count_if p (ms ++ m ∷ []) ≡ count_if p ms + (if p m then 1 else 0)
  count-append [] m = ground arith
  count-append (x ∷ ms) m = ground (arith, count-append ms m)

  keep_one :
      (b : StageMarker) (ms rest : List StageMarker) → keep p ms ≡ b ∷ rest → 1 ≤ count_if p ms
  keep_one b [] rest e = ground arith
  keep_one b (x ∷ ms) rest e = ground (arith, keep_one b ms rest)

  keep_two :
      (a b : StageMarker) (ms rest : List StageMarker)
      → keep p ms ≡ a ∷ b ∷ rest
      → 2 ≤ count_if p ms
  keep_two a b [] rest e = ground arith
  keep_two a b (x ∷ ms) rest e = ground (arith, keep_two a b ms rest, keep_one b ms rest)

data Found (k : StageMarker) (ms rows : List StageMarker) : Type 0 where
  nothing : rows ≡ [] → any (same_marker k) ms ≡ false → Found k ms rows
  one : (m : StageMarker) → rows ≡ m ∷ [] → any (same_marker k) ms ≡ true → Found k ms rows
  several :
      (a b : StageMarker) (rest : List StageMarker)
      → rows ≡ a ∷ b ∷ rest
      → 2 ≤ count_if (same_marker k) ms
      → Found k ms rows

lookup_rows :
    (k : StageMarker) (ms rows : List StageMarker)
    → keep (same_marker k) ms ≡ rows
    → Found k ms rows
lookup_rows k ms [] e = nothing refl (keep-nil (same_marker k) ms e)
lookup_rows k ms (m ∷ []) e = one m refl (keep-head (same_marker k) m ms [] e)
lookup_rows k ms (a ∷ b ∷ rest) e = several a b rest refl (keep_two (same_marker k) a b ms rest e)

found : (k : StageMarker) (ms : List StageMarker) → Found k ms (keep (same_marker k) ms)
found k ms = lookup_rows k ms (keep (same_marker k) ms) refl

-- Asking for a marker changes nothing, and answers whether it stands unless it stands twice.
pub is_stage_complete_lem :
    (P : Db → Type 0) (k : StageMarker) (s : Session)
    → P s.committed
    → Ends P (λ b s'. (s' ≡ s) × (b ≡ is_marked k s.current)) (is_stage_complete k s)
unfolding is_stage_complete
is_stage_complete_lem P k s h = elim (found k s.current.markers) [
  | nothing e a ↦ rw e (refl, sym a)
  | one m e a ↦ rw e (refl, sym a)
  | several a b rest e _ ↦ rw e h
]

-- Where no marker stands twice, it always answers.
pub is_stage_complete-ok :
    (k : StageMarker) (s : Session)
    → AreUnique s.current.markers
    → is_stage_complete k s ≡ ok (is_marked k s.current) s
unfolding is_stage_complete
is_stage_complete-ok k s u = elim (found k s.current.markers) [
  | nothing e a ↦ rw (e, a) refl
  | one m e a ↦ rw (e, a) refl
  | several a b rest e c ↦ absurd (omega (arith, u k))
]

-- What marking does: nothing where the marker stands, and else it is added and committed.
pub mark_stage_complete-ok :
    (k : StageMarker) (s : Session)
    → AreUnique s.current.markers
    → mark_stage_complete k s ≡ (
        if is_marked k s.current
        then ok tt s
        else commit (record s { current = add_marker k s.current }))
unfolding mark_stage_complete
mark_stage_complete-ok k s u = elim (found k s.current.markers) [
  | nothing e a ↦ rw (e, a) refl
  | one m e a ↦ rw (e, a) refl
  | several a b rest e c ↦ absurd (omega (arith, u k))
]

-- A marker that does not stand yet may be added.
pub add_marker-AreUnique :
    (k : StageMarker) (d : Db)
    → AreUnique d.markers
    → is_marked k d ≡ false
    → AreUnique (add_marker k d).markers
unfolding add_marker
add_marker-AreUnique k d u none_yet j = elim (Bool-cases (same_marker j k)) [
  | inl same ↦ rw (sym (same_marker-eq j k same)) (
      ground (arith, count-append (same_marker k) d.markers k, count-any (same_marker k) d.markers))
  | inr other ↦ ground (arith, count-append (same_marker j) d.markers k, u j)
]

pub is_marked-add_marker :
    (j k : StageMarker) (d : Db) → is_marked j (add_marker k d) ≡ (is_marked j d || same_marker j k)
unfolding add_marker
is_marked-add_marker j k d = any-append (same_marker j) d.markers k
