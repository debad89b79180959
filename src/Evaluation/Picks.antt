-- ===== src/Evaluation/Picks.antt =====
-- The tie-breaks of the selection: each picks one of its contenders.
use rule_kiln.Prelude.{
  ℕ, ◌≡◌, ◌≢◌, refl, ap, subst, Bool, true, false, Option, List, [], ◌∷◌, String, str_eq, eq_iff,
  keep, any, length, All, All-keep_of, All-sort_by, sort_by, sort_by-length, arith, if_elim, ◌==◌,
  str_lt, ℤ,
}
use rule_kiln.Numbers.{Floats}
use rule_kiln.Evaluation.Cases.{TaskMode}
use rule_kiln.Evaluation.Select.{
  Reason, Entry, Gates, stable_order, default_hdbscan, le, abs, primary_metric_epsilon,
  malformed_epsilon, bottom_of, least_of, select_lowest_malformed, select_least, single, first_name,
  last_choice, by_tokens, by_malformed, by_golden,
}
use rule_kiln.Evaluation.Ties.{keep-nonempty, any-All, bottom_attained, least_attained, IsChosen}

module _ (floats : Floats) (int_of : floats.F → ℤ)
    (cancel : (x : floats.F) → floats.sub x x ≡ floats.of_ℕ 0)
    (small : floats.lt (primary_metric_epsilon floats int_of) (floats.of_ℕ 0) ≡ false)
    (tiny : floats.lt (malformed_epsilon floats int_of) (floats.of_ℕ 0) ≡ false) where
  open floats use {F, lt, of_ℕ, sub, lt_order}

  abbrev E : Type 0
  E = Entry floats int_of

  -- What picks one of any contenders with the property.
  abbrev pub Picks : (E → Type 0) → (List E → Option (String × Reason floats int_of)) → Type 0
  Picks Q next = (cs : List E) → All Q cs → cs ≢ [] → IsChosen floats int_of Q (next cs)

  pub single-Picks :
      (Q : E → Type 0) (why : E → Reason floats int_of) (cs : List E)
      (next : List E → Option (String × Reason floats int_of))
      → Picks Q next
      → All Q cs
      → cs ≢ []
      → IsChosen floats int_of Q (single floats int_of why cs next)
  single-Picks Q why [] next picks q some_left = picks [] q some_left
  single-Picks Q why (c ∷ []) next picks q some_left = (c.0, why c, refl, (c, q.0, refl))
  single-Picks Q why (c ∷ d ∷ cs) next picks q some_left = picks (c ∷ d ∷ cs) q some_left

  select_least-Picks :
      (Q : E → Type 0) (f : E → ℕ) (why : E → Reason floats int_of)
      (next : List E → Option (String × Reason floats int_of))
      → Picks Q next
      → Picks Q (λ cs. single floats int_of why (select_least floats int_of f cs) next)
  unfolding select_least
  select_least-Picks Q f why next picks [] q some_left =
      single-Picks Q why [] next picks q some_left
  select_least-Picks Q f why next picks (c ∷ cs) q some_left =
      let p : E → Bool = λ d. f d == least_of floats int_of f c cs in
      single-Picks Q why (keep p (c ∷ cs)) next picks (All-keep_of Q p (c ∷ cs) q) (
        keep-nonempty p (c ∷ cs) (least_attained floats int_of f p c cs (λ d e. ground (arith, e))))

  lt_irrefl : (x : F) → lt x x ≡ false
  lt_irrefl x = ground (arith, lt_order.asymm x x)

  pub near : (x : F) → le floats int_of (sub x x) (primary_metric_epsilon floats int_of) ≡ true
  near x = rw (cancel x, small)

  near_abs :
      (x : F)
      → le floats int_of (abs floats int_of (sub x x)) (malformed_epsilon floats int_of) ≡ true
  near_abs x = rw (cancel x, lt_irrefl (of_ℕ 0), tiny)

  select_lowest_malformed-Picks :
      (Q : E → Type 0) (why : E → Reason floats int_of)
      (next : List E → Option (String × Reason floats int_of))
      → Picks Q next
      → Picks Q (λ cs. single floats int_of why (select_lowest_malformed floats int_of cs) next)
  unfolding select_lowest_malformed
  select_lowest_malformed-Picks Q why next picks [] q some_left =
      single-Picks Q why [] next picks q some_left
  select_lowest_malformed-Picks Q why next picks (c ∷ cs) q some_left =
      let rate : E → F = λ e. e.1.malformed_output_rate in
      let p : E → Bool = λ d.
        le floats int_of (abs floats int_of (sub (rate d) (bottom_of floats int_of rate c cs)))
          (malformed_epsilon floats int_of) in
      single-Picks Q why (keep p (c ∷ cs)) next picks (All-keep_of Q p (c ∷ cs) q) (
        keep-nonempty p (c ∷ cs) (
          bottom_attained floats int_of rate p c cs (λ d e.
            subst
              (λ x.
                le floats int_of (abs floats int_of (sub (rate d) x))
                  (malformed_epsilon floats int_of)
                ≡ true)
              e (near_abs (rate d)))))

  first_name-Chosen : (Q : E → Type 0) → Picks Q (first_name floats int_of)
  first_name-Chosen Q [] q some_left = ground (arith, some_left refl)
  first_name-Chosen Q (c ∷ cs) q some_left = (c.0, stable_order, refl, (c, q.0, refl))

  sort_by-nonempty : (before : E → E → Bool) (cs : List E) → cs ≢ [] → sort_by before cs ≢ []
  sort_by-nonempty before [] some_left e = some_left refl
  sort_by-nonempty before (c ∷ cs) some_left e =
      let same = ap (λ xs. length xs) e in omega (arith, same, sort_by-length before (c ∷ cs))

  last_choice-Picks : (Q : E → Type 0) → Picks Q (last_choice floats int_of)
  unfolding last_choice
  last_choice-Picks Q cs q some_left =
      let before : E → E → Bool = λ c d. str_lt c.0 d.0 in
      let is_hdbscan : E → Bool = λ c. str_eq c.0 "hdbscan" in
      if_elim (IsChosen floats int_of Q) (any is_hdbscan cs)
        (λ found.
          let (c, holds, same) = any-All Q is_hdbscan cs q found in
          ("hdbscan", default_hdbscan, refl, (c, holds, (eq_iff c.0 "hdbscan").0 same)))
        (λ _.
          first_name-Chosen Q (sort_by before cs) (All-sort_by before Q cs q)
            (sort_by-nonempty before cs some_left))

  module _ (mode : TaskMode) (gates : Gates floats int_of) (prompt_tokens : List (String × ℕ)) where
    by_tokens-Picks : (Q : E → Type 0) → Picks Q (by_tokens floats int_of mode gates prompt_tokens)
    unfolding by_tokens
    by_tokens-Picks Q = select_least-Picks Q _ _ _ (last_choice-Picks Q)

    by_malformed-Picks :
        (Q : E → Type 0) → Picks Q (by_malformed floats int_of mode gates prompt_tokens)
    unfolding by_malformed
    by_malformed-Picks Q = select_lowest_malformed-Picks Q _ _ (by_tokens-Picks Q)

    pub by_golden-Picks :
        (Q : E → Type 0) → Picks Q (by_golden floats int_of mode gates prompt_tokens)
    unfolding by_golden
    by_golden-Picks Q = select_least-Picks Q _ _ _ (by_malformed-Picks Q)
