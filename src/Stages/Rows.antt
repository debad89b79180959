-- ===== src/Stages/Rows.antt =====
-- The rows of a case, in the tables and in an answer.
use rule_kiln.Prelude.{
  ℕ, suc, Bool, false, String, List, [], ◌∷◌, ◌++◌, ◌≡◌, refl, ap, map, keep, mem_str, ◌||◌, str_eq,
  eq_iff, str_eq_self, arith,
}
use rule_kiln.Stages.Session.{MicroRule, Db}
use rule_kiln.Stages.CaseIds.{
  db_case_id, payload_case_id_from_db_case_id, payload_case_id-db_case_id, db_case_id_injective,
}
use rule_kiln.Stages.Extract.{
  MicroRuleSchema, Attempt, to_micro_rule, to_micro_rules, add_micro_rules, get_micro_rules_for_job,
  extracted_case_ids, rules_of,
}

pub keep-append {ℓ} :
    {A : Type ℓ} (p : A → Bool) (xs ys : List A) → keep p (xs ++ ys) ≡ keep p xs ++ keep p ys
keep-append p [] ys = refl
keep-append p (x ∷ xs) ys = ground (arith, keep-append p xs ys)

-- A new answer's rows stand behind those that the table holds.
pub rules_of-add_micro_rules :
    (job c : String) (rows : List MicroRule) (d : Db)
    → rules_of job c (add_micro_rules rows d)
      ≡ rules_of job c d ++ rules_of job c (record d { micro_rules = rows })
unfolding rules_of get_micro_rules_for_job add_micro_rules
rules_of-add_micro_rules job c rows d =
    rw keep-append (keep-append (λ (r : MicroRule). str_eq r.case_id (db_case_id job c)) _ _)

-- The rows of an answer are all rows of its case.
pub rules_of-to_micro_rules :
    (a : Attempt) (job c : String) (i : ℕ) (rules : List MicroRuleSchema) (d : Db)
    → rules_of job c (record d { micro_rules = to_micro_rules a job c i rules })
      ≡ to_micro_rules a job c i rules
unfolding rules_of get_micro_rules_for_job to_micro_rules
rules_of-to_micro_rules a job c i [] d = refl
rules_of-to_micro_rules a job c i (r ∷ rs) d =
    rw (str_eq_self job, str_eq_self (db_case_id job c))
      (ap (◌∷◌ (to_micro_rule a job c i r)) (rules_of-to_micro_rules a job c (suc i) rs d))

-- They are rows of no other case.
pub rules_of-to_micro_rules_other :
    (a : Attempt) (job c e : String) (i : ℕ) (rules : List MicroRuleSchema) (d : Db)
    → str_eq c e ≡ false
    → rules_of job e (record d { micro_rules = to_micro_rules a job c i rules }) ≡ []
unfolding rules_of get_micro_rules_for_job to_micro_rules
rules_of-to_micro_rules_other a job c e i [] d h = refl
rules_of-to_micro_rules_other a job c e i (r ∷ rs) d h = ground (
  arith,
  str_eq_self job,
  eq_iff (db_case_id job c) (db_case_id job e),
  eq_iff c e,
  db_case_id_injective job c e,
  rules_of-to_micro_rules_other a job c e (suc i) rs d,
)

-- A case that the set of extracted cases does not name has no rows.
unnamed :
    (job c : String) (rows : List MicroRule)
    → mem_str c (map (λ r. payload_case_id_from_db_case_id job r.case_id) rows) ≡ false
    → keep (λ r. str_eq r.case_id (db_case_id job c)) rows ≡ []
unnamed job c [] h = refl
unnamed job c (r ∷ rows) h = ground (
  arith,
  eq_iff r.case_id (db_case_id job c),
  payload_case_id-db_case_id job c,
  eq_iff (payload_case_id_from_db_case_id job r.case_id) c,
  ap (payload_case_id_from_db_case_id job) {x = r.case_id} {y = db_case_id job c},
  unnamed job c rows,
)

pub rules_of_unnamed :
    (job c : String) (d : Db) → mem_str c (extracted_case_ids job d) ≡ false → rules_of job c d ≡ []
unfolding rules_of extracted_case_ids
rules_of_unnamed job c d h = unnamed job c (get_micro_rules_for_job job d) h

pub mem_str-append :
    (c : String) (xs ys : List String) → mem_str c (xs ++ ys) ≡ (mem_str c xs || mem_str c ys)
mem_str-append c [] ys = refl
mem_str-append c (x ∷ xs) ys = ground (arith, mem_str-append c xs ys)
