-- ===== src/Queue/Tests.antt =====
-- Runs of the queue on small tables, and its theorems at concrete inputs.
use rule_kiln.Prelude.{
  ◌+◌, ◌*◌, ◌≡◌, refl, Bool, true, false, Option, none, some, [], ◌∷◌, String, arith, find, leb,
  ◌&&◌,
}
use rule_kiln.Queue.Job.{Job, new_job, is_pending}
use rule_kiln.Queue.Table.{Table, update_where, first_created}
use rule_kiln.Queue.Ops.{
  get_job, create_job, claim_next_job, recover_expired_leases, apply_job_failure_policy, seconds,
  claimed, failure_policy, backed_off, returned,
}
use rule_kiln.Queue.Steps.{AutoStep, AutoRun, Step, Reach}
use rule_kiln.Queue.Keys.{IsKeyed}
use rule_kiln.Queue.Lock.{AllConsistent, Reach-AllConsistent}
use rule_kiln.Queue.Attempts.{IsKept, AutoRun-IsKept}
use rule_kiln.Queue.Claim.{Claims, claim_next_job-Claims}
use rule_kiln.Queue.Policy.{Outcome, apply_job_failure_policy-Outcome}
use rule_kiln.Queue.Errors.{Exc, ExceptionType}
use rule_kiln.Queue.Worker.{
  WorkerSettings, IsReleased, run_claimed, run_claimed-IsReleased, IsTerminated,
  run_claimed-terminal,
}

abbrev free : Job → Bool
free j = false

abbrev waiting : Job
waiting = new_job "b" 3 10

abbrev running_row : Job
running_row = claimed "w" 60 20 (new_job "a" 3 5)

abbrev table : Table
table = running_row ∷ waiting ∷ []

table-IsKeyed : IsKeyed table
table-IsKeyed = ((refl, tt), (tt, tt))

-- The worker takes the waiting row, and leaves the running one.
claim_table : (claim_next_job "v" 60 30 free table).1 ≡ some (claimed "v" 60 30 waiting)
unfolding claim_next_job first_created update_where get_job
claim_table = refl

-- The lease of the running row ends 60 seconds after its claim.
recover_table : (recover_expired_leases (60 * 1000000 + 21) table).1 ≡ (1, 0)
unfolding recover_expired_leases update_where
recover_table = refl

claim_next_job-Claims_example : Claims "v" 60 30 free table (claim_next_job "v" 60 30 free table)
claim_next_job-Claims_example = claim_next_job-Claims "v" 60 30 free table table-IsKeyed

-- A run of the queue: a job is stored and claimed, its worker's failure policy reads it, its lease
-- runs out and is recovered, and then the policy writes.
abbrev stored : Table
stored = create_job (new_job "a" 2 5) []

abbrev held : Table
held = (claim_next_job "w" 60 20 free stored).0

abbrev recovered : Table
recovered = (recover_expired_leases 90_000_000 held).0

abbrev late_write : Table → Table
late_write t = (failure_policy "a" "timeout" true 30 90_000_001 t (get_job "a" held)).0

stored-AutoRun : AutoRun (late_write recovered) []
unfolding get_job first_created create_job
stored-AutoRun =
    AutoRun.write [] [] "a" (get_job "a" held)
      (AutoRun.next
        (AutoRun.read
          (AutoRun.claim (AutoRun.next AutoRun.here (AutoStep.create "a" 2 5 (omega arith) refl))
            "w" 60 20 free tt)
          "a")
        (AutoStep.recover 90_000_000))
      "timeout" true 30 90_000_001

AutoRun-IsKept_example : IsKept (late_write recovered)
AutoRun-IsKept_example = AutoRun-IsKept stored-AutoRun

-- With a second claim between the read and the write, the job waits with both its attempts used.
stale_policy_run :
    find
      (λ j. is_pending j.queue_status && leb j.max_attempts j.attempt_count)
      (late_write (claim_next_job "v" 60 90_000_000 free recovered).0)
    ≡ some (
        backed_off "timeout" 30 90_000_001
          (claimed "v" 60 90_000_000 (returned (claimed "w" 60 20 (new_job "a" 2 5)))))
unfolding claim_next_job recover_expired_leases first_created update_where get_job create_job
stale_policy_run = refl

stored-Reach : Reach [] held
unfolding get_job
stored-Reach =
    Reach.next (Reach.next Reach.here (Step.auto (AutoStep.create "a" 2 5 (omega arith) refl)))
      (Step.claim "w" 60 20 free)

Reach-AllConsistent_example : AllConsistent held
Reach-AllConsistent_example = Reach-AllConsistent stored-Reach

apply_job_failure_policy-Outcome_example :
    Outcome "a" "boom" true
      (40 + seconds 30)
      table
      running_row
      true
      (apply_job_failure_policy "a" "boom" true 30 40 table)
unfolding get_job
apply_job_failure_policy-Outcome_example =
    apply_job_failure_policy-Outcome "a" "boom" true 30 40 table running_row refl

abbrev defaults : WorkerSettings
defaults = record { worker_lease_seconds = 60; worker_retry_backoff_seconds = 30 }

abbrev key_error : Exc
key_error = record {
  type_name = "KeyError";
  instance_of = ExceptionType.key_error ∷ [];
  errno = none;
  text = "'label'";
}

-- A workflow that leaves the table alone and fails on a missing key.
abbrev broken_workflow : Job → Table → Table × Option Exc
broken_workflow j t = (t, some key_error)

abbrev same : String → String
same s = s

run_claimed-IsReleased_example :
    IsReleased same true defaults broken_workflow "a"
      (run_claimed same true defaults broken_workflow 40 (table, some running_row))
unfolding get_job
run_claimed-IsReleased_example =
    run_claimed-IsReleased same true defaults broken_workflow 40 table running_row running_row refl

run_claimed-terminal_example :
    IsTerminated same true defaults broken_workflow "a" key_error
      (run_claimed same true defaults broken_workflow 40 (table, some running_row))
unfolding get_job
run_claimed-terminal_example =
    run_claimed-terminal same true defaults broken_workflow 40 table table running_row running_row
      key_error refl refl refl
