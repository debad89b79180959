-- ===== src/Queue/Recovery.antt =====
-- Lease recovery: the two updates of `recover_expired_leases` as one pass over the table.
use rule_kiln.Prelude.{ℕ, ltb, if◌then◌else◌}
use rule_kiln.Queue.Job.{Job}
use rule_kiln.Queue.Table.{Table}
use rule_kiln.Queue.Ops.{is_expired, returned, exhausted}

-- A job whose lease ran out goes back to the queue if it has an attempt left, and fails otherwise.
abbrev pub recover_row : ℕ → Job → Job
recover_row now j =
    if is_expired now j
    then (if ltb j.attempt_count j.max_attempts then returned j else exhausted j)
    else j
