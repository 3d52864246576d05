-- ===== src/Examples/Database/Leases.antt =====
-- The holder of a lease of the Postgres backend, and one whose lease is lost.
use durablego.Config.{Config}
use durablego.Worker.{execute}
use durablego.Persistence.Session.{Postgres}
use durablego.Persistence.Working.{postgres_for_workers, demo_worker, lost_report_spares_rows}
use durablego.Examples.Database.{first_claim}
use durablego.Base.{pos, ◌<◌, ◌≡◌, refl, inl, true, false, List, [], ◌∷◌, none, some, arith}
use durablego.Types.{ActivityStatus}
use durablego.Engine.History.{Call, claims, cancels, passes}
use durablego.Persistence.Tables.{ActivityRow, find_activity}
use durablego.Persistence.Session.{Postgres}
use durablego.Persistence.Lease.{heartbeat, complete, fail}
use durablego.Persistence.History.{run}
use durablego.Persistence.History.Safety.{IsReady, run-Follows}
use durablego.Persistence.Fencing.{HoldsLease, IsLost, Rejects, pg_lost_lease_stays_lost}
use durablego.Persistence.Progress.{IsFaultless, IsAccepted}
use durablego.Persistence.Progress.Leases.{holders_heard}
use durablego.Examples.Database.{
  database, begun, evaluated, reclaimed, brief_opened, brief_opened-IsReady,
}

abbrev taken : Postgres
taken = run reclaimed brief_opened

taken-IsReady : IsReady taken
taken-IsReady = (run-Follows reclaimed brief_opened brief_opened-IsReady).1

-- Worker b's row.
abbrev taken_row : ActivityRow
taken_row = record {
  id = "id-7";
  workflow_execution_id = "id-4";
  name = "validate";
  task_queue = "default";
  status = ActivityStatus.running;
  attempt = 2;
  max_attempts = 2;
  retry_backoff_ms = 1000;
  lease_owner = some "b";
  lease_expires_at = some 1022;
  heartbeat_at = some 1022;
  fencing_token = 2;
  next_attempt_at = 1000;
  last_error = none;
  created_at = 1000;
  updated_at = 1022;
}

taken_found : find_activity "id-7" taken.committed.activities ≡ some taken_row
unfolding evaluated
taken_found = refl

taken-IsLost : IsLost "id-7" 1 taken
taken-IsLost = (taken_row, taken_found, inl (omega arith))

abbrev later_calls : List Call
later_calls = passes ∷ claims "a" "default" ∷ cancels "id-4" ∷ []

pg_lost_lease_stays_lost_example :
    Rejects (heartbeat "id-7" "a" 1) (run later_calls taken)
    × Rejects (complete "id-7" "a" 1) (run later_calls taken)
    × Rejects (fail "id-7" "a" 1 false "late") (run later_calls taken)
pg_lost_lease_stays_lost_example =
    pg_lost_lease_stays_lost "id-7" "a" 1 false "late" later_calls taken taken-IsReady taken-IsLost

-- The demonstration's worker, with the claim that was overtaken.
abbrev config : Config
config = record {
  addr = ":8080";
  database_url = "postgres://localhost/durablego";
  lease_ttl = pos 30_000_000_000;
  max_attempts = 3;
  worker_id = "a";
  api_key = "";
}

lost_report_spares_rows_example :
    (q : Postgres) × (execute postgres_for_workers
        (demo_worker config)
        first_claim
        (run later_calls taken)
      ≡ some q)
    × (q.committed.activities ≡ (run later_calls taken).committed.activities)
    × (q.committed.workflows ≡ (run later_calls taken).committed.workflows)
lost_report_spares_rows_example =
    lost_report_spares_rows (demo_worker config) first_claim later_calls taken taken-IsReady
      taken-IsLost

-- The row that worker "a" holds.
abbrev held_by_a : ActivityRow
held_by_a = record {
  id = "id-7";
  workflow_execution_id = "id-4";
  name = "validate";
  task_queue = "default";
  status = ActivityStatus.running;
  attempt = 1;
  max_attempts = 2;
  retry_backoff_ms = 1000;
  lease_owner = some "a";
  lease_expires_at = some 5_000_001_013;
  heartbeat_at = some 1013;
  fencing_token = 1;
  next_attempt_at = 1000;
  last_error = none;
  created_at = 1000;
  updated_at = 1013;
}

held_found : find_activity "id-7" (run begun database).committed.activities ≡ some held_by_a
unfolding evaluated
held_found = refl

held_early : (run begun database).driver.clock (run begun database).calls < 5_000_001_013
unfolding evaluated
held_early = omega arith

held-HoldsLease : HoldsLease "id-7" "a" 1 (run begun database)
held-HoldsLease = (held_by_a, held_found, refl, refl, refl, (5_000_001_013, refl, held_early))

run-IsFaultless : IsFaultless (run begun database)
unfolding evaluated
run-IsFaultless k = refl

holders_heard_example :
    IsAccepted (heartbeat "id-7" "a" 1 (run begun database)).0
    × IsAccepted (complete "id-7" "a" 1 (run begun database)).0
    × IsAccepted (fail "id-7" "a" 1 true "out of stock" (run begun database)).0
holders_heard_example =
    holders_heard "id-7" "a" 1 true "out of stock" (run begun database) run-IsFaultless
      held-HoldsLease
