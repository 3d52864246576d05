-- ===== src/Examples/Database.antt =====
-- Runs of the Postgres backend on the workflow of the examples, and its theorems at such runs.
pub mod Claims
pub mod Faults
pub mod Leases
pub mod Passes
pub mod Starts
pub mod Overlaps
pub mod Serving
use durablego.Base.{
  ℕ, ◌+◌, ◌<◌, ◌≤◌, ◌==◌, if◌then◌else◌, String, ◌≡◌, refl, ap, inl, true, false, List, [], ◌∷◌,
  Option, none, some, pos, decimal, padded, mul_int64, map, In, find, text_eq, concat, arith,
}
use durablego.Types.{ActivityStatus, WorkflowStatus, Claim, Workflow}
use durablego.Api.Backend.{other, Reply, good, bad}
use durablego.Engine.History.{Call, starts, claims, cancels, passes}
use durablego.Engine.Start.{
  lacks_required, validate, initial_status, check_names, check_deps, check_all_deps, contains,
}
use durablego.Persistence.Tables.{ActivityRow, find_activity, empty_tables}
use durablego.Persistence.Session.{
  Driver, Postgres, new_postgres, follow, met, driver_call, statement, begin, commit, commit_met,
  rollback, attempt, rolled_back, deferring_rollback, for_each, explained,
}
use durablego.Persistence.Helpers.{
  upsert_namespace, ensure_namespace, new_event, append_event, scanned, judged_row, found_row,
  lock_activity, current_lease, is_blocked, is_due, update_returning, release_ready, is_done,
  update_workflows, log_completion, complete_workflow_if_done,
}
use durablego.Persistence.Reads.{
  created_before, named_before, dependencies_of, loaded, activities_of, load_activities, event_of,
  events_of, load_events, joined, select_workflow, read_workflow, workflow_tx, workflow, all_joined,
  list_workflows,
}
use durablego.Persistence.Claim.{
  is_pickable, picked, leased, lease_picked, claim_of_row, claim_picked, claim,
}
use durablego.Persistence.Lease.{
  update_activity, reject, judged, with_lease, extend, heartbeat, finish, complete, retried,
  schedule_retry, failed, fail_workflow, give_up, fail,
}
use durablego.Persistence.Cancel.{
  is_waiting, cancel_live, cancel_found, cancel, is_expired, expired, note_expired,
  run_scheduler_pass,
}
use durablego.Persistence.Start.{
  refused, select_key, crash_with, crash_hook, known_workflow, existing_found,
  existing_idempotent_workflow, start_keyed, create, start_found, known_key, start_checked, start,
}
use durablego.Persistence.Start.Rows.{
  accepted, upsert_definition, ensure_definition, new_workflow_row, workflow_inserted,
  insert_workflow, key_inserted, insert_key, keep_key, new_activity_row, activity_inserted,
  insert_activity, dependency_inserted, insert_dependency, schedule,
}
use durablego.Persistence.Progress.{IsFaultless}
use durablego.Persistence.History.{outcome, serve, run}
use durablego.Persistence.History.Safety.{
  IsReady, IsAtomic, new_postgres-IsReady, serve-IsAtomic, run-Follows,
}
use durablego.Engine.State.{second}
use durablego.Persistence.Follows.{Follows}
use durablego.Persistence.Fencing.{
  HoldsLease, IsLost, Rejects, only_holders_heard, pg_lost_lease_stays_lost,
}
use durablego.Persistence.Claims.{Granted, claim-Granted, short_lease-not-HoldsLease}
use durablego.Persistence.Start.Rows.{is_key}
use durablego.Persistence.KnownKeys.{known_key_starts_nothing}
use durablego.Persistence.Passes.Settled.{IsSettled}
use durablego.Examples.{order}

-- The time grows by one with each call of the driver, ids are numbered, and no call fails.
abbrev pub driver : Driver
driver = record {
  fault = λ k. none;
  clock = λ k. 1000 + k;
  uuid = λ k. concat "id-" (decimal k);
  serial = λ k. k;
  lands = λ k. false;
  locked = λ k id. false;
  arrange = λ rows. rows;
}

abbrev pub database : Postgres
database = new_postgres driver (pos 5_000_000_000) (pos 3) empty_tables

pub database-IsReady : IsReady database
database-IsReady = new_postgres-IsReady driver (pos 5_000_000_000) (pos 3)

abbrev pub begun : List Call
begun = starts order "k" ∷ claims "a" "default" ∷ []

-- What a run computes with.
unfoldable pub evaluated : Unit {0}
unfolding run serve new_postgres follow met driver_call statement begin commit commit_met rollback
    attempt rolled_back deferring_rollback for_each explained decimal padded upsert_namespace
    ensure_namespace new_event append_event scanned judged_row found_row lock_activity current_lease
    is_blocked is_due update_returning release_ready is_done update_workflows log_completion
    complete_workflow_if_done created_before named_before dependencies_of loaded activities_of
    load_activities event_of events_of load_events joined select_workflow read_workflow workflow_tx
    workflow all_joined list_workflows is_pickable picked leased lease_picked claim_of_row
    claim_picked claim update_activity reject judged with_lease extend heartbeat finish complete
    retried schedule_retry failed fail_workflow give_up fail is_waiting cancel_live cancel_found
    cancel is_expired expired note_expired run_scheduler_pass refused accepted select_key
    upsert_definition ensure_definition new_workflow_row workflow_inserted insert_workflow
    key_inserted insert_key keep_key new_activity_row activity_inserted insert_activity
    dependency_inserted insert_dependency schedule crash_with crash_hook known_workflow
    existing_found existing_idempotent_workflow start_keyed create start_found known_key
    start_checked start mul_int64 lacks_required validate initial_status check_names check_deps
    check_all_deps contains
evaluated = tt

-- The rows of the activities: the id, the status, the token and the deadline of each.
abbrev pub shown : Postgres → List (String × ActivityStatus × ℕ × Option ℕ)
shown p =
    map (λ (a : ActivityRow). (a.id, a.status, a.fencing_token, a.lease_expires_at))
      p.committed.activities

pub shown-run :
    shown (run begun database)
    ≡ ("id-7", ActivityStatus.running, 1, some 5_000_001_013)
      ∷ ("id-9", ActivityStatus.retry_pending, 0, none)
      ∷ []
unfolding evaluated
shown-run = refl

-- What a claim of worker "a" returns once the workflow has started.
abbrev pub first_claim : Claim
first_claim = record {
  activity_id = "id-7";
  workflow_id = "id-4";
  name = "validate";
  attempt = 1;
  fencing_token = 1;
  lease_expires_at = 5_000_001_013;
  application_key = "id-4:validate";
}

abbrev pub opened : Postgres
opened = run (starts order "k" ∷ []) database

pub opened-IsReady : IsReady opened
opened-IsReady = (run-Follows (starts order "k" ∷ []) database database-IsReady).1

-- What the call left.
pub returned :
    {A : Type 0} (r : Reply A × Postgres) (a : A) → r.0 ≡ good a → r ≡ (good a, (outcome r).1)
returned (good b, p) a e = ap (λ x. (x, p)) e
returned (bad x, p) a e = absurd (ground arith)

-- Worker a's lease runs out, and worker b claims the activity.
abbrev pub reclaimed : List Call
reclaimed = claims "a" "default" ∷ passes ∷ claims "b" "default" ∷ []

-- A lease of ten nanoseconds.
abbrev pub brief : Postgres
brief = new_postgres driver (pos 10) (pos 3) empty_tables

abbrev pub brief_opened : Postgres
brief_opened = run (starts order "k" ∷ []) brief

pub brief_opened-IsReady : IsReady brief_opened
brief_opened-IsReady =
    (run-Follows (starts order "k" ∷ []) brief (new_postgres-IsReady driver (pos 10) (pos 3))).1

pub run-IsReady : IsReady (run begun brief)
run-IsReady = (run-Follows begun brief (new_postgres-IsReady driver (pos 10) (pos 3))).1

pub opened-IsFaultless : IsFaultless opened
unfolding evaluated
opened-IsFaultless k = refl
