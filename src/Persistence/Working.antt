-- ===== src/Persistence/Working.antt =====
-- cmd/worker/main.go: the worker over the Postgres backend.
use durablego.Base.{
  String, ◌≡◌, refl, List, Option, none, some, pos, text_eq, if◌then◌else◌, ◌||◌, true, false,
}
use durablego.Types.{Claim}
use durablego.Config.{Config}
use durablego.Api.Backend.{Failure, failure_text, Reply, good, bad}
use durablego.Engine.History.{Call, completes, fails}
use durablego.Persistence.Session.{Postgres, Tx}
use durablego.Persistence.Claim.{claim as pg_claim}
use durablego.Persistence.Lease.{complete as pg_complete, fail as pg_fail}
use durablego.Persistence.History.{outcome, serve, run}
use durablego.Persistence.History.Safety.{IsReady}
use durablego.Worker.{
  WorkerBackend, Handler, Runtime, with_defaults, after_call, report, execute_with, execute,
}
use durablego.Persistence.Fencing.{Rejects, IsLost, pg_lost_lease_stays_lost}

-- *Postgres as the Backend of the worker: none of its methods panics.
abbrev pub postgres_for_workers : WorkerBackend Postgres
postgres_for_workers = record {
  claim = λ worker queue p. some (pg_claim worker queue p);
  complete = λ id worker token p. some (pg_complete id worker token p);
  fail = λ id worker token retryable message p. some (pg_fail id worker token retryable message p);
}

-- The handlers of main, which all return nil; the sleep of one of them is left out.
unfoldable pub demo_handlers : String → Option Handler
demo_handlers name =
    if text_eq name "validate"
      || text_eq name "payment"
      || text_eq name "inventory"
      || text_eq name "email"
      || text_eq name "analytics"
    then some (λ _. none)
    else none

-- The runtime of main, which sets neither the task queue nor the poll interval.
unfoldable pub demo_worker : Config → Runtime
unfolding with_defaults demo_handlers
demo_worker cfg = with_defaults cfg.worker_id "" (pos 2) (pos 0) demo_handlers

-- The call by which a handler's result is reported.
abbrev handled_call : Runtime → Claim → Option Failure → Call
handled_call r c none = completes c.activity_id r.worker_id c.fencing_token
handled_call r c (some x) = fails c.activity_id r.worker_id c.fencing_token true (failure_text x)

abbrev report_call : Runtime → Claim → Option Handler → Call
report_call r c none = fails c.activity_id r.worker_id c.fencing_token false "no handler registered"
report_call r c (some h) = handled_call r c (h c)

after_call-outcome :
    {A : Type 0} (x : Reply A × Postgres) → after_call (some x) ≡ some (outcome x).1
after_call-outcome (good a, p) = refl
after_call-outcome (bad e, p) = refl

report-serve :
    (r : Runtime) (c : Claim) (x : Option Failure) (p : Postgres)
    → report postgres_for_workers r c x p ≡ some (serve (handled_call r c x) p).1
unfolding report serve
report-serve r c none p =
    after_call-outcome (pg_complete c.activity_id r.worker_id c.fencing_token p)
report-serve r c (some x) p =
    after_call-outcome (pg_fail c.activity_id r.worker_id c.fencing_token true (failure_text x) p)

execute_with-serve :
    (r : Runtime) (c : Claim) (o : Option Handler) (p : Postgres)
    → execute_with postgres_for_workers r o c p ≡ some (serve (report_call r c o) p).1
unfolding execute_with serve
execute_with-serve r c none p =
    after_call-outcome
      (pg_fail c.activity_id r.worker_id c.fencing_token false "no handler registered" p)
execute_with-serve r c (some h) p = report-serve r c (h c) p

execute-serve :
    (r : Runtime) (c : Claim) (p : Postgres)
    → execute postgres_for_workers r c p ≡ some (serve (report_call r c (r.handlers c.name)) p).1
unfolding execute
execute-serve r c p = execute_with-serve r c (r.handlers c.name) p

-- The call changes no activity and no workflow.
Spares : Call → Postgres → Type 0
Spares c p =
    ((serve c p).1.committed.activities ≡ p.committed.activities)
    × ((serve c p).1.committed.workflows ≡ p.committed.workflows)

Rejects-outcome :
    (m : Tx (Unit {0})) (p : Postgres)
    → Rejects m p
    → ((outcome (m p)).1.committed.activities ≡ p.committed.activities)
      × ((outcome (m p)).1.committed.workflows ≡ p.committed.workflows)
Rejects-outcome m p (x, q, e, same, flows) = rw e (same, flows)

report_call-Spares :
    (r : Runtime) (c : Claim) (o : Option Handler) (cs : List Call) (p : Postgres)
    → IsReady p
    → IsLost c.activity_id c.fencing_token p
    → Spares (report_call r c o) (run cs p)
unfolding Spares serve
report_call-Spares r c none cs p ready lost =
    let (_, _, k) =
      pg_lost_lease_stays_lost c.activity_id r.worker_id c.fencing_token false
        "no handler registered" cs p ready lost in
    Rejects-outcome
      (pg_fail c.activity_id r.worker_id c.fencing_token false "no handler registered") (run cs p) k
report_call-Spares r c (some h) cs p ready lost = by_result (h c)
  where
    by_result : (x : Option Failure) → Spares (handled_call r c x) (run cs p)
    by_result none =
        let (_, k, _) =
          pg_lost_lease_stays_lost c.activity_id r.worker_id c.fencing_token true "" cs p ready
            lost in
        Rejects-outcome (pg_complete c.activity_id r.worker_id c.fencing_token) (run cs p) k
    by_result (some x) =
        let (_, _, k) =
          pg_lost_lease_stays_lost c.activity_id r.worker_id c.fencing_token true (failure_text x)
            cs p ready lost in
        Rejects-outcome (pg_fail c.activity_id r.worker_id c.fencing_token true (failure_text x))
          (run cs p) k

-- A worker over the Postgres backend whose claim was lost, because a later claim overtook its token or
-- because the activity stopped running: whatever its handler then returns, or if there is none, and
-- after any further history, in which any calls of the driver may fail, what it reports changes no
-- activity and no workflow.
pub lost_report_spares_rows :
    (r : Runtime) (c : Claim) (cs : List Call) (p : Postgres)
    → IsReady p
    → IsLost c.activity_id c.fencing_token p
    → (q : Postgres) × (execute postgres_for_workers r c (run cs p) ≡ some q)
      × (q.committed.activities ≡ (run cs p).committed.activities)
      × (q.committed.workflows ≡ (run cs p).committed.workflows)
unfolding Spares
lost_report_spares_rows r c cs p ready lost =
    let (rows, flows) = report_call-Spares r c (r.handlers c.name) cs p ready lost in
    (
      (serve (report_call r c (r.handlers c.name)) (run cs p)).1,
      execute-serve r c (run cs p),
      rows,
      flows,
    )
