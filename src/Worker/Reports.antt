-- ===== src/Worker/Reports.antt =====
-- What the worker's report of an activity does to the engine.
use durablego.Base.{◌≡◌, refl, ◌∙◌, ◌⊎◌, inl, inr, true, false, Option, none, some}
use durablego.Types.{Claim, Err}
use durablego.Engine.State.{Engine, M}
use durablego.Engine.Claim.{claim as engine_claim}
use durablego.Engine.Lease.{complete as engine_complete, fail as engine_fail}
use durablego.Engine.Lease.Fencing.{HoldsLease, Hears, lease_calls_fenced}
use durablego.Engine.Steps.Valid.{EngineIsValid}
use durablego.Api.Backend.{Failure, failure_text, reply_of, unit_reply_of}
use durablego.Worker.{WorkerBackend, Runtime, Handler, after_call, report, execute_with, execute}

-- *Engine as a backend of the worker.
abbrev pub engine_for_workers : WorkerBackend Engine
engine_for_workers = record {
  claim = λ worker queue e. reply_of (engine_claim worker queue e);
  complete = λ id worker token e. unit_reply_of (engine_complete id worker token e);
  fail = λ id worker token retryable message e.
      unit_reply_of (engine_fail id worker token retryable message e);
}

-- The call that execute makes for a claim, by what the handler returned.
abbrev pub handled_call : Runtime → Claim → Option Failure → M (Option Err)
handled_call r c none = engine_complete c.activity_id r.worker_id c.fencing_token
handled_call r c (some x) =
    engine_fail c.activity_id r.worker_id c.fencing_token true (failure_text x)

abbrev pub report_call : Runtime → Claim → Option Handler → M (Option Err)
report_call r c none =
    engine_fail c.activity_id r.worker_id c.fencing_token false "no handler registered"
report_call r c (some h) = handled_call r c (h c)

report_call-Hears :
    (r : Runtime) (c : Claim) (o : Option Handler) (e : Engine)
    → EngineIsValid e
    → Hears (report_call r c o) c.activity_id r.worker_id c.fencing_token e
report_call-Hears r c none e v =
    let (_, _, f) =
      lease_calls_fenced c.activity_id r.worker_id c.fencing_token false "no handler registered" e
        v in
    f
report_call-Hears r c (some h) e v = by_result (h c)
  where
    by_result :
        (x : Option Failure)
        → Hears (handled_call r c x) c.activity_id r.worker_id c.fencing_token e
    by_result none =
        let (_, d, _) = lease_calls_fenced c.activity_id r.worker_id c.fencing_token true "" e v in
        d
    by_result (some x) =
        let (_, _, f) =
          lease_calls_fenced c.activity_id r.worker_id c.fencing_token true (failure_text x) e v in
        f

after_call-unit_reply_of :
    (o : Option (Option Err × Engine)) (x : Option Err) (f : Engine)
    → o ≡ some (x, f)
    → after_call (unit_reply_of o) ≡ some f
after_call-unit_reply_of o none f h = rw h refl
after_call-unit_reply_of o (some x) f h = rw h refl

report_after :
    (r : Runtime) (c : Claim) (x : Option Failure) (e : Engine)
    → report engine_for_workers r c x e ≡ after_call (unit_reply_of (handled_call r c x e))
unfolding report
report_after r c none e = refl
report_after r c (some x) e = refl

execute_with_after :
    (r : Runtime) (c : Claim) (o : Option Handler) (e : Engine)
    → execute_with engine_for_workers r o c e ≡ after_call (unit_reply_of (report_call r c o e))
unfolding execute_with
execute_with_after r c none e = refl
execute_with_after r c (some h) e = report_after r c (h c) e

pub execute_after :
    (r : Runtime) (c : Claim) (e : Engine)
    → execute engine_for_workers r c e
      ≡ after_call (unit_reply_of (report_call r c (r.handlers c.name) e))
unfolding execute
execute_after r c e = execute_with_after r c (r.handlers c.name) e

-- A worker that executes a claim on the engine always ends its report. If it holds the live lease of
-- the claim at the clock's next reading, then the engine accepts the report: a completion where the
-- handler returned no error, a failure that may be tried again where it returned one, and a final
-- failure where there is no handler. Otherwise no row changes.
pub execute_lem :
    (r : Runtime) (c : Claim) (e : Engine)
    → EngineIsValid e
    → (f : Engine) × (execute engine_for_workers r c e ≡ some f)
      × ((HoldsLease c.activity_id r.worker_id c.fencing_token e
            × (report_call r c (r.handlers c.name) e ≡ some (none, f)))
          ⊎ (¬ HoldsLease c.activity_id r.worker_id c.fencing_token e × (f.board ≡ e.board)))
execute_lem r c e v = elim (report_call-Hears r c (r.handlers c.name) e v) [
  | inl (h, (f, q)) ↦ (f, execute_after r c e ∙ after_call-unit_reply_of _ none f q, inl (h, q))
  | inr (n, (x, f, q, same, _)) ↦
      (f, execute_after r c e ∙ after_call-unit_reply_of _ (some x) f q, inr (n, same))
]
