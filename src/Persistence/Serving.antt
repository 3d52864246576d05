-- ===== src/Persistence/Serving.antt =====
-- cmd/api/main.go: the HTTP API over the Postgres backend, and what a request can do to the tables.
use durablego.Base.{
  ◌<◌, ◌≤◌, String, ◌≡◌, refl, sym, ap, subst, ◌⊎◌, inl, inr, Bool, true, false, Option, some, pos,
  arith, Option-cases,
}
use durablego.Types.{Workflow}
use durablego.Config.{Config}
use durablego.Api.Backend.{Failure, Reply, good, bad, Backend}
use durablego.Api.Messages.{
  Route, healthz, readyz, list_workflows, metrics, get_workflow, cancel_workflow, start_workflow,
  poll, heartbeat, complete, fail, Request, Decoders, Response, http_bad_request, write_json,
}
use durablego.Api.Server.{respond, decoded, started_response, handle, serve_http}
use durablego.Api.Access.{serve_http_cases}
use durablego.Persistence.Tables.{Tables}
use durablego.Persistence.Session.{
  Driver, Postgres, new_postgres, statement, driver_call, met, rolled_back, deferring_rollback,
}
use durablego.Persistence.Start.{start as pg_start}
use durablego.Persistence.Reads.{list_workflows as pg_list, workflow as pg_workflow}
use durablego.Persistence.Claim.{claim as pg_claim}
use durablego.Persistence.Lease.{
  heartbeat as pg_heartbeat, complete as pg_complete, fail as pg_fail,
}
use durablego.Persistence.Cancel.{cancel as pg_cancel}
use durablego.Persistence.Follows.{Follows, Follows-refl}
use durablego.Persistence.Ends.{Committed, Ends, returns, raises, outdated, unsure, Landed}
use durablego.Persistence.Ends.Claim.{claim-Ends}
use durablego.Persistence.Ends.Lease.{heartbeat-Ends, complete-Ends, fail-Ends}
use durablego.Persistence.Ends.Cancel.{cancel-Ends}
use durablego.Persistence.Ends.Start.{start-Ends, workflow-Ends}
use durablego.Persistence.History.Safety.{IsReady, Follows-IsReady}

-- *Postgres as a Backend: none of its methods panics.
abbrev pub postgres_backend : Backend Postgres
postgres_backend = record {
  start = λ d key p. some (pg_start d key p);
  list_workflows = λ p. some (pg_list p);
  workflow = λ id p. some (pg_workflow id p);
  cancel = λ id p. some (pg_cancel id p);
  claim = λ worker queue p. some (pg_claim worker queue p);
  heartbeat = λ id worker token p. some (pg_heartbeat id worker token p);
  complete = λ id worker token p. some (pg_complete id worker token p);
  fail = λ id worker token retryable message p. some (pg_fail id worker token retryable message p);
}

-- The store of main, once the pool is connected to a database with these tables.
unfoldable pub api_store : Config → Driver → Tables → Postgres
unfolding new_postgres
api_store cfg driver tables = new_postgres driver cfg.lease_ttl (pos cfg.max_attempts) tables

-- The handler of main.
unfoldable pub api_handler : Config → Decoders → Request → Postgres → Option (Response × Postgres)
unfolding serve_http
api_handler cfg decoders = serve_http postgres_backend decoders cfg.api_key

-- A request was answered; what is committed follows what was; and an answer of 400 or more tells that
-- no activity and no workflow has changed, or that the last call of the driver was a COMMIT that
-- reported an error and took effect all the same.
pub record Answered (p : Postgres) (o : Option (Response × Postgres)) : Type 0 where
  pub response : Response
  pub left : Postgres
  pub answer : o ≡ some (response, left)
  pub ready : IsReady left
  pub follows : Follows p.committed left.committed
  pub refused :
      http_bad_request ≤ response.status
      → ((left.committed.activities ≡ p.committed.activities)
          × (left.committed.workflows ≡ p.committed.workflows))
        ⊎ Landed left

-- Nothing was done.
idle-Answered : (p : Postgres) (res : Response) → IsReady p → Answered p (some (res, p))
idle-Answered p res r = record {
  response = res;
  left = p;
  answer = refl;
  ready = r;
  follows = Follows-refl p.committed;
  refused = λ _. inl (refl, refl);
}

respond-Answered :
    {A : Type 0} (on_good : A → Response) (on_bad : Failure → Response) (p : Postgres)
    (r : Reply A × Postgres)
    → IsReady p
    → ((a : A) → (on_good a).status < http_bad_request)
    → Ends p.committed (λ _. Committed p.committed) r
    → Answered p (respond on_good on_bad (some r))
unfolding respond
respond-Answered on_good on_bad p (good a, q) r low (returns k) = record {
  response = on_good a;
  left = q;
  answer = refl;
  ready = Follows-IsReady p q r k.follows k.attempts;
  follows = k.follows;
  refused = λ h. absurd (omega (arith, h, low a));
}
respond-Answered on_good on_bad p (bad x, q) r low (raises same m) =
    let follows = subst (Follows p.committed) (sym same) (Follows-refl p.committed) in
    record {
      response = on_bad x;
      left = q;
      answer = refl;
      ready = Follows-IsReady p q r follows m;
      follows = follows;
      refused =
          λ _. inl (ap (λ (t : Tables). t.activities) same, ap (λ (t : Tables). t.workflows) same);
    }
respond-Answered on_good on_bad p (bad x, q) r low (outdated k as' ws) = record {
  response = on_bad x;
  left = q;
  answer = refl;
  ready = Follows-IsReady p q r k.follows k.attempts;
  follows = k.follows;
  refused = λ _. inl (as', ws);
}
respond-Answered on_good on_bad p (bad x, q) r low (unsure _ k l) = record {
  response = on_bad x;
  left = q;
  answer = refl;
  ready = Follows-IsReady p q r k.follows k.attempts;
  follows = k.follows;
  refused = λ _. inr l;
}

list-Ends :
    (p : Postgres) → 0 < p.max_attempts → Ends p.committed (λ _. Committed p.committed) (pg_list p)
unfolding pg_list deferring_rollback rolled_back statement driver_call met
list-Ends p m = elim (Option-cases (p.driver.fault p.calls)) [
  | inl fine ↦ rw fine (returns (record { follows = Follows-refl p.committed; attempts = m }))
  | inr (text, e) ↦ rw e (raises refl m)
]

decoded-Answered :
    {A : Type 0} (o : String ⊎ A) (next : A → Postgres → Option (Response × Postgres))
    (p : Postgres)
    → IsReady p
    → ((a : A) → Answered p (next a p))
    → Answered p (decoded o next p)
unfolding decoded
decoded-Answered (inl text) next p r h = idle-Answered p _ r
decoded-Answered (inr a) next p r h = h a

started-low : (x : Workflow × Bool) → (started_response x).status < http_bad_request
unfolding started_response write_json
started-low (w, true) = omega arith
started-low (w, false) = omega arith

handle-Answered :
    (decoders : Decoders) (route : Route) (p : Postgres)
    → IsReady p
    → Answered p (handle postgres_backend decoders route p)
unfolding handle write_json
handle-Answered decoders healthz p r = idle-Answered p _ r
handle-Answered decoders readyz p r = idle-Answered p _ r
handle-Answered decoders (start_workflow body) p r =
    decoded-Answered (decoders.start body) _ p r (λ req.
      respond-Answered started_response _ p _ r started-low (start-Ends _ _ p r.attempts r.keyed))
handle-Answered decoders list_workflows p r =
    respond-Answered _ _ p _ r (λ _. omega arith) (list-Ends p r.attempts)
handle-Answered decoders (get_workflow id) p r =
    respond-Answered _ _ p _ r (λ _. omega arith) (workflow-Ends id p r.attempts r.keyed)
handle-Answered decoders (cancel_workflow id) p r =
    respond-Answered _ _ p _ r (λ _. omega arith) (cancel-Ends id p r.attempts r.keyed)
handle-Answered decoders (poll body) p r =
    decoded-Answered (decoders.poll body) _ p r
      (λ req. respond-Answered _ _ p _ r (λ _. omega arith) (claim-Ends _ _ p r.attempts r.keyed))
handle-Answered decoders (heartbeat body) p r = decoded-Answered (decoders.lease body) _ p r (λ req.
    respond-Answered _ _ p _ r (λ _. omega arith) (heartbeat-Ends _ _ _ p r.attempts r.keyed))
handle-Answered decoders (complete body) p r = decoded-Answered (decoders.lease body) _ p r (λ req.
    respond-Answered _ _ p _ r (λ _. omega arith) (complete-Ends _ _ _ p r.attempts r.keyed))
handle-Answered decoders (fail body) p r = decoded-Answered (decoders.fail body) _ p r (λ req.
    respond-Answered _ _ p _ r (λ _. omega arith) (fail-Ends _ _ _ _ _ p r.attempts r.keyed))
handle-Answered decoders metrics p r =
    respond-Answered _ _ p _ r (λ _. omega arith) (list-Ends p r.attempts)

-- The API server, which serves the Postgres backend, answers every request, whichever calls of the
-- driver fail; it takes back nothing of what was committed; and when it answers with 400 or more, no
-- activity and no workflow has changed, except where the last call of the driver was a COMMIT that
-- reported an error and took effect all the same.
pub api_handler-Answered :
    (cfg : Config) (decoders : Decoders) (req : Request) (p : Postgres)
    → IsReady p
    → Answered p (api_handler cfg decoders req p)
unfolding api_handler
api_handler-Answered cfg decoders req p r =
    elim (serve_http_cases postgres_backend decoders cfg.api_key req p) [
      | inl (_, e) ↦ rw e (handle-Answered decoders req.route p r)
      | inr (_, _, e) ↦ rw e (idle-Answered p _ r)
    ]
