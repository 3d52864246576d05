-- ===== src/Examples/Clients.antt =====
-- The theorems on the server, the worker, the metrics and the configuration, at the sample workflow.
use durablego.Base.{
  ◌+◌, ◌*◌, ◌<◌, String, ◌≡◌, refl, ◌⊎◌, inl, inr, true, List, [], ◌∷◌, none, some, pos, arith,
  if◌then◌else◌, text_eq,
}
use durablego.Types.{Workflow, WorkflowStatus}
use durablego.Engine.State.{Engine, new, second}
use durablego.Engine.Lease.Fencing.{HoldsLease}
use durablego.Engine.Steps.Valid.{EngineIsValid}
use durablego.Engine.History.{starts}
use durablego.Config.{load, env_int, load-new}
use durablego.Api.Backend.{Backend, engine_backend, other}
use durablego.Api.Messages.{
  poll, fail, Request, LeaseRequest, FailRequest, Decoders, Response, error_body, http_unauthorized,
  write_json,
}
use durablego.Api.Server.{handle, serve_http}
use durablego.Api.Access.{Reads, Mutates, HasKey, serve_http_cases}
use durablego.Api.Safety.{serve_http-IsValid}
use durablego.Worker.{Runtime, execute}
use durablego.Worker.Reports.{engine_for_workers, report_call, execute_lem}
use durablego.Examples.{order, after, after-IsValid, begun, started, first_claim}

abbrev lease : LeaseRequest
lease = record { activity_id = "act_000001"; worker_id = "a"; fencing_token = 1 }

abbrev failure : FailRequest
failure = record { lease = lease; retryable = true; message = "timeout" }

abbrev decoders : Decoders
decoders = record {
  start = λ _. inl "unexpected EOF";
  poll = λ _. inr (record { worker_id = "a"; task_queue = "default" });
  lease = λ _. inr lease;
  fail = λ _. inr failure;
}

abbrev backend : Backend Engine
backend = engine_backend (λ ws. ws)

abbrev poll_without_key : Request
poll_without_key = record { authorization = ""; route = poll "{}" }

serve_http_cases_example :
    ((Reads (poll "{}") ⊎ HasKey "secret" "")
      × (serve_http backend decoders "secret" poll_without_key started
          ≡ handle backend decoders (poll "{}") started))
    ⊎ (Mutates (poll "{}")
        × ¬ HasKey "secret" ""
        × (serve_http backend decoders "secret" poll_without_key started
            ≡ some (write_json http_unauthorized (error_body "invalid api key"), started)))
serve_http_cases_example = serve_http_cases backend decoders "secret" poll_without_key started

serve_http-IsValid_example :
    (answer : Response) × (e : Engine) × (serve_http backend decoders "" poll_without_key started
      ≡ some (answer, e))
    × EngineIsValid e
serve_http-IsValid_example =
    serve_http-IsValid (λ ws. ws) decoders "" poll_without_key started
      (after-IsValid (starts order "k" ∷ []))

abbrev row_with : WorkflowStatus → Workflow
row_with status = record {
  id = "wf_000001";
  namespace = "shop";
  name = "order";
  idempotency_key = "";
  status = status;
  created_at = 1000;
  updated_at = 1000;
}

abbrev some_rows : List Workflow
some_rows =
    row_with WorkflowStatus.running
    ∷ row_with WorkflowStatus.failed
    ∷ row_with WorkflowStatus.running
    ∷ []

-- An environment in which only the lease is set, to a minute.
abbrev minute_env : String → String
minute_env key = if text_eq key "DURABLEGO_LEASE_SECONDS" then "60" else ""

minute : env_int minute_env (λ _. some (pos 60)) "DURABLEGO_LEASE_SECONDS" 30 ≡ 60
unfolding env_int
minute = refl

load-new_example :
    let c = load minute_env (λ _. some (pos 60)) in
    let e = new (λ k. 1000 + k) c.lease_ttl (pos c.max_attempts) in
    (e.lease_ttl ≡ env_int minute_env (λ _. some (pos 60)) "DURABLEGO_LEASE_SECONDS" 30 * second)
    × (0 < e.lease_ttl)
    × (e.max_attempts ≡ c.max_attempts)
    × (0 < e.max_attempts)
load-new_example = load-new minute_env (λ _. some (pos 60)) (λ k. 1000 + k) (omega (arith, minute))

-- A worker whose concurrency is left to the default.
abbrev worker : Runtime
worker = record {
  worker_id = "a";
  task_queue = "default";
  concurrency = 1;
  poll_interval = 250_000_000;
  handlers = λ _. some (λ _. some (other "timeout"));
}

execute_lem_example :
    (e : Engine) × (execute engine_for_workers worker first_claim (after begun) ≡ some e)
    × ((HoldsLease "act_000001" "a" 1 (after begun)
          × (report_call worker first_claim (worker.handlers "validate") (after begun)
              ≡ some (none, e)))
        ⊎ (¬ HoldsLease "act_000001" "a" 1 (after begun) × (e.board ≡ (after begun).board)))
execute_lem_example = execute_lem worker first_claim (after begun) (after-IsValid begun)
