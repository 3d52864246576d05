-- ===== src/Api/Server.antt =====
-- The handlers of internal/api/server.go over any backend. A handler maps the backend's state to a
-- response and a new state; `none` is a panic of the backend.
use durablego.Base.{
  String, Bool, true, false, not, ◌&&◌, Option, none, some, ◌⊎◌, inl, inr, text_eq, concat,
  if◌then◌else◌,
}
use durablego.Types.{Workflow}
use durablego.Telemetry.{workflow_metrics}
use durablego.Api.Backend.{Failure, failure_text, Reply, good, bad, Backend}
use durablego.Api.Messages.{
  Route, healthz, readyz, list_workflows, metrics, get_workflow, cancel_workflow, start_workflow,
  poll, heartbeat, complete, fail, Request, Decoders, status_body, error_body, text_body,
  started_body, workflows_body, workflow_body, claim_body, Response, http_ok, http_created,
  http_bad_request, http_unauthorized, http_internal_server_error, write_json, write_error,
  write_engine_error, no_content,
}

-- The rest of a handler after the backend's reply.
unfoldable pub respond {ℓ} :
    {S : Type ℓ} {A : Type 0}
    → (A → Response)
    → (Failure → Response)
    → Option (Reply A × S)
    → Option (Response × S)
respond on_good on_bad none = none
respond on_good on_bad (some (good a, s)) = some (on_good a, s)
respond on_good on_bad (some (bad x, s)) = some (on_bad x, s)

-- The rest of a handler after the decoding of the body.
unfoldable pub decoded {ℓ} :
    {S : Type ℓ} {A : Type 0}
    → String ⊎ A
    → (A → S → Option (Response × S))
    → S
    → Option (Response × S)
decoded (inl text) next s = some (write_error http_bad_request text, s)
decoded (inr a) next s = next a s

abbrev on_done : Unit {0} → Response
on_done _ = no_content

unfoldable pub started_response : Workflow × Bool → Response
unfolding write_json
started_response (w, duplicate) =
    write_json (if duplicate then http_ok else http_created) (started_body w duplicate)

module _ {S : Type 0} (backend : Backend S) (decoders : Decoders) where
  handle_start : String → S → Option (Response × S)
  unfolding decoded respond started_response
  handle_start body = decoded (decoders.start body) λ req s.
      respond started_response (λ x. write_error http_bad_request (failure_text x))
        (backend.start
          (record { namespace = req.namespace; name = req.name; activities = req.activities })
          req.idempotency_key s)

  handle_list : S → Option (Response × S)
  unfolding respond
  handle_list s =
      respond (λ ws. write_json http_ok (workflows_body ws))
        (λ x. write_error http_internal_server_error (failure_text x)) (backend.list_workflows s)

  handle_get : String → S → Option (Response × S)
  unfolding respond
  handle_get id s =
      respond (λ (w, as', es). write_json http_ok (workflow_body w as' es)) write_engine_error
        (backend.workflow id s)

  handle_cancel : String → S → Option (Response × S)
  unfolding respond
  handle_cancel id s = respond on_done write_engine_error (backend.cancel id s)

  handle_poll : String → S → Option (Response × S)
  unfolding decoded respond
  handle_poll body = decoded (decoders.poll body) λ req s.
      respond (λ c. write_json http_ok (claim_body c)) write_engine_error
        (backend.claim req.worker_id req.task_queue s)

  handle_heartbeat : String → S → Option (Response × S)
  unfolding decoded respond
  handle_heartbeat body = decoded (decoders.lease body) λ req s.
      respond on_done write_engine_error
        (backend.heartbeat req.activity_id req.worker_id req.fencing_token s)

  handle_complete : String → S → Option (Response × S)
  unfolding decoded respond
  handle_complete body = decoded (decoders.lease body) λ req s.
      respond on_done write_engine_error
        (backend.complete req.activity_id req.worker_id req.fencing_token s)

  handle_fail : String → S → Option (Response × S)
  unfolding decoded respond
  handle_fail body = decoded (decoders.fail body) λ req s. respond on_done write_engine_error (
      backend.fail req.lease.activity_id req.lease.worker_id req.lease.fencing_token req.retryable
        req.message s)

  handle_metrics : S → Option (Response × S)
  unfolding respond
  handle_metrics s =
      respond
        (λ ws. record {
          status = http_ok;
          content_type = "text/plain; version=0.0.4";
          body = text_body (workflow_metrics ws);
        })
        (λ x. write_error http_internal_server_error (failure_text x)) (backend.list_workflows s)

  -- The handler of each pattern, without authorizeMutation.
  unfoldable pub handle : Route → S → Option (Response × S)
  unfolding handle_start handle_list handle_get handle_cancel handle_poll handle_heartbeat
      handle_complete handle_fail handle_metrics
  handle healthz s = some (write_json http_ok (status_body "live"), s)
  handle readyz s = some (write_json http_ok (status_body "ready"), s)
  handle (start_workflow body) s = handle_start body s
  handle list_workflows s = handle_list s
  handle (get_workflow id) s = handle_get id s
  handle (cancel_workflow id) s = handle_cancel id s
  handle (poll body) s = handle_poll body s
  handle (heartbeat body) s = handle_heartbeat body s
  handle (complete body) s = handle_complete body s
  handle (fail body) s = handle_fail body s
  handle metrics s = handle_metrics s

-- The patterns that routes() wraps in authorizeMutation.
unfoldable pub is_mutation : Route → Bool
is_mutation (start_workflow _) = true
is_mutation (cancel_workflow _) = true
is_mutation (poll _) = true
is_mutation (heartbeat _) = true
is_mutation (complete _) = true
is_mutation (fail _) = true
is_mutation _ = false

-- The condition of authorizeMutation.
unfoldable pub is_refused : String → String → Bool
is_refused api_key header =
    not (text_eq api_key "") && not (text_eq header (concat "Bearer " api_key))

-- ServeHTTP of New(backend, api_key); a server without a key has "".
unfoldable pub serve_http :
    {S : Type 0} → Backend S → Decoders → String → Request → S → Option (Response × S)
unfolding handle is_mutation is_refused
serve_http backend decoders api_key r s =
    if is_mutation r.route && is_refused api_key r.authorization
    then some (write_json http_unauthorized (error_body "invalid api key"), s)
    else handle backend decoders r.route s
