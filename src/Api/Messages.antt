-- ===== src/Api/Messages.antt =====
-- What internal/api/server.go reads and writes: requests, decoded bodies, and responses. A JSON body is
-- the value that is written; its text is encoding/json's.
use durablego.Base.{ℕ, String, Bool, List, ◌⊎◌, ◌==◌, if◌then◌else◌}
use durablego.Types.{
  ActivityDefinition, Workflow, Activity, Event, Claim, not_found, no_runnable_activity,
  invalid_transition, stale_lease, duplicate_claim,
}
use durablego.Api.Backend.{Failure, known, other, failure_text}

-- The patterns of routes(), with the path's id or the request's body.
pub data Route : Type 0 where
  healthz readyz list_workflows metrics : Route
  get_workflow cancel_workflow : String → Route
  start_workflow poll heartbeat complete fail : String → Route

pub record Request : Type 0 where
  pub authorization : String
  pub route : Route

pub record StartWorkflowRequest : Type 0 where
  pub namespace : String
  pub name : String
  pub idempotency_key : String
  pub activities : List ActivityDefinition

pub record PollRequest : Type 0 where
  pub worker_id : String
  pub task_queue : String

pub record LeaseRequest : Type 0 where
  pub activity_id : String
  pub worker_id : String
  pub fencing_token : ℕ

pub record FailRequest : Type 0 where
  pub lease : LeaseRequest
  pub retryable : Bool
  pub message : String

-- json.NewDecoder(r.Body).Decode, for each type that is read: the error's text, or the value.
pub record Decoders : Type 0 where
  pub start : String → String ⊎ StartWorkflowRequest
  pub poll : String → String ⊎ PollRequest
  pub lease : String → String ⊎ LeaseRequest
  pub fail : String → String ⊎ FailRequest

pub data Body : Type 0 where
  empty : Body
  status_body error_body text_body : String → Body
  started_body : Workflow → Bool → Body
  workflows_body : List Workflow → Body
  workflow_body : Workflow → List Activity → List Event → Body
  claim_body : Claim → Body

pub record Response : Type 0 where
  pub status : ℕ
  pub content_type : String
  pub body : Body

abbrev pub http_ok : ℕ
http_ok = 200

abbrev pub http_created : ℕ
http_created = 201

abbrev pub http_no_content : ℕ
http_no_content = 204

abbrev pub http_bad_request : ℕ
http_bad_request = 400

abbrev pub http_unauthorized : ℕ
http_unauthorized = 401

abbrev pub http_not_found : ℕ
http_not_found = 404

abbrev pub http_conflict : ℕ
http_conflict = 409

abbrev pub http_internal_server_error : ℕ
http_internal_server_error = 500

-- writeJSON
unfoldable pub write_json : ℕ → Body → Response
write_json status value = record {
  status = status;
  content_type = "application/json";
  body = if status == http_no_content then empty else value;
}

-- writeError
unfoldable pub write_error : ℕ → String → Response
unfolding write_json
write_error status text = write_json status (error_body text)

-- The switch of writeEngineError.
unfoldable pub engine_error_status : Failure → ℕ
engine_error_status (known not_found) = http_not_found
engine_error_status (known no_runnable_activity) = http_no_content
engine_error_status (known stale_lease) = http_conflict
engine_error_status (known (invalid_transition _)) = http_bad_request
engine_error_status (known duplicate_claim) = http_bad_request
engine_error_status (other _) = http_bad_request

unfoldable pub write_engine_error : Failure → Response
unfolding write_error engine_error_status
write_engine_error x = write_error (engine_error_status x) (failure_text x)

-- w.WriteHeader(http.StatusNoContent)
abbrev pub no_content : Response
no_content = record { status = http_no_content; content_type = ""; body = empty }
