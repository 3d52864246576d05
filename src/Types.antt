-- ===== src/Types.antt =====
-- The data of internal/execution/engine.go: statuses, errors, definitions, rows, events, claims.
-- A time.Time is the number of nanoseconds since Go's zero time, which is 0; a Duration is a ℤ where
-- a caller gives it, and a number of nanoseconds where the code has made it positive. Attempts,
-- fencing tokens and sequence numbers are unbounded.
use durablego.Base.{ℕ, String, Bool, true, false, List, ℤ}

pub data WorkflowStatus : Type 0 where
  running completed failed cancelled : WorkflowStatus

pub data ActivityStatus : Type 0 where
  ready running retry_pending completed failed cancelled : ActivityStatus

abbrev pub workflow_status_text : WorkflowStatus → String
workflow_status_text WorkflowStatus.running = "running"
workflow_status_text WorkflowStatus.completed = "completed"
workflow_status_text WorkflowStatus.failed = "failed"
workflow_status_text WorkflowStatus.cancelled = "cancelled"

abbrev pub activity_status_text : ActivityStatus → String
activity_status_text ActivityStatus.ready = "ready"
activity_status_text ActivityStatus.running = "running"
activity_status_text ActivityStatus.retry_pending = "retry_pending"
activity_status_text ActivityStatus.completed = "completed"
activity_status_text ActivityStatus.failed = "failed"
activity_status_text ActivityStatus.cancelled = "cancelled"

-- The sentinel errors; the text is what `%w: …` adds to the sentinel.
pub data Err : Type 0 where
  not_found : Err
  no_runnable_activity : Err
  invalid_transition : String → Err
  stale_lease : Err
  duplicate_claim : Err

pub record ActivityDefinition : Type 0 where
  pub name : String
  pub task_queue : String
  pub depends_on : List String
  pub max_attempts : ℤ
  pub retry_backoff : ℤ

pub record WorkflowDefinition : Type 0 where
  pub name : String
  pub namespace : String
  pub activities : List ActivityDefinition

pub record Workflow : Type 0 where
  pub id : String
  pub namespace : String
  pub name : String
  pub idempotency_key : String
  pub status : WorkflowStatus
  pub created_at : ℕ
  pub updated_at : ℕ

pub record Activity : Type 0 where
  pub id : String
  pub workflow_id : String
  pub name : String
  pub task_queue : String
  pub status : ActivityStatus
  pub attempt : ℕ
  pub max_attempts : ℕ
  pub lease_owner : String
  pub lease_expires_at : ℕ
  pub fencing_token : ℕ
  pub next_attempt_at : ℕ
  pub depends_on : List String
  pub last_error : String
  pub completed_at : ℕ
  pub retry_backoff : ℕ
  pub application_key : String
  pub side_effect_count : ℕ

pub record Event : Type 0 where
  pub sequence : ℕ
  pub workflow_id : String
  pub activity_id : String
  pub type : String
  pub message : String
  pub at : ℕ

pub record Claim : Type 0 where
  pub activity_id : String
  pub workflow_id : String
  pub name : String
  pub attempt : ℕ
  pub fencing_token : ℕ
  pub lease_expires_at : ℕ
  pub application_key : String

-- Go's pair of a value and an error.
pub data Result {ℓ} (A : Type ℓ) : Type ℓ where
  ok : A → Result A
  err : Err → Result A

-- Tests of a status against a constant.
abbrev pub is_live : WorkflowStatus → Bool
is_live WorkflowStatus.running = true
is_live _ = false

abbrev pub is_ready : ActivityStatus → Bool
is_ready ActivityStatus.ready = true
is_ready _ = false

abbrev pub is_running : ActivityStatus → Bool
is_running ActivityStatus.running = true
is_running _ = false

abbrev pub is_retry_pending : ActivityStatus → Bool
is_retry_pending ActivityStatus.retry_pending = true
is_retry_pending _ = false

abbrev pub is_completed : ActivityStatus → Bool
is_completed ActivityStatus.completed = true
is_completed _ = false
