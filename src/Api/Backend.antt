-- ===== src/Api/Backend.antt =====
-- The Backend interface of internal/api/server.go, with the engine as an implementation.
use durablego.Base.{ℕ, String, Bool, List, Option, none, some, concat}
use durablego.Types.{
  WorkflowDefinition, Workflow, Activity, Event, Claim, Err, not_found, no_runnable_activity,
  invalid_transition, stale_lease, duplicate_claim, Result, ok, err,
}
use durablego.Engine.State.{Engine}
use durablego.Engine.Start.{start as engine_start}
use durablego.Engine.Claim.{claim as engine_claim}
use durablego.Engine.Lease.{
  heartbeat as engine_heartbeat, complete as engine_complete, fail as engine_fail,
}
use durablego.Engine.Cancel.{cancel as engine_cancel}
use durablego.Engine.Reads.{workflow as engine_workflow, list_workflows as engine_list}

-- A Go error: one that wraps a sentinel of the engine, or any other with its text.
pub data Failure : Type 0 where
  known : Err → Failure
  other : String → Failure

-- err.Error()
abbrev pub failure_text : Failure → String
failure_text (known not_found) = "not found"
failure_text (known no_runnable_activity) = "no runnable activity"
failure_text (known (invalid_transition why)) = concat "invalid transition: " why
failure_text (known stale_lease) = "stale lease"
failure_text (known duplicate_claim) = "activity already claimed"
failure_text (other text) = text

pub data Reply (A : Type 0) : Type 0 where
  good : A → Reply A
  bad : Failure → Reply A

-- A method of a backend with the state `S`; `none` where it panics.
abbrev pub Method : Type 0 → Type 0 → Type 0
Method S A = S → Option (Reply A × S)

pub record Backend (S : Type 0) : Type 0 where
  pub start : WorkflowDefinition → String → Method S (Workflow × Bool)
  pub list_workflows : Method S (List Workflow)
  pub workflow : String → Method S (Workflow × List Activity × List Event)
  pub cancel : String → Method S (Unit {0})
  pub claim : String → String → Method S Claim
  pub heartbeat : String → String → ℕ → Method S (Unit {0})
  pub complete : String → String → ℕ → Method S (Unit {0})
  pub fail : String → String → ℕ → Bool → String → Method S (Unit {0})

-- The engine's results as replies.
abbrev pub reply_of : {A : Type 0} → Option (Result A × Engine) → Option (Reply A × Engine)
reply_of none = none
reply_of (some (ok a, e)) = some (good a, e)
reply_of (some (err x, e)) = some (bad (known x), e)

abbrev pub unit_reply_of : Option (Option Err × Engine) → Option (Reply (Unit {0}) × Engine)
unit_reply_of none = none
unit_reply_of (some (none, e)) = some (good tt, e)
unit_reply_of (some (some x, e)) = some (bad (known x), e)

-- *Engine as a Backend; `arrange` is the order of ListWorkflows.
abbrev pub engine_backend : (List Workflow → List Workflow) → Backend Engine
engine_backend arrange = record {
  start = λ d key e. reply_of (engine_start d key e);
  list_workflows = λ e. reply_of (engine_list arrange e);
  workflow = λ id e. reply_of (engine_workflow id e);
  cancel = λ id e. unit_reply_of (engine_cancel id e);
  claim = λ worker queue e. reply_of (engine_claim worker queue e);
  heartbeat = λ id worker token e. unit_reply_of (engine_heartbeat id worker token e);
  complete = λ id worker token e. unit_reply_of (engine_complete id worker token e);
  fail = λ id worker token retryable message e.
      unit_reply_of (engine_fail id worker token retryable message e);
}
