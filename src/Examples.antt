-- ===== src/Examples.antt =====
-- Runs of the engine on a workflow of two steps, the second after the first, and the theorems at
-- such runs.
pub mod Leases
pub mod Starts
pub mod Clients
pub mod Exchanges
pub mod Database
use durablego.Base.{
  ℕ, suc, ◌+◌, ◌<◌, ◌≤◌, String, ◌≡◌, ◌≢◌, refl, ◌⊎◌, inl, inr, Bool, true, false, List, [], ◌∷◌,
  Option, none, some, ℤ, pos, get, put, keys, padded, decimal, mul_int64, arith, text_eq,
  text_eq_iff, concat,
}
use durablego.Types.{
  WorkflowDefinition, ActivityDefinition, Workflow, Activity, ActivityStatus, Claim, Event, Err,
  Result, ok, err,
}
use durablego.Board.{dependencies_complete, upstream_complete, all_upstream_complete, all_completed}
use durablego.Engine.State.{Engine, new, append_event, touch_workflow, touched}
use durablego.Engine.Locked.{
  current_lease, activity_locked, found_running, release_ready, complete_workflow_if_done,
}
use durablego.Engine.Start.{
  start, existing, lacks_required, validate, contains, check_names, check_deps, check_all_deps,
  idem_key, new_row, add_row, schedule, schedule_all, new_workflow, add_workflow, remember,
}
use durablego.Engine.Claim.{
  claim, sorted_activity_ids, sort_texts, insert_sorted, claimable, claimed, claim_of,
}
use durablego.Engine.Lease.{heartbeat, complete, completed, fail, retried, failed}
use durablego.Engine.Cancel.{cancel}
use durablego.Engine.Sweep.{run_scheduler_pass, lease_over, retry_due}
use durablego.Engine.History.{
  Call, starts, claims, heartbeats, completes, fails, cancels, passes, serve, run,
}
use durablego.Engine.History.Safety.{
  new-IsValid, run-Steps, run-new-IsValid, run-Later, Steps-of_run,
}
use durablego.Engine.History.Log.{Extends, run-Extends}
use durablego.Engine.Steps.Valid.{EngineIsValid, Steps-IsValid}
use durablego.Engine.Lease.Fencing.{
  Hears, Rejects, IsLost, lease_calls_fenced, lost_lease_stays_lost,
}
use durablego.Engine.Claim.Choice.{IsPassedOver, Grants, claim_cases}
use durablego.Engine.Claim.Tokens.{claim_lem, later_claim_higher_token}
use durablego.Engine.Start.Validation.{IsWellFormed, validate_cases}
use durablego.Engine.Start.Idempotence.{start_creates, idempotent_start, start_collides}
use durablego.Spec.Later.{Later}
use durablego.Spec.Dependencies.{Decides, dependencies_complete-decides}

abbrev pub validate_step : ActivityDefinition
validate_step = record {
  name = "validate";
  task_queue = "default";
  depends_on = [];
  max_attempts = pos 2;
  retry_backoff = pos 0;
}

abbrev pub payment_step : ActivityDefinition
payment_step = record {
  name = "payment";
  task_queue = "default";
  depends_on = "validate" ∷ [];
  max_attempts = pos 0;
  retry_backoff = pos 5;
}

abbrev pub order : WorkflowDefinition
order = record {
  name = "order";
  namespace = "shop";
  activities = validate_step ∷ payment_step ∷ [];
}

-- A clock that reads 1000, 1001, and so on; a lease lasts for five readings.
abbrev pub fresh : Engine
fresh = new (λ k. 1000 + k) (pos 5) (pos 3)

pub fresh-IsValid : EngineIsValid fresh
fresh-IsValid = new-IsValid (λ k. 1000 + k) (pos 5) (pos 3)

-- The engine after a history.
unfoldable pub after : List Call → Engine
after cs = elim (run cs fresh) [ none ↦ fresh | some e ↦ e ]

pub run-after : (cs : List Call) → run cs fresh ≡ some (after cs)
unfolding after
run-after cs = let (e, r, _) = run-Steps cs fresh fresh-IsValid in ground arith

pub after-IsValid : (cs : List Call) → EngineIsValid (after cs)
after-IsValid cs =
    Steps-IsValid fresh (Steps-of_run cs fresh (after cs) fresh-IsValid (run-after cs))
      fresh-IsValid

abbrev pub begun : List Call
begun = starts order "k" ∷ claims "a" "default" ∷ []

-- Worker a's lease runs out, and worker b claims the activity.
abbrev pub reclaimed : List Call
reclaimed =
    starts order "k" ∷ claims "a" "default" ∷ passes ∷ passes ∷ passes ∷ claims "b" "default" ∷ []

abbrev pub started : Engine
started = after (starts order "k" ∷ [])

abbrev pub first_claim : Claim
first_claim = record {
  activity_id = "act_000001";
  workflow_id = "wf_000001";
  name = "validate";
  attempt = 1;
  fencing_token = 1;
  lease_expires_at = 1010;
  application_key = "wf_000001:validate";
}

-- The status of an activity, by its number.
status_of : String → Engine → Option ActivityStatus
status_of id e = elim (get id e.activities) [ none ↦ none | some a ↦ some a.status ]

-- What a run computes with.
unfoldable pub evaluated : Unit {0}
unfolding after run serve new get put keys padded decimal start lacks_required validate contains
    check_names check_deps check_all_deps idem_key new_row add_row schedule schedule_all
    new_workflow add_workflow remember existing release_ready complete_workflow_if_done append_event
    touch_workflow touched dependencies_complete upstream_complete all_upstream_complete
    all_completed claim sorted_activity_ids sort_texts insert_sorted claimable claimed claim_of
    current_lease activity_locked found_running heartbeat complete completed fail retried failed
    cancel run_scheduler_pass lease_over retry_due mul_int64
evaluated = tt

pub first_claim_returned : claim "a" "default" started ≡ some (ok first_claim, after begun)
unfolding evaluated
first_claim_returned = refl

begun_runs : status_of "act_000001" (after begun) ≡ some ActivityStatus.running
unfolding status_of evaluated
begun_runs = refl

second_waits : status_of "act_000002" (after begun) ≡ some ActivityStatus.retry_pending
unfolding status_of evaluated
second_waits = refl

second_ready :
    status_of "act_000002"
      (after (starts order "k" ∷ claims "a" "" ∷ completes "act_000001" "a" 1 ∷ []))
    ≡ some ActivityStatus.ready
unfolding status_of evaluated
second_ready = refl
