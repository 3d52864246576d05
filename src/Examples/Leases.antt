-- ===== src/Examples/Leases.antt =====
-- The theorems on claims and leases, at a lease that runs out and an activity claimed again.
use durablego.Base.{
  ◌<◌, ◌≤◌, String, ◌≡◌, refl, ◌⊎◌, inl, true, none, List, [], ◌∷◌, some, get, arith,
}
use durablego.Types.{Activity, ActivityStatus, no_runnable_activity, Claim, ok, err}
use durablego.Engine.State.{tick, Engine}
use durablego.Engine.Claim.{claim}
use durablego.Engine.Lease.{heartbeat, complete, fail}
use durablego.Engine.History.{Call, starts, claims, completes, passes, run}
use durablego.Engine.Lease.Fencing.{
  Hears, Rejects, IsLost, lease_calls_fenced, lost_lease_stays_lost,
}
use durablego.Engine.Cancel.{cancel}
use durablego.Engine.Cancel.Effect.{settled, cancel_lem}
use durablego.Base.{◌≢◌}
use durablego.Types.{Workflow, WorkflowStatus}
use durablego.Engine.History.{cancels}
use durablego.Engine.Claim.Choice.{IsPassedOver, Grants, claim_cases}
use durablego.Engine.Claim.Tokens.{claim_lem, later_claim_higher_token}
use durablego.Spec.Move.{DepsDone}
use durablego.Examples.{
  order, after, after-IsValid, begun, reclaimed, started, first_claim, evaluated,
  first_claim_returned,
}

overtaken : IsLost "act_000001" 1 (after reclaimed)
unfolding evaluated
overtaken = (_, refl, inl (omega arith))

-- Worker b completes the activity; worker a, whose lease ran out, is late.
abbrev finished : List Call
finished =
    starts order "k"
    ∷ claims "a" "default"
    ∷ passes
    ∷ passes
    ∷ passes
    ∷ claims "b" "default"
    ∷ completes "act_000001" "b" 2
    ∷ []

finishes : run (completes "act_000001" "b" 2 ∷ []) (after reclaimed) ≡ some (after finished)
unfolding evaluated
finishes = refl

lost_lease_stays_lost_example :
    Rejects (heartbeat "act_000001" "a" 1) (after finished)
    × Rejects (complete "act_000001" "a" 1) (after finished)
    × Rejects (fail "act_000001" "a" 1 true "timeout") (after finished)
lost_lease_stays_lost_example =
    lost_lease_stays_lost "act_000001" "a" 1 true "timeout" (completes "act_000001" "b" 2 ∷ [])
      (after reclaimed) (after finished) (after-IsValid reclaimed) overtaken finishes

lease_calls_fenced_example :
    Hears (heartbeat "act_000001" "a" 1) "act_000001" "a" 1 (after begun)
    × Hears (complete "act_000001" "a" 1) "act_000001" "a" 1 (after begun)
    × Hears (fail "act_000001" "a" 1 true "timeout") "act_000001" "a" 1 (after begun)
lease_calls_fenced_example =
    lease_calls_fenced "act_000001" "a" 1 true "timeout" (after begun) (after-IsValid begun)

claim_lem_example :
    (a : Activity) × (get "act_000001" (after begun).activities ≡ some a)
    × (a.status ≡ ActivityStatus.running)
    × (a.lease_owner ≡ "a")
    × (a.fencing_token ≡ 1)
    × (a.attempt ≡ 1)
    × (1 ≤ a.max_attempts)
    × DepsDone (after begun).board a
claim_lem_example =
    claim_lem "a" "default" started (after begun) first_claim
      (after-IsValid (starts order "k" ∷ [])) first_claim_returned

abbrev expired : List Call
expired = starts order "k" ∷ claims "a" "default" ∷ passes ∷ passes ∷ passes ∷ []

abbrev second_claim : Claim
second_claim = record {
  activity_id = "act_000001";
  workflow_id = "wf_000001";
  name = "validate";
  attempt = 2;
  fencing_token = 2;
  lease_expires_at = 1017;
  application_key = "wf_000001:validate";
}

expires : run (passes ∷ passes ∷ passes ∷ []) (after begun) ≡ some (after expired)
unfolding evaluated
expires = refl

second_claim_returned :
    claim "b" "default" (after expired) ≡ some (ok second_claim, after reclaimed)
unfolding evaluated
second_claim_returned = refl

later_claim_higher_token_example : first_claim.fencing_token < second_claim.fencing_token
later_claim_higher_token_example =
    later_claim_higher_token "a" "default" "b" "default" (passes ∷ passes ∷ passes ∷ []) started
      (after begun) (after expired) (after reclaimed) first_claim second_claim
      (after-IsValid (starts order "k" ∷ [])) first_claim_returned expires second_claim_returned
      refl

claim_cases_example :
    ((claim "b" "default" started ≡ some (err no_runnable_activity, tick started))
      × ((id : String) → IsPassedOver "default" started id))
    ⊎ ((id : String) × (a : Activity) × Grants "b" "default" id a started)
claim_cases_example = claim_cases "b" "default" started

-- The workflow is cancelled while worker a holds its first activity.
abbrev cancelled : List Call
cancelled = starts order "k" ∷ claims "a" "default" ∷ cancels "wf_000001" ∷ []

abbrev held_row : Activity
held_row = record {
  id = "act_000001";
  workflow_id = "wf_000001";
  name = "validate";
  task_queue = "default";
  status = ActivityStatus.running;
  attempt = 1;
  max_attempts = 2;
  lease_owner = "a";
  lease_expires_at = 1010;
  fencing_token = 1;
  next_attempt_at = 1000;
  depends_on = [];
  last_error = "";
  completed_at = 0;
  retry_backoff = 1_000_000_000;
  application_key = "";
  side_effect_count = 0;
}

abbrev cancelled_row : Workflow
cancelled_row = record {
  id = "wf_000001";
  namespace = "shop";
  name = "order";
  status = WorkflowStatus.cancelled;
  idempotency_key = "k";
  created_at = 1000;
  updated_at = 1008;
}

-- Then, under a clock that stands just before the end of the lease.
abbrev early : Engine
early = record (after cancelled) { now = λ _. 1009 }

abbrev waiting_row : Activity
waiting_row = record held_row {
  id = "act_000002";
  name = "payment";
  status = ActivityStatus.retry_pending;
  attempt = 0;
  max_attempts = 3;
  lease_owner = "";
  lease_expires_at = 0;
  fencing_token = 0;
  depends_on = "validate" ∷ [];
  retry_backoff = 5;
}

waits_before : get "act_000002" (after begun).activities ≡ some waiting_row
unfolding evaluated
waits_before = refl

abbrev live_row : Workflow
live_row = record cancelled_row { status = WorkflowStatus.running; updated_at = 1006 }

live_before : get "wf_000001" (after begun).workflows ≡ some live_row
unfolding evaluated
live_before = refl

cancel_lem_example :
    (e : Engine) × (cancel "wf_000001" (after begun) ≡ some (none, e))
    × ((u : Workflow) × (get "wf_000001" e.workflows ≡ some u)
        × (u.status ≡ WorkflowStatus.cancelled))
    × (((waiting_row.workflow_id ≡ "wf_000001")
          × (get "act_000002" e.activities ≡ some (settled waiting_row)))
        ⊎ ((waiting_row.workflow_id ≢ "wf_000001")
            × (get "act_000002" e.activities ≡ some waiting_row)))
cancel_lem_example =
    cancel_lem "wf_000001" "act_000002" live_row waiting_row (after begun) (after-IsValid begun)
      live_before refl waits_before
