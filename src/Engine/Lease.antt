-- ===== src/Engine/Lease.antt =====
-- Engine.Heartbeat, Engine.Complete and Engine.Fail: what the holder of a lease may do.
pub mod Steps
pub mod Fencing
pub mod Failure
use durablego.Base.{
  ℕ, suc, ◌+◌, ◌-◌, String, Bool, true, false, ◌&&◌, ltb, if◌then◌else◌, Option, none, some, concat,
  ℤ, pos, negsuc, mul_int64,
}
use durablego.Types.{
  Activity, ActivityStatus, Workflow, WorkflowStatus, Err, stale_lease, Result, ok, err,
}
use durablego.Engine.State.{
  Engine, M, pure, ◌>>=◌, ◌>>◌, modify, gets, read_clock, activity_at, workflow_at, set_activity,
  set_workflow, append_event, touch_workflow,
}
use durablego.Engine.Locked.{
  current_lease, activity_locked, release_ready, complete_workflow_if_done,
}

-- Time.Add of a Duration; a clock later than 292 years after the zero time never meets the stop at 0.
abbrev pub add_duration : ℕ → ℤ → ℕ
add_duration t (pos n) = t + n
add_duration t (negsuc n) = t - suc n

reject : Activity → String → String → M (Option Err)
reject a typ msg = do modify (append_event a.workflow_id a.id typ msg); pure (some stale_lease)

-- What follows activityLocked in the three methods: the lease is judged at the clock's next reading,
-- then comes the rejection or the method's own work.
judged :
    String → ℕ → String → String → (Activity → M (Option Err)) → Result Activity → M (Option Err)
unfolding reject
judged worker token typ msg act (err x) = pure (some x)
judged worker token typ msg act (ok a) = do
  now ← read_clock
  if current_lease a worker token now then act a else reject a typ msg

-- The start that the three methods share.
pub with_lease :
    String → String → ℕ → String → String → (Activity → M (Option Err)) → M (Option Err)
unfolding judged
with_lease id worker token typ msg act = do
  r ← gets (activity_locked id)
  judged worker token typ msg act r

pub extend : String → String → Activity → M (Option Err)
extend id worker a = do
  now ← read_clock
  ttl ← gets (λ e. e.lease_ttl)
  modify (set_activity id (record a { lease_expires_at = now + ttl }))
  modify (append_event a.workflow_id a.id "activity.heartbeat" (concat "lease extended by " worker))
  pure none

unfoldable pub heartbeat : String → String → ℕ → M (Option Err)
unfolding with_lease extend
heartbeat id worker token =
    with_lease id worker token "activity.stale_heartbeat_rejected"
      "heartbeat rejected by fencing token or expired lease" (extend id worker)

unfoldable pub completed : ℕ → Activity → Activity
completed now a = record a {
  status = ActivityStatus.completed;
  lease_owner = "";
  completed_at = now;
}

pub finish : String → Activity → M (Option Err)
unfolding completed
finish id a = do
  now ← read_clock
  modify (set_activity id (completed now a))
  modify (append_event a.workflow_id a.id "activity.completed" (concat a.name " completed"))
  release_ready a.workflow_id
  complete_workflow_if_done a.workflow_id
  pure none

unfoldable pub complete : String → String → ℕ → M (Option Err)
unfolding with_lease finish
complete id worker token =
    with_lease id worker token "activity.stale_completion_rejected"
      "completion rejected by fencing token or expired lease" (finish id)

unfoldable pub retried : ℕ → String → Activity → Activity
retried now message a = record a {
  status = ActivityStatus.retry_pending;
  lease_owner = "";
  last_error = message;
  next_attempt_at = add_duration now (mul_int64 a.retry_backoff a.attempt);
}

unfoldable pub failed : String → Activity → Activity
failed message a = record a {
  status = ActivityStatus.failed;
  lease_owner = "";
  last_error = message;
}

pub schedule_retry : String → String → Activity → M (Option Err)
unfolding retried
schedule_retry id message a = do
  now ← read_clock
  modify (set_activity id (retried now message a))
  modify (append_event a.workflow_id a.id "activity.retry_scheduled" message)
  pure none

pub fail_workflow : String → String → Activity → M (Option Err)
unfolding failed
fail_workflow id message a = do
  modify (set_activity id (failed message a))
  w ← workflow_at a.workflow_id
  modify (set_workflow a.workflow_id (record w { status = WorkflowStatus.failed }))
  modify (touch_workflow a.workflow_id)
  modify (append_event a.workflow_id a.id "activity.failed" message)
  modify (
      append_event a.workflow_id "" "workflow.failed"
        (concat "activity " (concat a.name " failed")))
  pure none

pub give_up : String → Bool → String → Activity → M (Option Err)
unfolding schedule_retry fail_workflow
give_up id retryable message a =
    if retryable && ltb a.attempt a.max_attempts
    then schedule_retry id message a
    else fail_workflow id message a

unfoldable pub fail : String → String → ℕ → Bool → String → M (Option Err)
unfolding with_lease give_up
fail id worker token retryable message =
    with_lease id worker token "activity.stale_failure_rejected"
      "failure rejected by fencing token or expired lease" (give_up id retryable message)
