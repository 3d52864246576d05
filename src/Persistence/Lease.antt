-- ===== src/Persistence/Lease.antt =====
-- Postgres.Heartbeat, Postgres.Complete and Postgres.Fail.
use durablego.Base.{
  ℕ, suc, ◌+◌, ◌-◌, ◌*◌, ◌/◌, String, Bool, ◌&&◌, ◌||◌, not, none, some, ℤ, pos, negsuc, text_eq,
  ltb, ◌==◌, mul_int64, concat, if◌then◌else◌,
}
use durablego.Types.{Activity, ActivityStatus, WorkflowStatus, stale_lease}
use durablego.Engine.State.{second}
use durablego.Engine.Lease.{add_duration}
use durablego.Api.Backend.{known}
use durablego.Persistence.Tables.{ActivityRow, WorkflowRow, Tables, update_where}
use durablego.Persistence.Session.{
  Postgres, Tx, raise, ◌>>=◌, ◌>>◌, statement, begin, commit, attempt, deferring_rollback,
}
use durablego.Persistence.Helpers.{
  append_event, lock_activity, current_lease, release_ready, update_workflows,
  complete_workflow_if_done,
}
use durablego.Persistence.Claim.{lease_interval}

-- UPDATE activity_executions SET … WHERE id = $1
unfoldable pub update_activity : String → (Postgres → ActivityRow → ActivityRow) → Tx (Unit {0})
unfolding statement
update_activity id change = statement (λ p. (
  tt,
  record p.view { activities = update_where (λ a. text_eq a.id id) (change p) p.view.activities },
))

-- The rejection of a stale caller: neither the event nor the commit is looked at. A failed event leaves
-- nothing to commit, as it does where PostgreSQL has aborted the transaction.
unfoldable pub reject : Activity → String → String → Tx (Unit {0})
unfolding attempt append_event commit
reject a typ msg = do
  attempt (append_event a.workflow_id a.id typ msg)
  attempt commit
  raise (known stale_lease)

-- What the three methods do alike: the row is locked, the lease is judged, and then comes the rejection
-- or the method's own work.
unfoldable pub judged :
    String → ℕ → String → String → (Activity → Tx (Unit {0})) → Activity × Bool → Tx (Unit {0})
unfolding current_lease reject
judged worker token typ msg act (a, lease_current) =
    if not (current_lease a worker token) || not lease_current then reject a typ msg else act a

unfoldable pub with_lease :
    String → String → ℕ → String → String → (Activity → Tx (Unit {0})) → Tx (Unit {0})
unfolding deferring_rollback begin lock_activity judged
with_lease id worker token typ msg act =
    deferring_rollback do begin; locked ← lock_activity id; judged worker token typ msg act locked

abbrev pub extended : Postgres → ActivityRow → ActivityRow
extended p a = record a {
  lease_expires_at = some (p.started + lease_interval p);
  heartbeat_at = some p.started;
  updated_at = p.started;
}

unfoldable pub extend : String → String → Activity → Tx (Unit {0})
unfolding update_activity append_event commit
extend id worker a = do
  update_activity id extended
  append_event a.workflow_id a.id "activity.heartbeat" (concat "lease extended by " worker)
  commit

unfoldable pub heartbeat : String → String → ℕ → Tx (Unit {0})
unfolding with_lease extend
heartbeat id worker token =
    with_lease id worker token "activity.stale_heartbeat_rejected"
      "heartbeat rejected by fencing token or expired lease" (extend id worker)

abbrev pub completed : Postgres → ActivityRow → ActivityRow
completed p a = record a {
  status = ActivityStatus.completed;
  lease_owner = none;
  updated_at = p.started;
}

unfoldable pub finish : String → Activity → Tx (Unit {0})
unfolding update_activity append_event release_ready complete_workflow_if_done commit
finish id a = do
  update_activity id completed
  append_event a.workflow_id a.id "activity.completed" (concat a.name " completed")
  _ ← release_ready a.workflow_id
  complete_workflow_if_done a.workflow_id
  commit

unfoldable pub complete : String → String → ℕ → Tx (Unit {0})
unfolding with_lease finish
complete id worker token =
    with_lease id worker token "activity.stale_completion_rejected"
      "completion rejected by fencing token or expired lease" (finish id)

-- make_interval(secs => int64(d.Seconds())): a duration without its fraction of a second.
abbrev pub whole_seconds : ℤ → ℤ
whole_seconds (pos n) = pos ((n / second) * second)
whole_seconds (negsuc n) =
    if suc n / second == 0 then pos 0 else negsuc ((suc n / second) * second - 1)

unfoldable pub retried : ℤ → String → Postgres → ActivityRow → ActivityRow
retried backoff message p a = record a {
  status = ActivityStatus.retry_pending;
  lease_owner = none;
  next_attempt_at = add_duration p.started (whole_seconds backoff);
  last_error = some message;
  updated_at = p.started;
}

unfoldable pub schedule_retry : String → String → Activity → Tx (Unit {0})
unfolding retried update_activity append_event commit
schedule_retry id message a = do
  update_activity id (retried (mul_int64 a.retry_backoff a.attempt) message)
  append_event a.workflow_id a.id "activity.retry_scheduled" message
  commit

unfoldable pub failed : String → Postgres → ActivityRow → ActivityRow
failed message p a = record a {
  status = ActivityStatus.failed;
  lease_owner = none;
  last_error = some message;
  updated_at = p.started;
}

abbrev pub is_workflow : String → Tables → WorkflowRow → Bool
is_workflow wid t w = text_eq w.id wid

unfoldable pub fail_workflow : String → String → Activity → Tx (Unit {0})
unfolding failed update_activity update_workflows append_event commit
fail_workflow id message a = do
  update_activity id (failed message)
  _ ← update_workflows (is_workflow a.workflow_id) WorkflowStatus.failed
  append_event a.workflow_id a.id "activity.failed" message
  append_event a.workflow_id "" "workflow.failed" (concat "activity " (concat a.name " failed"))
  commit

unfoldable pub give_up : String → Bool → String → Activity → Tx (Unit {0})
unfolding schedule_retry fail_workflow
give_up id retryable message a =
    if retryable && ltb a.attempt a.max_attempts
    then schedule_retry id message a
    else fail_workflow id message a

unfoldable pub fail : String → String → ℕ → Bool → String → Tx (Unit {0})
unfolding with_lease give_up
fail id worker token retryable message =
    with_lease id worker token "activity.stale_failure_rejected"
      "failure rejected by fencing token or expired lease" (give_up id retryable message)
