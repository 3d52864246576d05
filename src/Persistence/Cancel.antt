-- ===== src/Persistence/Cancel.antt =====
-- Postgres.Cancel and Postgres.RunSchedulerPass.
use durablego.Base.{
  ℕ, ◌+◌, String, Bool, true, false, ◌&&◌, ◌||◌, not, Option, none, some, text_eq, ltb, leb, length,
  concat, if◌then◌else◌,
}
use durablego.Types.{
  ActivityStatus, WorkflowStatus, not_found, invalid_transition, workflow_status_text, is_live,
  is_ready, is_running, is_retry_pending,
}
use durablego.Api.Backend.{known}
use durablego.Persistence.Tables.{ActivityRow, WorkflowRow, find_workflow}
use durablego.Persistence.Session.{
  Tx, pure, raise, ◌>>=◌, ◌>>◌, statement, begin, commit, deferring_rollback, for_each, explain,
}
use durablego.Persistence.Helpers.{append_event, update_returning, update_workflows, release_ready}
use durablego.Persistence.Lease.{is_workflow}

-- The WHERE of Cancel's UPDATE of the activities.
unfoldable pub is_waiting : String → ActivityRow → Bool
is_waiting wid a =
    text_eq a.workflow_execution_id wid && (is_ready a.status || is_retry_pending a.status)

abbrev pub made_cancelled : ℕ → ActivityRow → ActivityRow
made_cancelled now a = record a { status = ActivityStatus.cancelled; updated_at = now }

abbrev pub cancelled_event : String → ActivityRow → Tx (Unit {0})
cancelled_event wid a = append_event wid a.id "activity.cancelled" "pending activity cancelled"

unfoldable pub cancel_live : String → Tx (Unit {0})
unfolding update_workflows update_returning is_waiting for_each append_event commit
cancel_live wid = do
  _ ← update_workflows (is_workflow wid) WorkflowStatus.cancelled
  rows ← update_returning (λ p. is_waiting wid) (λ p. made_cancelled p.started)
  for_each (cancelled_event wid) rows
  append_event wid "" "workflow.cancelled" "workflow cancelled"
  commit

unfoldable pub cancel_found : String → Option WorkflowRow → Tx (Unit {0})
unfolding cancel_live
cancel_found wid none = raise (known not_found)
cancel_found wid (some w) =
    if not (is_live w.status)
    then raise (known (invalid_transition (concat "workflow is " (workflow_status_text w.status))))
    else cancel_live wid

unfoldable pub cancel : String → Tx (Unit {0})
unfolding deferring_rollback begin statement cancel_found
cancel wid = deferring_rollback do
  begin
  found ← statement (λ p. (find_workflow wid p.view.workflows, p.view))
  cancel_found wid found

-- lease_expires_at <= now(), which is not true of NULL.
abbrev pub lease_behind : ℕ → Option ℕ → Bool
lease_behind now none = false
lease_behind now (some expires) = leb expires now

-- The WHERE and the SET of the UPDATE that takes leases back.
unfoldable pub is_expired : ℕ → ActivityRow → Bool
is_expired now a = is_running a.status && lease_behind now a.lease_expires_at

unfoldable pub expired : ℕ → ActivityRow → ActivityRow
expired now a = record a {
  status = if ltb a.attempt a.max_attempts then ActivityStatus.ready else ActivityStatus.failed;
  lease_owner = none;
  updated_at = now;
}

abbrev pub is_failed : ActivityStatus → Bool
is_failed ActivityStatus.failed = true
is_failed _ = false

-- The body of the loop over the expired rows.
unfoldable pub note_expired : ActivityRow → Tx (Unit {0})
unfolding update_workflows append_event
note_expired a =
    if is_failed a.status
    then (do
      _ ←
          explain "fail workflow after lease expiry"
            (update_workflows (is_workflow a.workflow_execution_id) WorkflowStatus.failed)
      explain "append workflow.failed event" (
          append_event a.workflow_execution_id "" "workflow.failed"
            (concat "activity " (concat a.name " failed")))
      explain "append activity.lease_expired_failed event" (
          append_event a.workflow_execution_id a.id "activity.lease_expired_failed"
            "lease expired and attempts exhausted"))
    else explain "append activity.lease_expired event" (
        append_event a.workflow_execution_id a.id "activity.lease_expired"
          "lease expired and activity became ready")

unfoldable pub run_scheduler_pass : Tx ℕ
unfolding deferring_rollback begin update_returning is_expired expired for_each note_expired
    release_ready commit
run_scheduler_pass = deferring_rollback do
  explain "begin scheduler pass" begin
  rows ←
      explain "expire leases"
        (update_returning (λ p. is_expired p.started) (λ p. expired p.started))
  for_each note_expired rows
  released ← explain "release retry-pending activities" (release_ready "")
  explain "commit scheduler pass" commit
  pure (length rows + released)
