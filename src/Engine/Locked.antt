-- ===== src/Engine/Locked.antt =====
-- The helpers of engine.go that run under the mutex.
pub mod Steps
use durablego.Base.{
  ℕ, String, Bool, true, false, ◌&&◌, ◌||◌, not, ◌==◌, ltb, if◌then◌else◌, List, [], ◌∷◌, Option,
  none, some, text_eq, concat, get,
}
use durablego.Types.{
  Workflow, WorkflowStatus, Activity, ActivityStatus, Err, not_found, invalid_transition, Result,
  ok, err, activity_status_text, is_live, is_running, is_retry_pending,
}
use durablego.Board.{Board, ids_of, dependencies_complete, all_completed}
use durablego.Engine.State.{
  Engine, M, pure, ◌>>=◌, ◌>>◌, modify, gets, try_gets, read_clock, activity_at, workflow_at,
  set_activity, set_workflow, append_event, touch_workflow,
}

-- (*Activity).currentLease
unfoldable pub current_lease : Activity → String → ℕ → ℕ → Bool
current_lease a worker token now =
    if not (is_running a.status)
      || not (text_eq a.lease_owner worker)
      || not (a.fencing_token == token)
    then false
    else a.lease_expires_at == 0 || ltb now a.lease_expires_at

-- activityLocked
unfoldable pub found_running : Option Activity → Result Activity
found_running none = err not_found
found_running (some a) =
    if not (is_running a.status)
    then err (invalid_transition (concat "activity is " (activity_status_text a.status)))
    else ok a

unfoldable pub activity_locked : String → Engine → Result Activity
unfolding found_running
activity_locked id e = found_running (get id e.activities)

-- One turn of the loop of releaseReadyLocked, for a row that is retry_pending and due.
release_due : String → String → Activity → M (Unit {0})
release_due wid id a = do
  done ← try_gets (λ e. dependencies_complete a e.board)
  if done
      then (do
        modify (set_activity id (record a { status = ActivityStatus.ready }))
        modify (append_event wid a.id "activity.ready" (concat a.name " became ready")))
      else pure tt

release_pending : String → String → Activity → M (Unit {0})
unfolding release_due
release_pending wid id a = do
  now ← read_clock
  if ltb now a.next_attempt_at then pure tt else release_due wid id a

release_one : String → String → M (Unit {0})
unfolding release_pending
release_one wid id = do
  a ← activity_at id
  if not (is_retry_pending a.status) then pure tt else release_pending wid id a

release_each : String → List String → M (Unit {0})
unfolding release_one
release_each wid [] = pure tt
release_each wid (id ∷ ids) = do release_one wid id; release_each wid ids

-- releaseReadyLocked
unfoldable pub release_ready : String → M (Unit {0})
unfolding release_each
release_ready wid = do ids ← gets (λ e. ids_of e.board wid); release_each wid ids

-- completeWorkflowIfDoneLocked
finish_workflow : String → Workflow → M (Unit {0})
finish_workflow wid w = do
  done ← try_gets (λ e. all_completed e.activities (ids_of e.board wid))
  if done
      then (do
        modify (set_workflow wid (record w { status = WorkflowStatus.completed }))
        modify (touch_workflow wid)
        modify (append_event wid "" "workflow.completed" "all activities completed"))
      else pure tt

unfoldable pub complete_workflow_if_done : String → M (Unit {0})
unfolding finish_workflow
complete_workflow_if_done wid = do
  w ← workflow_at wid
  if not (is_live w.status) then pure tt else finish_workflow wid w
