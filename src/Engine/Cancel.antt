-- ===== src/Engine/Cancel.antt =====
-- Engine.Cancel: a running workflow is cancelled, with its activities that wait.
pub mod Steps
pub mod Effect
use durablego.Base.{
  ℕ, suc, String, Bool, ◌||◌, not, if◌then◌else◌, List, [], ◌∷◌, Option, none, some, concat, get,
}
use durablego.Types.{
  Activity, ActivityStatus, Workflow, WorkflowStatus, Err, not_found, invalid_transition,
  workflow_status_text, is_live, is_ready, is_retry_pending,
}
use durablego.Board.{ids_of}
use durablego.Engine.State.{
  Engine, M, pure, ◌>>=◌, ◌>>◌, modify, gets, read_clock, activity_at, set_activity, set_workflow,
  append_event,
}

pub cancel_row : String → String → Activity → M (Unit {0})
cancel_row wid id a =
    if is_ready a.status || is_retry_pending a.status
    then (do
      modify (set_activity id (record a { status = ActivityStatus.cancelled }))
      modify (append_event wid a.id "activity.cancelled" "pending activity cancelled"))
    else pure tt

pub cancel_each : String → List String → M (Unit {0})
unfolding cancel_row
cancel_each wid [] = pure tt
cancel_each wid (id ∷ ids) = do a ← activity_at id; cancel_row wid id a; cancel_each wid ids

pub cancel_running : String → Workflow → M (Option Err)
unfolding cancel_each
cancel_running wid w = do
  now ← read_clock
  modify (set_workflow wid (record w { status = WorkflowStatus.cancelled; updated_at = now }))
  ids ← gets (λ e. ids_of e.board wid)
  cancel_each wid ids
  modify (append_event wid "" "workflow.cancelled" "workflow cancelled")
  pure none

pub cancel_found : String → Option Workflow → M (Option Err)
unfolding cancel_running
cancel_found wid none = pure (some not_found)
cancel_found wid (some w) =
    if not (is_live w.status)
    then pure (some (invalid_transition (concat "workflow is " (workflow_status_text w.status))))
    else cancel_running wid w

unfoldable pub cancel : String → M (Option Err)
unfolding cancel_found
cancel wid = do found ← gets (λ e. get wid e.workflows); cancel_found wid found
