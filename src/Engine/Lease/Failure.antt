-- ===== src/Engine/Lease/Failure.antt =====
-- What a final failure does, of an activity and of its workflow.
use durablego.Base.{String, ◌≡◌, ◌≢◌, some, get, concat}
use durablego.Types.{Workflow, WorkflowStatus, Activity}
use durablego.Engine.State.{Engine, touch_workflow, append_event, set_activity, set_workflow}
use durablego.Engine.Lease.{failed}

-- The activity under `id` ended as failed, its workflow's status is failed, and nothing else of the
-- activities changed between the engines.
abbrev pub HasFailed : String → String → Activity → Engine → Engine → Type 0
HasFailed id message a e f =
    (get id f.activities ≡ some (failed message a))
    × ((u : Workflow) × (get a.workflow_id f.workflows ≡ some u)
        × (u.status ≡ WorkflowStatus.failed))
    × ((j : String) → id ≢ j → get j f.activities ≡ get j e.activities)

-- The engine that fail_workflow leaves.
abbrev left_failed : String → String → Activity → Workflow → Engine → Engine
left_failed id message a w e =
    append_event a.workflow_id "" "workflow.failed" (concat "activity " (concat a.name " failed")) (
      append_event a.workflow_id a.id "activity.failed" message (
        touch_workflow a.workflow_id (
          set_workflow a.workflow_id (record w { status = WorkflowStatus.failed })
            (set_activity id (failed message a) e))))
