-- ===== src/Engine/Sweep.antt =====
-- Engine.RunSchedulerPass: expired leases are taken back, and due retries become ready.
pub mod Steps
use durablego.Base.{
  ℕ, suc, String, Bool, true, false, ◌&&◌, not, ◌==◌, ltb, if◌then◌else◌, List, [], ◌∷◌, Option,
  none, some,
}
use durablego.Types.{
  Activity, ActivityStatus, Workflow, WorkflowStatus, is_running, is_retry_pending,
}
use durablego.Board.{dependencies_complete}
use durablego.Engine.State.{
  Engine, M, pure, ◌>>=◌, ◌>>◌, modify, gets, try_gets, read_clock, activity_at, workflow_at,
  set_activity, set_workflow, append_event,
}
use durablego.Engine.Claim.{sorted_activity_ids}

-- The first case of the switch.
unfoldable pub lease_over : ℕ → Activity → Bool
lease_over now a =
    is_running a.status && not (a.lease_expires_at == 0) && not (ltb now a.lease_expires_at)

-- The second case of the switch, without its last condition.
unfoldable pub retry_due : ℕ → Activity → Bool
retry_due now a = is_retry_pending a.status && not (ltb now a.next_attempt_at)

expire_ready : String → Activity → M (Unit {0})
expire_ready id a = do
  modify (set_activity id (record a { lease_owner = ""; status = ActivityStatus.ready }))
  modify (
      append_event a.workflow_id a.id "activity.lease_expired"
        "lease expired and activity became ready")

expire_failed : String → Activity → M (Unit {0})
expire_failed id a = do
  modify (set_activity id (record a { lease_owner = ""; status = ActivityStatus.failed }))
  w ← workflow_at a.workflow_id
  modify (set_workflow a.workflow_id (record w { status = WorkflowStatus.failed }))
  modify (
      append_event a.workflow_id a.id "activity.lease_expired_failed"
        "lease expired and attempts exhausted")

expire : String → Activity → M (Unit {0})
unfolding expire_ready expire_failed
expire id a = if ltb a.attempt a.max_attempts then expire_ready id a else expire_failed id a

wake : String → Activity → M (Unit {0})
wake id a = do
  modify (set_activity id (record a { status = ActivityStatus.ready }))
  modify (append_event a.workflow_id a.id "activity.ready" "activity became ready")

-- The rest of the switch for a due retry: 1 if the row changes.
wake_if_complete : String → Activity → M ℕ
unfolding wake
wake_if_complete id a = do
  done ← try_gets (λ e. dependencies_complete a e.board)
  if done then (do wake id a; pure 1) else pure 0

-- The switch on one row: how much it adds to `changed`.
sweep_row : ℕ → String → Activity → M ℕ
unfolding expire wake_if_complete lease_over retry_due
sweep_row now id a =
    if lease_over now a
    then (do expire id a; pure 1)
    else if retry_due now a
    then wake_if_complete id a
    else pure 0

sweep_each : ℕ → List String → ℕ → M ℕ
unfolding sweep_row
sweep_each now [] changed = pure changed
sweep_each now (id ∷ ids) changed = do
  a ← activity_at id
  n ← sweep_row now id a
  sweep_each now ids (if n == 0 then changed else suc changed)

unfoldable pub run_scheduler_pass : M ℕ
unfolding sweep_each
run_scheduler_pass = do now ← read_clock; ids ← gets sorted_activity_ids; sweep_each now ids 0
