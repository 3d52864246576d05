-- ===== src/Spec/Kept.antt =====
-- Every move leads to a later board.
use durablego.Base.{ℕ, suc, ◌<◌, String, ◌≡◌, ◌≢◌, none, some, get, arith, put-relates, get-put_new}
use durablego.Types.{Workflow, WorkflowStatus, Activity, ActivityStatus}
use durablego.Board.{Board, put_activity, put_workflow, workflow_id_of, activity_id_of}
use durablego.Engine.Start.{add_row, add_workflow}
use durablego.Spec.Move.{
  Change, claim, extend, finish, retry, expire, release, cancel, Move, change, fail, touch,
  finish_workflow, cancel_workflow, open_workflow, open_activity,
}
use durablego.Spec.Later.{Kept, KeptWorkflow, Later, Kept-refl, KeptWorkflow-refl, Later-trans}

pub Change-Kept : {b : Board} (a : Activity) {a' : Activity} → Change b a a' → Kept a a'
Change-Kept a (claim worker expires h) = ground arith
Change-Kept a (extend expires h) = ground arith
Change-Kept a (finish now h) = ground arith
Change-Kept a (retry message due h room) = ground arith
Change-Kept a (expire h room) = ground arith
Change-Kept a (release h deps) = ground arith
Change-Kept a (cancel h) = ground arith

-- No id that the counters have yet to give out is in use.
pub record HasFreshIds (b : Board) : Type 0 where
  pub workflow : (n : ℕ) → b.next_workflow < n → get (workflow_id_of n) b.workflows ≡ none
  pub activity : (n : ℕ) → b.next_activity < n → get (activity_id_of n) b.activities ≡ none

pub put_activity-Later :
    (b : Board) (id : String) (a a' : Activity)
    → get id b.activities ≡ some a
    → Kept a a'
    → Later b (put_activity id a' b)
put_activity-Later b id a a' e k = record {
  activity = λ j c h. put-relates Kept id j a a' c b.activities Kept-refl e k h;
  workflow = λ j w h. (w, h, KeptWorkflow-refl w);
}

pub put_workflow-Later :
    (b : Board) (wid : String) (w w' : Workflow)
    → get wid b.workflows ≡ some w
    → KeptWorkflow w w'
    → Later b (put_workflow wid w' b)
put_workflow-Later b wid w w' e k = record {
  activity = λ j a h. (a, h, Kept-refl a);
  workflow = λ j v h. put-relates KeptWorkflow wid j w w' v b.workflows KeptWorkflow-refl e k h;
}

pub add_workflow-Later :
    (b : Board) (w : Workflow) → get w.id b.workflows ≡ none → Later b (add_workflow w b)
unfolding add_workflow
add_workflow-Later b w e = record {
  activity = λ j a h. (a, h, Kept-refl a);
  workflow = λ j v h. (v, get-put_new w.id j w v b.workflows e h, KeptWorkflow-refl v);
}

pub add_row-Later :
    (b : Board) (wid : String) (row : Activity)
    → get row.id b.activities ≡ none
    → Later b (add_row wid row b)
unfolding add_row
add_row-Later b wid row e = record {
  activity = λ j a h. (a, get-put_new row.id j row a b.activities e h, Kept-refl a);
  workflow = λ j w h. (w, h, KeptWorkflow-refl w);
}

failing :
    (w : Workflow)
    → w.status ≢ WorkflowStatus.completed
    → KeptWorkflow w (record w { status = WorkflowStatus.failed })
failing w h = ground arith

pub Move-Later : (b : Board) {b' : Board} → HasFreshIds b → Move b b' → Later b b'
Move-Later b f (change id a a' e c) = put_activity-Later b id a a' e (Change-Kept a c)
Move-Later b f (fail id message a w e h ew live) =
    Later-trans b (put_activity id (failed_row) b) _
      (put_activity-Later b id a failed_row e (ground arith))
      (put_workflow-Later (put_activity id failed_row b) a.workflow_id w
        (record w { status = WorkflowStatus.failed }) ew (failing w live))
  where
    failed_row : Activity
    failed_row = record a { status = ActivityStatus.failed; lease_owner = ""; last_error = message }
Move-Later b f (touch wid w now e) =
    put_workflow-Later b wid w (record w { updated_at = now }) e (ground arith)
Move-Later b f (finish_workflow wid w e h d) =
    put_workflow-Later b wid w (record w { status = WorkflowStatus.completed }) e (ground arith)
Move-Later b f (cancel_workflow wid w now e h) =
    put_workflow-Later b wid w (record w { status = WorkflowStatus.cancelled; updated_at = now }) e
      (ground arith)
Move-Later b f (open_workflow w i h) =
    add_workflow-Later b w (rw i (f.workflow (suc b.next_workflow) (omega arith)))
Move-Later b f (open_activity wid w row e h r q) =
    add_row-Later b wid row (rw r.named (f.activity (suc b.next_activity) (omega arith)))
