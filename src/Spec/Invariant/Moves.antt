-- ===== src/Spec/Invariant/Moves.antt =====
-- Every move keeps the invariant.
use durablego.Base.{String, ◌≡◌, ◌≢◌, refl, inl, inr, some, get, All-In, arith, get-put_self}
use durablego.Types.{Workflow, WorkflowStatus, Activity, ActivityStatus}
use durablego.Board.{Board, put_activity, put_workflow, ids_of}
use durablego.Spec.Move.{
  IsDone, DepsDone, Change, claim, extend, finish, retry, expire, release, cancel, Move, change,
  fail, touch, finish_workflow, cancel_workflow, open_workflow, open_activity,
}
use durablego.Spec.Later.{KeptWorkflow}
use durablego.Spec.Kept.{Change-Kept}
use durablego.Spec.Invariant.{Counts, HasBegun, IsValid}
use durablego.Spec.Invariant.Rows.{put_activity-IsValid, put_workflow-IsValid}
use durablego.Spec.Invariant.Opens.{add_workflow-IsValid, add_row-IsValid}

Change-Counts : {b : Board} (a : Activity) {a' : Activity} → Change b a a' → Counts a → Counts a'
Change-Counts a (claim worker expires h) c = ground (arith, c.room (inl h))
Change-Counts a (extend expires h) c = ground arith
Change-Counts a (finish now h) c = ground arith
Change-Counts a (retry message due h room) c = ground arith
Change-Counts a (expire h room) c = ground arith
Change-Counts a (release h deps) c = ground (arith, c.room (inr h))
Change-Counts a (cancel h) c = ground arith

Change-ne-failed :
    {b : Board} (a : Activity) {a' : Activity}
    → Change b a a'
    → a'.status ≡ ActivityStatus.failed
    → a.status ≡ ActivityStatus.failed
Change-ne-failed a (claim worker expires h) f = absurd (cc)
Change-ne-failed a (extend expires h) f = f
Change-ne-failed a (finish now h) f = absurd (cc)
Change-ne-failed a (retry message due h room) f = absurd (cc)
Change-ne-failed a (expire h room) f = absurd (cc)
Change-ne-failed a (release h deps) f = absurd (cc)
Change-ne-failed a (cancel h) f = absurd (cc)

-- A row begins only by `release`; any other change starts from a row that has begun, or ends it.
Change-DepsDone :
    {b : Board} (a : Activity) {a' : Activity}
    → Change b a a'
    → (HasBegun a → DepsDone b a)
    → HasBegun a'
    → DepsDone b a
Change-DepsDone a (claim worker expires h) d g = d (ground arith, ground arith)
Change-DepsDone a (extend expires h) d g = d g
Change-DepsDone a (finish now h) d g = d (ground arith, ground arith)
Change-DepsDone a (retry message due h room) d g = absurd (g.0 refl)
Change-DepsDone a (expire h room) d g = d (ground arith, ground arith)
Change-DepsDone a (release h deps) d g = deps
Change-DepsDone a (cancel h) d g = absurd (g.1 refl)

change-IsValid :
    (b : Board) (id : String) (a a' : Activity)
    → get id b.activities ≡ some a
    → Change b a a'
    → IsValid b
    → IsValid (put_activity id a' b)
change-IsValid b id a a' e c v =
    put_activity-IsValid b id a a' e (Change-Kept a c) (Change-Counts a c (v.counts id a e)) fails
      (Change-DepsDone a c (v.deps id a e)) v
  where
    fails :
        a'.status ≡ ActivityStatus.failed
        → (w : Workflow) → get a.workflow_id b.workflows ≡ some w
        → w.status ≡ WorkflowStatus.failed
    fails f w ew =
        let (u, eu, g) = v.home id a e in
        let was : a.status ≡ ActivityStatus.failed = Change-ne-failed a c f in
        let same : u.status ≡ WorkflowStatus.failed = g was in ground arith

-- The workflow's row first, then the activity's.
fail-IsValid :
    (b : Board) (id message : String) (a : Activity) (w : Workflow)
    → get id b.activities ≡ some a
    → a.status ≡ ActivityStatus.running
    → get a.workflow_id b.workflows ≡ some w
    → w.status ≢ WorkflowStatus.completed
    → IsValid b
    → IsValid (
        put_workflow a.workflow_id
          (record w { status = WorkflowStatus.failed })
          (put_activity id
            (record a { status = ActivityStatus.failed; lease_owner = ""; last_error = message })
            b))
fail-IsValid b id message a w e h ew live v =
    put_activity-IsValid b₁ id a a' e (ground arith) counts fails
      (λ _. v₁.deps id a e (ground arith, ground arith)) v₁
  where
    open v use {counts as all_counts}

    w' : Workflow
    w' = record w { status = WorkflowStatus.failed }

    a' : Activity
    a' = record a { status = ActivityStatus.failed; lease_owner = ""; last_error = message }

    b₁ : Board
    b₁ = put_workflow a.workflow_id w' b

    kept : KeptWorkflow w w'
    kept = ground arith

    v₁ : IsValid b₁
    v₁ = put_workflow-IsValid b a.workflow_id w w' ew kept (λ f. absurd (cc)) v

    counts : Counts a'
    counts = ground (arith, all_counts id a e)

    fails :
        a'.status ≡ ActivityStatus.failed
        → (u : Workflow) → get a.workflow_id b₁.workflows ≡ some u
        → u.status ≡ WorkflowStatus.failed
    fails _ u eu = ground (arith, get-put_self a.workflow_id w' b.workflows)

pub Move-IsValid : (b : Board) {b' : Board} → Move b b' → IsValid b → IsValid b'
Move-IsValid b (change id a a' e c) v = change-IsValid b id a a' e c v
Move-IsValid b (fail id message a w e h ew live) v = fail-IsValid b id message a w e h ew live v
Move-IsValid b (touch wid w now e) v =
    put_workflow-IsValid b wid w (record w { updated_at = now }) e (ground arith) (v.done wid w e) v
Move-IsValid b (finish_workflow wid w e h d) v =
    put_workflow-IsValid b wid w (record w { status = WorkflowStatus.completed }) e (ground arith)
      (λ _ id a ea here.
        let (u, eu, done) =
          All-In (IsDone b) (ids_of b wid) d id (rw here at (v.indexed id a ea)) in
        ground arith)
      v
Move-IsValid b (cancel_workflow wid w now e h) v =
    put_workflow-IsValid b wid w (record w { status = WorkflowStatus.cancelled; updated_at = now })
      e (ground arith) (λ c. absurd (cc)) v
Move-IsValid b (open_workflow w named live) v = add_workflow-IsValid b w named live v
Move-IsValid b (open_activity wid w row e live r q) v = add_row-IsValid b wid w row e live r q v
