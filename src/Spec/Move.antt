-- ===== src/Spec/Move.antt =====
-- The lawful moves of the rows: the life of an activity and of a workflow, as step relations.
use durablego.Base.{ℕ, suc, ◌<◌, String, ◌≡◌, ◌≢◌, ◌⊎◌, [], some, get, All, In}
use durablego.Types.{Workflow, WorkflowStatus, Activity, ActivityStatus}
use durablego.Board.{Board, put_activity, put_workflow, ids_of, workflow_id_of, activity_id_of}
use durablego.Engine.Start.{add_row, add_workflow}

-- The row under `id` is completed.
abbrev pub IsDone : Board → String → Type 0
IsDone b id =
    (u : Activity) × (get id b.activities ≡ some u) × (u.status ≡ ActivityStatus.completed)

-- Some activity of the workflow has the name, and each that has it is completed.
pub record DepDone (b : Board) (wid dep : String) : Type 0 where
  pub found :
      (id : String) × In id (ids_of b wid)
      × ((u : Activity) × (get id b.activities ≡ some u) × (u.name ≡ dep))
  pub every :
      All
        (λ id.
          (u : Activity)
          → get id b.activities ≡ some u
          → u.name ≡ dep
          → u.status ≡ ActivityStatus.completed)
        (ids_of b wid)

abbrev pub DepsDone : Board → Activity → Type 0
DepsDone b a = All (DepDone b a.workflow_id) a.depends_on

-- One activity row changes.
pub data Change (b : Board) (a : Activity) : Activity → Type 0 where
  claim :
      (worker : String) (expires : ℕ)
      → a.status ≡ ActivityStatus.ready
      → Change b a (record a {
        status = ActivityStatus.running;
        attempt = suc a.attempt;
        lease_owner = worker;
        fencing_token = suc a.fencing_token;
        lease_expires_at = expires;
      })
  extend :
      (expires : ℕ)
      → a.status ≡ ActivityStatus.running
      → Change b a (record a { lease_expires_at = expires })
  finish :
      (now : ℕ)
      → a.status ≡ ActivityStatus.running
      → Change b a
          (record a { status = ActivityStatus.completed; lease_owner = ""; completed_at = now })
  retry :
      (message : String) (due : ℕ)
      → a.status ≡ ActivityStatus.running
      → a.attempt < a.max_attempts
      → Change b a (record a {
        status = ActivityStatus.retry_pending;
        lease_owner = "";
        last_error = message;
        next_attempt_at = due;
      })
  expire :
      a.status ≡ ActivityStatus.running
      → a.attempt < a.max_attempts
      → Change b a (record a { lease_owner = ""; status = ActivityStatus.ready })
  release :
      a.status ≡ ActivityStatus.retry_pending
      → DepsDone b a
      → Change b a (record a { status = ActivityStatus.ready })
  cancel :
      (a.status ≡ ActivityStatus.ready) ⊎ (a.status ≡ ActivityStatus.retry_pending)
      → Change b a (record a { status = ActivityStatus.cancelled })

-- The row waits, and has no past that its dependencies would have to allow.
abbrev pub NotBegun : Activity → Type 0
NotBegun a = (a.status ≡ ActivityStatus.retry_pending) ⊎ (a.depends_on ≡ [])

pub record NewRow (b : Board) (wid : String) (row : Activity) : Type 0 where
  pub named : row.id ≡ activity_id_of (suc b.next_activity)
  pub home : row.workflow_id ≡ wid
  pub attempt_zero : row.attempt ≡ 0
  pub token_zero : row.fencing_token ≡ 0
  pub room : 0 < row.max_attempts
  pub waits :
      (row.status ≡ ActivityStatus.retry_pending)
      ⊎ ((row.status ≡ ActivityStatus.ready) × (row.depends_on ≡ []))

pub data Move (b : Board) : Board → Type 0 where
  change :
      (id : String) (a a' : Activity)
      → get id b.activities ≡ some a
      → Change b a a'
      → Move b (put_activity id a' b)
  -- An activity fails, and its workflow with it.
  fail :
      (id message : String) (a : Activity) (w : Workflow)
      → get id b.activities ≡ some a
      → a.status ≡ ActivityStatus.running
      → get a.workflow_id b.workflows ≡ some w
      → w.status ≢ WorkflowStatus.completed
      → Move b (
          put_workflow a.workflow_id
            (record w { status = WorkflowStatus.failed })
            (put_activity id
              (record a { status = ActivityStatus.failed; lease_owner = ""; last_error = message })
              b))
  touch :
      (wid : String) (w : Workflow) (now : ℕ)
      → get wid b.workflows ≡ some w
      → Move b (put_workflow wid (record w { updated_at = now }) b)
  finish_workflow :
      (wid : String) (w : Workflow)
      → get wid b.workflows ≡ some w
      → w.status ≡ WorkflowStatus.running
      → All (IsDone b) (ids_of b wid)
      → Move b (put_workflow wid (record w { status = WorkflowStatus.completed }) b)
  cancel_workflow :
      (wid : String) (w : Workflow) (now : ℕ)
      → get wid b.workflows ≡ some w
      → w.status ≡ WorkflowStatus.running
      → Move b
          (put_workflow wid (record w { status = WorkflowStatus.cancelled; updated_at = now }) b)
  open_workflow :
      (w : Workflow)
      → w.id ≡ workflow_id_of (suc b.next_workflow)
      → w.status ≡ WorkflowStatus.running
      → Move b (add_workflow w b)
  open_activity :
      (wid : String) (w : Workflow) (row : Activity)
      → get wid b.workflows ≡ some w
      → w.status ≡ WorkflowStatus.running
      → NewRow b wid row
      → ((id : String) (a : Activity)
          → get id b.activities ≡ some a
          → a.workflow_id ≡ wid
          → NotBegun a)
      → Move b (add_row wid row b)
