-- ===== src/Engine/Start.antt =====
-- Engine.Start: validation of a definition, idempotent starts, and the new rows.
pub mod Rows
pub mod Steps
pub mod Validation
pub mod Idempotence
use durablego.Base.{
  ℕ, suc, String, Bool, true, false, ◌||◌, not, if◌then◌else◌, List, [], ◌∷◌, ◌++◌, Option, none,
  some, text_eq, concat, get, put, positive_or,
}
use durablego.Types.{
  Workflow, WorkflowStatus, WorkflowDefinition, ActivityDefinition, Activity, ActivityStatus, Err,
  invalid_transition, Result, ok, err,
}
use durablego.Board.{Board, ids_of, workflow_id_of, activity_id_of}
use durablego.Engine.State.{
  Engine, M, pure, ◌>>=◌, ◌>>◌, modify, gets, read_clock, workflow_at, append_event, second,
}
use durablego.Engine.Locked.{release_ready}

-- names[name] of the set that the validation builds.
unfoldable pub contains : List String → String → Bool
contains [] name = false
contains (x ∷ xs) name = text_eq x name || contains xs name

-- The first loop of the validation: the set of names, or the first error.
unfoldable pub check_names : List String → List ActivityDefinition → Result (List String)
check_names names [] = ok names
check_names names (d ∷ ds) =
    let rest = check_names (d.name ∷ names) ds in
    if text_eq d.name ""
    then err (invalid_transition "activity name required")
    else if contains names d.name
    then err (invalid_transition (concat "duplicate activity " d.name))
    else rest

-- The second loop: every dependency is the name of an activity.
unfoldable pub check_deps : List String → List String → Option Err
check_deps names [] = none
check_deps names (dep ∷ deps) =
    let rest = check_deps names deps in
    if not (contains names dep)
    then some (invalid_transition (concat "unknown dependency " dep))
    else rest

unfoldable pub check_all_deps : List String → List ActivityDefinition → Option Err
unfolding check_deps
check_all_deps names [] = none
check_all_deps names (d ∷ ds) = elim (check_deps names d.depends_on) [
  | none ↦ check_all_deps names ds
  | some x ↦ some x
]

is_empty : List ActivityDefinition → Bool
is_empty [] = true
is_empty (_ ∷ _) = false

unfoldable pub lacks_required : WorkflowDefinition → Bool
unfolding is_empty
lacks_required d = text_eq d.namespace "" || text_eq d.name "" || is_empty d.activities

unfoldable pub validate : WorkflowDefinition → Option Err
unfolding contains check_names check_all_deps
validate d = elim (check_names [] d.activities) [
  | err x ↦ some x
  | ok names ↦ check_all_deps names d.activities
]

-- def.Namespace + "\x00" + idempotencyKey
unfoldable pub idem_key : String → String → String
idem_key namespace key = concat namespace (concat "\0" key)

unfoldable pub initial_status : List String → ActivityStatus
initial_status [] = ActivityStatus.ready
initial_status (_ ∷ _) = ActivityStatus.retry_pending

-- The row of an activity whose number is `n`.
unfoldable pub new_row : ℕ → ℕ → ℕ → String → ActivityDefinition → Activity
unfolding initial_status
new_row max_attempts now n wid d = record {
  id = activity_id_of n;
  workflow_id = wid;
  name = d.name;
  task_queue = d.task_queue;
  status = initial_status d.depends_on;
  attempt = 0;
  max_attempts = positive_or d.max_attempts max_attempts;
  lease_owner = "";
  lease_expires_at = 0;
  fencing_token = 0;
  next_attempt_at = now;
  depends_on = d.depends_on;
  last_error = "";
  completed_at = 0;
  retry_backoff = positive_or d.retry_backoff second;
  application_key = "";
  side_effect_count = 0;
}

-- Adds a row to the board, under the next activity number.
unfoldable pub add_row : String → Activity → Board → Board
add_row wid row b = record b {
  next_activity = suc b.next_activity;
  activities = put row.id row b.activities;
  activity_by_wf = put wid (ids_of b wid ++ row.id ∷ []) b.activity_by_wf;
}

-- One turn of the loop over def.Activities.
unfoldable pub schedule : ℕ → String → ActivityDefinition → Engine → Engine
schedule now wid d e =
    append_event wid row.id "activity.scheduled" (concat row.name " scheduled")
      (record e { board = add_row wid row e.board })
  where
    row : Activity
    row = new_row e.max_attempts now (suc e.next_activity) wid d

unfoldable pub schedule_all : ℕ → String → List ActivityDefinition → Engine → Engine
unfolding schedule
schedule_all now wid [] e = e
schedule_all now wid (d ∷ ds) e = schedule_all now wid ds (schedule now wid d e)

unfoldable pub new_workflow : WorkflowDefinition → String → ℕ → ℕ → Workflow
new_workflow d key now n = record {
  id = workflow_id_of n;
  namespace = d.namespace;
  name = d.name;
  idempotency_key = key;
  status = WorkflowStatus.running;
  created_at = now;
  updated_at = now;
}

unfoldable pub add_workflow : Workflow → Board → Board
add_workflow w b = record b {
  next_workflow = suc b.next_workflow;
  workflows = put w.id w b.workflows;
}

unfoldable pub remember : String → String → String → Engine → Engine
remember namespace key wid e =
    if text_eq key ""
    then e
    else record e { idempotency = put (idem_key namespace key) wid e.idempotency }

-- Start, once the definition is found good.
pub create : WorkflowDefinition → String → M (Result (Workflow × Bool))
create d key = do
  n ← gets (λ e. suc e.next_workflow)
  now ← read_clock
  let w = new_workflow d key now n
  modify (λ e. record e { board = add_workflow w e.board })
  modify (remember d.namespace key w.id)
  modify (append_event w.id "" "workflow.started" "workflow created")
  modify (schedule_all now w.id d.activities)
  release_ready w.id
  stored ← workflow_at w.id
  pure (ok (stored, false))

pub create_if_valid : WorkflowDefinition → String → M (Result (Workflow × Bool))
unfolding create
create_if_valid d key = elim (validate d) [ some x ↦ pure (err x) | none ↦ create d key ]

-- The workflow that an earlier Start of the same key made.
unfoldable pub existing : WorkflowDefinition → String → Engine → Option String
existing d key e = if text_eq key "" then none else get (idem_key d.namespace key) e.idempotency

pub start_or_existing : WorkflowDefinition → String → Option String → M (Result (Workflow × Bool))
unfolding create_if_valid
start_or_existing d key (some id) = do w ← workflow_at id; pure (ok (w, true))
start_or_existing d key none = create_if_valid d key

unfoldable pub start : WorkflowDefinition → String → M (Result (Workflow × Bool))
unfolding start_or_existing existing
start d key =
    if lacks_required d
    then pure (err (invalid_transition "namespace, name, and activities are required"))
    else (do found ← gets (existing d key); start_or_existing d key found)
