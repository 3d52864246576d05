-- ===== src/Persistence/Helpers.antt =====
-- The functions of internal/persistence/postgres.go that run inside a transaction: ensureNamespace,
-- appendEvent, lockActivity, currentLease, releaseReady and completeWorkflowIfDone.
use durablego.Base.{
  ℕ, ◌*◌, String, Bool, ◌&&◌, ◌||◌, not, List, [], ◌∷◌, ◌++◌, Option, none, some, text_eq, ltb, leb,
  ◌==◌, any, find, filter, map, length, concat, if◌then◌else◌,
}
use durablego.Types.{
  Activity, ActivityStatus, WorkflowStatus, not_found, invalid_transition, activity_status_text,
  is_running, is_retry_pending, is_completed, is_live,
}
use durablego.Api.Backend.{known, other}
use durablego.Persistence.Tables.{
  NamespaceRow, ActivityRow, WorkflowRow, DependencyRow, EventRow, Tables, find_activity,
  update_where,
}
use durablego.Persistence.Session.{Postgres, Tx, pure, raise, ◌>>=◌, ◌>>◌, statement, for_each}

-- What INSERT INTO namespaces … ON CONFLICT DO UPDATE … RETURNING id does: the name's id, and the rows.
unfoldable pub upsert_namespace : ℕ → String → List NamespaceRow → ℕ × List NamespaceRow
upsert_namespace new name rows = elim (find (λ n. text_eq n.name name) rows) [
  | none ↦ (new, rows ++ record { id = new; name = name } ∷ [])
  | some n ↦ (n.id, rows)
]

-- ensureNamespace
unfoldable pub ensure_namespace : String → Tx ℕ
unfolding upsert_namespace statement
ensure_namespace name = statement (λ p.
    let (id, rows) = upsert_namespace (p.driver.serial p.calls) name p.view.namespaces in
    (id, record p.view { namespaces = rows }))

-- appendEvent
abbrev pub nullable : String → Option String
nullable id = if text_eq id "" then none else some id

unfoldable pub new_event : String → String → String → String → Postgres → EventRow
new_event wid aid typ msg p = record {
  workflow_execution_id = wid;
  sequence = p.driver.serial p.calls;
  activity_execution_id = nullable aid;
  type = typ;
  message = msg;
  created_at = p.started;
}

unfoldable pub append_event : String → String → String → String → Tx (Unit {0})
unfolding statement
append_event wid aid typ msg =
    statement
      (λ p. (tt, record p.view { events = p.view.events ++ new_event wid aid typ msg p ∷ [] }))

-- The columns that lockActivity scans into an Activity; retry_backoff_ms becomes nanoseconds.
abbrev pub text_or_empty : Option String → String
text_or_empty none = ""
text_or_empty (some s) = s

unfoldable pub scanned : ActivityRow → Activity
scanned a = record {
  id = a.id;
  workflow_id = a.workflow_execution_id;
  name = a.name;
  task_queue = a.task_queue;
  status = a.status;
  attempt = a.attempt;
  max_attempts = a.max_attempts;
  lease_owner = text_or_empty a.lease_owner;
  lease_expires_at = 0;
  fencing_token = a.fencing_token;
  next_attempt_at = a.next_attempt_at;
  depends_on = [];
  last_error = text_or_empty a.last_error;
  completed_at = 0;
  retry_backoff = a.retry_backoff_ms * 1_000_000;
  application_key = "";
  side_effect_count = 0;
}

-- lease_expires_at > now(); NULL where the lease has no end.
abbrev pub lease_ahead : ℕ → Option ℕ → Option Bool
lease_ahead now none = none
lease_ahead now (some expires) = some (ltb now expires)

-- What lockActivity makes of the row: an error, or the row and whether its lease is current.
unfoldable pub judged_row : ActivityRow → Option Bool → Tx (Activity × Bool)
judged_row a none = raise (other "cannot scan NULL into *bool")
judged_row a (some current) =
    if not (is_running a.status)
    then raise (known (invalid_transition (concat "activity is " (activity_status_text a.status))))
    else pure (scanned a, current)

-- The columns of the SELECT, for the row that WHERE finds.
abbrev pub selected : ℕ → Option ActivityRow → Option (ActivityRow × Option Bool)
selected now none = none
selected now (some a) = some (a, lease_ahead now a.lease_expires_at)

unfoldable pub found_row : Option (ActivityRow × Option Bool) → Tx (Activity × Bool)
unfolding judged_row
found_row none = raise (known not_found)
found_row (some (a, current)) = judged_row a current

-- lockActivity
unfoldable pub lock_activity : String → Tx (Activity × Bool)
unfolding found_row statement
lock_activity id = do
  found ← statement (λ p. (selected p.started (find_activity id p.view.activities), p.view))
  found_row found

-- currentLease
unfoldable pub current_lease : Activity → String → ℕ → Bool
current_lease a worker token =
    is_running a.status && text_eq a.lease_owner worker && a.fencing_token == token

-- The subquery of releaseReady: some activity that `a` depends on is not completed.
unfoldable pub is_blocked : Tables → ActivityRow → Bool
is_blocked t a =
    any
      (λ (d : DependencyRow).
        text_eq d.workflow_execution_id a.workflow_execution_id
        && text_eq d.activity_name a.name
        && any
            (λ (dep : ActivityRow).
              text_eq dep.workflow_execution_id d.workflow_execution_id
              && text_eq dep.name d.depends_on_name
              && not (is_completed dep.status))
            t.activities)
      t.dependencies

-- The WHERE of releaseReady; the scope "" is every workflow.
unfoldable pub is_due : ℕ → String → Tables → ActivityRow → Bool
unfolding is_blocked
is_due now scope t a =
    is_retry_pending a.status
    && leb a.next_attempt_at now
    && (text_eq scope "" || text_eq a.workflow_execution_id scope)
    && not (is_blocked t a)

abbrev pub made_ready : ℕ → ActivityRow → ActivityRow
made_ready now a = record a { status = ActivityStatus.ready; updated_at = now }

-- An UPDATE of the activities that returns the rows it changed.
unfoldable pub update_returning :
    (Postgres → ActivityRow → Bool) → (Postgres → ActivityRow → ActivityRow) → Tx (List ActivityRow)
unfolding statement
update_returning test change = statement (λ p. (
  p.driver.arrange (map (change p) (filter (test p) p.view.activities)),
  record p.view { activities = update_where (test p) (change p) p.view.activities },
))

abbrev pub ready_event : ActivityRow → Tx (Unit {0})
ready_event a =
    append_event a.workflow_execution_id a.id "activity.ready" (concat a.name " became ready")

-- releaseReady
unfoldable pub release_ready : String → Tx ℕ
unfolding update_returning is_due for_each append_event
release_ready scope = do
  ready ← update_returning (λ p. is_due p.started scope p.view) (λ p. made_ready p.started)
  for_each ready_event ready
  pure (length ready)

-- The WHERE of completeWorkflowIfDone.
unfoldable pub is_done : String → Tables → WorkflowRow → Bool
is_done wid t w =
    text_eq w.id wid
    && is_live w.status
    && not (
        any
          (λ (a : ActivityRow). text_eq a.workflow_execution_id wid && not (is_completed a.status))
          t.activities)

abbrev pub set_status : WorkflowStatus → ℕ → WorkflowRow → WorkflowRow
set_status status now w = record w { status = status; updated_at = now }

-- An UPDATE of the workflows that tells how many rows it changed.
unfoldable pub update_workflows : (Tables → WorkflowRow → Bool) → WorkflowStatus → Tx ℕ
unfolding statement
update_workflows test status = statement (λ p. (
  length (filter (test p.view) p.view.workflows),
  record p.view {
    workflows = update_where (test p.view) (set_status status p.started) p.view.workflows;
  },
))

unfoldable pub log_completion : String → ℕ → Tx (Unit {0})
unfolding append_event
log_completion wid n =
    if n == 1 then append_event wid "" "workflow.completed" "all activities completed" else pure tt

-- completeWorkflowIfDone
unfoldable pub complete_workflow_if_done : String → Tx (Unit {0})
unfolding update_workflows is_done log_completion
complete_workflow_if_done wid = do
  n ← update_workflows (is_done wid) WorkflowStatus.completed
  log_completion wid n
