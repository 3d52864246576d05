-- ===== src/Persistence/Start.antt =====
-- Postgres.Start and existingIdempotentWorkflow.
pub mod Rows
use durablego.Base.{
  ℕ, ◌/◌, String, Bool, true, false, ◌&&◌, List, [], ◌∷◌, ◌++◌, Option, none, some, positive_or,
  text_eq, ◌==◌, find, concat, if◌then◌else◌,
}
use durablego.Types.{
  WorkflowDefinition, ActivityDefinition, Workflow, WorkflowStatus, Err, invalid_transition,
}
use durablego.Engine.State.{second}
use durablego.Engine.Start.{lacks_required, validate, initial_status}
use durablego.Api.Backend.{known, other}
use durablego.Persistence.Tables.{
  DefinitionRow, WorkflowRow, KeyRow, ActivityRow, DependencyRow, Tables, find_activity,
  find_workflow,
}
use durablego.Persistence.Session.{
  Postgres, Tx, pure, raise, ◌>>=◌, ◌>>◌, statement, begin, commit, rollback, deferring_rollback,
  for_each,
}
use durablego.Persistence.Helpers.{append_event, ensure_namespace}
use durablego.Persistence.Reads.{workflow_tx}
use durablego.Persistence.Start.Rows.{
  is_key, ensure_definition, insert_workflow, keep_key, schedule,
}

-- The checks before the transaction, which are those of the engine.
unfoldable pub refused : WorkflowDefinition → Option Err
refused d =
    if lacks_required d
    then some (invalid_transition "namespace, name, and activities are required")
    else validate d

abbrev pub workflow_of_key : Option KeyRow → Option String
workflow_of_key none = none
workflow_of_key (some k) = some k.workflow_execution_id

unfoldable pub select_key : ℕ → String → Tx (Option String)
unfolding statement
select_key ns key = statement (λ p. (workflow_of_key (find (is_key ns key) p.view.keys), p.view))

-- crashBeforeCommit
unfoldable pub crash_with : Option String → Tx (Unit {0})
crash_with none = pure tt
crash_with (some text) = raise (other text)

unfoldable pub crash_hook : Tx (Unit {0})
unfolding crash_with
crash_hook p = crash_with p.crash_before_commit p

-- The workflow of a key that is known, as a duplicate.
unfoldable pub known_workflow : String → Tx (Workflow × Bool)
unfolding workflow_tx commit
known_workflow wid = do r ← workflow_tx wid; commit; pure (r.0, true)

-- existingIdempotentWorkflow
unfoldable pub existing_found : String → Option String → Tx (Workflow × Bool)
unfolding known_workflow
existing_found key none = raise (
    known (
      invalid_transition
        (concat "concurrent start for idempotency key \"" (concat key "\" did not commit"))))
existing_found key (some wid) = known_workflow wid

unfoldable pub existing_idempotent_workflow : ℕ → String → Tx (Workflow × Bool)
unfolding deferring_rollback begin select_key existing_found
existing_idempotent_workflow ns key =
    deferring_rollback do begin; found ← select_key ns key; existing_found key found

abbrev pub started_workflow : WorkflowDefinition → String → WorkflowRow → Workflow
started_workflow d key w = record {
  id = w.id;
  namespace = d.namespace;
  name = d.name;
  idempotency_key = key;
  status = WorkflowStatus.running;
  created_at = w.created_at;
  updated_at = w.updated_at;
}

-- What follows the insertion of the key: the conflict, or the rest of the new workflow.
unfoldable pub start_keyed :
    ℕ → WorkflowDefinition → String → WorkflowRow → Bool → Tx (Workflow × Bool)
unfolding rollback existing_idempotent_workflow append_event for_each schedule crash_hook commit
start_keyed ns d key w false = do rollback; existing_idempotent_workflow ns key
start_keyed ns d key w true = do
  append_event w.id "" "workflow.started" "workflow created"
  for_each (schedule w.id) d.activities
  crash_hook
  commit
  pure (started_workflow d key w, false)

unfoldable pub create : ℕ → WorkflowDefinition → String → Tx (Workflow × Bool)
unfolding ensure_definition insert_workflow keep_key start_keyed
create ns d key = do
  definition ← ensure_definition ns d.name
  w ← insert_workflow ns definition
  kept ← keep_key ns key w.id
  start_keyed ns d key w kept

-- What follows the look-up of the key.
unfoldable pub start_found : ℕ → WorkflowDefinition → String → Option String → Tx (Workflow × Bool)
unfolding known_workflow create
start_found ns d key none = create ns d key
start_found ns d key (some wid) = known_workflow wid

unfoldable pub known_key : ℕ → String → Tx (Option String)
unfolding select_key
known_key ns key = if text_eq key "" then pure none else select_key ns key

unfoldable pub start_checked : Option Err → WorkflowDefinition → String → Tx (Workflow × Bool)
unfolding deferring_rollback begin ensure_namespace known_key start_found
start_checked (some e) d key = raise (known e)
start_checked none d key = deferring_rollback do
  begin
  ns ← ensure_namespace d.namespace
  found ← known_key ns key
  start_found ns d key found

unfoldable pub start : WorkflowDefinition → String → Tx (Workflow × Bool)
unfolding refused start_checked
start d key = start_checked (refused d) d key
