-- ===== src/Persistence/Start/Rows.antt =====
-- The INSERTs of Start in internal/persistence/postgres.go.
use durablego.Base.{
  ℕ, ◌/◌, String, Bool, true, false, ◌&&◌, List, [], ◌∷◌, ◌++◌, Option, none, some, positive_or,
  text_eq, ◌==◌, find, concat, if◌then◌else◌,
}
use durablego.Types.{ActivityDefinition, WorkflowStatus}
use durablego.Engine.State.{second}
use durablego.Engine.Start.{initial_status}
use durablego.Api.Backend.{other}
use durablego.Persistence.Tables.{
  DefinitionRow, WorkflowRow, KeyRow, ActivityRow, DependencyRow, Tables, find_activity,
  find_workflow,
}
use durablego.Persistence.Session.{Postgres, Tx, pure, raise, ◌>>=◌, ◌>>◌, statement, for_each}
use durablego.Persistence.Helpers.{append_event}

-- A primary key that is taken.
unfoldable pub accepted : {A : Type 0} → Option A → Tx A
accepted none = raise (other "duplicate key value violates unique constraint")
accepted (some a) = pure a

-- SELECT workflow_execution_id FROM idempotency_keys WHERE namespace_id = $1 AND key = $2
abbrev pub is_key : ℕ → String → KeyRow → Bool
is_key ns key k = k.namespace_id == ns && text_eq k.key key

-- INSERT INTO workflow_definitions … ON CONFLICT DO UPDATE … RETURNING id
unfoldable pub upsert_definition : ℕ → ℕ → String → List DefinitionRow → ℕ × List DefinitionRow
upsert_definition new ns name rows =
    elim (find (λ (d : DefinitionRow). d.namespace_id == ns && text_eq d.name name) rows) [
      | none ↦ (new, rows ++ record { id = new; namespace_id = ns; name = name } ∷ [])
      | some d ↦ (d.id, rows)
    ]

unfoldable pub ensure_definition : ℕ → String → Tx ℕ
unfolding upsert_definition statement
ensure_definition ns name = statement (λ p.
    let (id, rows) = upsert_definition (p.driver.serial p.calls) ns name p.view.definitions in
    (id, record p.view { definitions = rows }))

-- The row that is inserted into workflow_executions, under the id that the default draws.
unfoldable pub new_workflow_row : ℕ → ℕ → Postgres → WorkflowRow
new_workflow_row ns definition p = record {
  id = p.driver.uuid p.calls;
  namespace_id = ns;
  definition_id = definition;
  status = WorkflowStatus.running;
  created_at = p.started;
  updated_at = p.started;
}

abbrev pub is_free : {A : Type 0} → Option A → Bool
is_free none = true
is_free (some _) = false

-- An INSERT whose primary key may be taken: nothing is inserted then.
unfoldable pub workflow_inserted : Bool → WorkflowRow → Tables → Option WorkflowRow × Tables
workflow_inserted true w t = (some w, record t { workflows = t.workflows ++ w ∷ [] })
workflow_inserted false w t = (none, t)

unfoldable pub insert_workflow : ℕ → ℕ → Tx WorkflowRow
unfolding new_workflow_row workflow_inserted statement accepted
insert_workflow ns definition = do
  new ← statement (λ p.
      let w = new_workflow_row ns definition p in
      workflow_inserted (is_free (find_workflow w.id p.view.workflows)) w p.view)
  accepted new

-- INSERT INTO idempotency_keys … ON CONFLICT DO NOTHING: whether the row was inserted.
unfoldable pub key_inserted : Bool → KeyRow → Tables → Bool × Tables
key_inserted true k t = (true, record t { keys = t.keys ++ k ∷ [] })
key_inserted false k t = (false, t)

unfoldable pub insert_key : ℕ → String → String → Tx Bool
unfolding key_inserted statement
insert_key ns key wid = statement (λ p.
    key_inserted (is_free (find (is_key ns key) p.view.keys))
      (record { namespace_id = ns; key = key; workflow_execution_id = wid }) p.view)

unfoldable pub keep_key : ℕ → String → String → Tx Bool
unfolding insert_key
keep_key ns key wid = if text_eq key "" then pure true else insert_key ns key wid

-- The row that is inserted into activity_executions.
unfoldable pub new_activity_row : String → ActivityDefinition → Postgres → ActivityRow
new_activity_row wid d p = record {
  id = p.driver.uuid p.calls;
  workflow_execution_id = wid;
  name = d.name;
  task_queue = if text_eq d.task_queue "" then "default" else d.task_queue;
  status = initial_status d.depends_on;
  attempt = 0;
  max_attempts = positive_or d.max_attempts p.max_attempts;
  retry_backoff_ms = positive_or d.retry_backoff second / 1_000_000;
  lease_owner = none;
  lease_expires_at = none;
  heartbeat_at = none;
  fencing_token = 0;
  next_attempt_at = p.started;
  last_error = none;
  created_at = p.started;
  updated_at = p.started;
}

unfoldable pub activity_inserted : Bool → ActivityRow → Tables → Option String × Tables
activity_inserted true a t = (some a.id, record t { activities = t.activities ++ a ∷ [] })
activity_inserted false a t = (none, t)

unfoldable pub insert_activity : String → ActivityDefinition → Tx String
unfolding new_activity_row activity_inserted statement accepted
insert_activity wid d = do
  new ← statement (λ p.
      let a = new_activity_row wid d p in
      activity_inserted (is_free (find_activity a.id p.view.activities)) a p.view)
  accepted new

abbrev pub is_dependency : String → String → String → DependencyRow → Bool
is_dependency wid name dep d =
    text_eq d.workflow_execution_id wid
    && text_eq d.activity_name name
    && text_eq d.depends_on_name dep

unfoldable pub dependency_inserted : Bool → DependencyRow → Tables → Option (Unit {0}) × Tables
dependency_inserted true d t = (some tt, record t { dependencies = t.dependencies ++ d ∷ [] })
dependency_inserted false d t = (none, t)

unfoldable pub insert_dependency : String → String → String → Tx (Unit {0})
unfolding dependency_inserted statement accepted
insert_dependency wid name dep = do
  new ← statement (λ p.
      dependency_inserted (is_free (find (is_dependency wid name dep) p.view.dependencies))
        (record { workflow_execution_id = wid; activity_name = name; depends_on_name = dep })
        p.view)
  accepted new

-- The body of the loop over the activities.
unfoldable pub schedule : String → ActivityDefinition → Tx (Unit {0})
unfolding insert_activity insert_dependency for_each append_event
schedule wid d = do
  id ← insert_activity wid d
  for_each (insert_dependency wid d.name) d.depends_on
  append_event wid id "activity.scheduled" (concat d.name " scheduled")
