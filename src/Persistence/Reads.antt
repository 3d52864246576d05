-- ===== src/Persistence/Reads.antt =====
-- Workflow, ListWorkflows and the functions that they read with, of internal/persistence/postgres.go.
use durablego.Base.{
  ℕ, String, Bool, ◌&&◌, ◌||◌, List, [], ◌∷◌, ◌++◌, Option, none, some, text_eq, is_le,
  compare_text, not, ltb, ◌==◌, find, filter, map, sort_by,
}
use durablego.Types.{Workflow, Activity, Event, not_found}
use durablego.Api.Backend.{known}
use durablego.Persistence.Tables.{
  NamespaceRow, DefinitionRow, WorkflowRow, KeyRow, ActivityRow, DependencyRow, EventRow, Tables,
  find_workflow,
}
use durablego.Persistence.Session.{
  Tx, pure, raise, ◌>>=◌, ◌>>◌, statement, begin, commit, deferring_rollback,
}
use durablego.Persistence.Helpers.{scanned, text_or_empty}

-- ORDER BY created_at, id
unfoldable pub created_before : ActivityRow → ActivityRow → Bool
created_before a b =
    ltb a.created_at b.created_at
    || (a.created_at == b.created_at && is_le (compare_text a.id b.id))

-- ORDER BY activity_name, depends_on_name
unfoldable pub named_before : DependencyRow → DependencyRow → Bool
named_before d e =
    (is_le (compare_text d.activity_name e.activity_name)
      && not (text_eq d.activity_name e.activity_name))
    || (text_eq d.activity_name e.activity_name
        && is_le (compare_text d.depends_on_name e.depends_on_name))

-- loadDependencies, as the dependencies that the map holds under a name.
unfoldable pub dependencies_of : String → Tables → String → List String
unfolding named_before
dependencies_of wid t name =
    map (λ (d : DependencyRow). d.depends_on_name)
      (filter (λ (d : DependencyRow). text_eq d.activity_name name)
        (sort_by named_before
          (filter (λ (d : DependencyRow). text_eq d.workflow_execution_id wid) t.dependencies)))

abbrev pub time_or_zero : Option ℕ → ℕ
time_or_zero none = 0
time_or_zero (some t) = t

-- loadActivities
unfoldable pub loaded : (String → List String) → ActivityRow → Activity
loaded deps a = record (scanned a) {
  lease_expires_at = time_or_zero a.lease_expires_at;
  depends_on = deps a.name;
}

unfoldable pub activities_of : String → Tables → List ActivityRow
unfolding created_before
activities_of wid t =
    sort_by created_before
      (filter (λ (a : ActivityRow). text_eq a.workflow_execution_id wid) t.activities)

unfoldable pub load_activities : String → Tx (List Activity)
unfolding activities_of loaded dependencies_of statement
load_activities wid = do
  rows ← statement (λ p. (activities_of wid p.view, p.view))
  deps ← statement (λ p. (dependencies_of wid p.view, p.view))
  pure (map (loaded deps) rows)

-- loadEvents
unfoldable pub event_of : EventRow → Event
event_of e = record {
  sequence = e.sequence;
  workflow_id = e.workflow_execution_id;
  activity_id = text_or_empty e.activity_execution_id;
  type = e.type;
  message = e.message;
  at = e.created_at;
}

unfoldable pub events_of : String → Tables → List EventRow
events_of wid t =
    sort_by (λ (d e : EventRow). ltb d.sequence e.sequence)
      (filter (λ (e : EventRow). text_eq e.workflow_execution_id wid) t.events)

unfoldable pub load_events : String → Tx (List Event)
unfolding events_of event_of statement
load_events wid = statement (λ p. (map event_of (events_of wid p.view), p.view))

-- The LEFT JOIN with the idempotency keys: the keys of the workflow, or '' if it has none.
abbrev pub keys_or_empty : List KeyRow → List String
keys_or_empty [] = "" ∷ []
keys_or_empty (k ∷ ks) = map (λ (r : KeyRow). r.key) (k ∷ ks)

-- The SELECT of workflowTx and ListWorkflows, for one row of workflow_executions: no row where a join
-- finds no partner, one for each key otherwise.
abbrev pub joined_rows :
    WorkflowRow → Option NamespaceRow → Option DefinitionRow → List String → List Workflow
joined_rows w none d keys = []
joined_rows w (some n) none keys = []
joined_rows w (some n) (some d) keys =
    map
      (λ key. record {
        id = w.id;
        namespace = n.name;
        name = d.name;
        idempotency_key = key;
        status = w.status;
        created_at = w.created_at;
        updated_at = w.updated_at;
      })
      keys

unfoldable pub joined : Tables → WorkflowRow → List Workflow
joined t w =
    joined_rows w (find (λ (n : NamespaceRow). n.id == w.namespace_id) t.namespaces)
      (find (λ (d : DefinitionRow). d.id == w.definition_id) t.definitions)
      (keys_or_empty (filter (λ (k : KeyRow). text_eq k.workflow_execution_id w.id) t.keys))

-- QueryRow: the first row of the join, for the row of workflow_executions with the id.
abbrev pub first : List Workflow → Option Workflow
first [] = none
first (w ∷ _) = some w

unfoldable pub select_workflow : Tables → Option WorkflowRow → Option Workflow
unfolding joined
select_workflow t none = none
select_workflow t (some w) = first (joined t w)

-- workflowTx
unfoldable pub read_workflow : String → Option Workflow → Tx (Workflow × List Activity × List Event)
unfolding load_activities load_events
read_workflow id none = raise (known not_found)
read_workflow id (some w) = do
  activities ← load_activities id
  events ← load_events id
  pure (w, activities, events)

unfoldable pub workflow_tx : String → Tx (Workflow × List Activity × List Event)
unfolding read_workflow select_workflow statement
workflow_tx id = do
  found ← statement (λ p. (select_workflow p.view (find_workflow id p.view.workflows), p.view))
  read_workflow id found

-- Workflow
unfoldable pub workflow : String → Tx (Workflow × List Activity × List Event)
unfolding deferring_rollback begin commit workflow_tx
workflow id = deferring_rollback do begin; r ← workflow_tx id; commit; pure r

-- ListWorkflows: one query outside a transaction. Workflows with the same created_at come in the order
-- of the table, which SQL leaves open.
unfoldable pub all_joined : Tables → List WorkflowRow → List Workflow
unfolding joined
all_joined t [] = []
all_joined t (w ∷ ws) = joined t w ++ all_joined t ws

unfoldable pub list_workflows : Tx (List Workflow)
unfolding deferring_rollback statement all_joined
list_workflows = deferring_rollback (
    statement (λ p. (
      sort_by (λ (v w : Workflow). ltb v.created_at w.created_at)
          (all_joined p.committed p.committed.workflows),
      p.view,
    )))
