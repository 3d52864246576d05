-- ===== src/Persistence/Tables.antt =====
-- The tables of migrations/001_init.sql, as far as internal/persistence/postgres.go reads and writes
-- them: a table is the list of its rows, a nullable column an Option. A timestamp is in nanoseconds;
-- a status is one of the values that the CHECK of its column lets the code write.
use durablego.Base.{ℕ, String, Bool, List, [], Option, text_eq, find, map, if◌then◌else◌}
use durablego.Types.{WorkflowStatus, ActivityStatus}

pub record NamespaceRow : Type 0 where
  pub id : ℕ
  pub name : String

pub record DefinitionRow : Type 0 where
  pub id : ℕ
  pub namespace_id : ℕ
  pub name : String

pub record WorkflowRow : Type 0 where
  pub id : String
  pub namespace_id : ℕ
  pub definition_id : ℕ
  pub status : WorkflowStatus
  pub created_at : ℕ
  pub updated_at : ℕ

pub record KeyRow : Type 0 where
  pub namespace_id : ℕ
  pub key : String
  pub workflow_execution_id : String

pub record ActivityRow : Type 0 where
  pub id : String
  pub workflow_execution_id : String
  pub name : String
  pub task_queue : String
  pub status : ActivityStatus
  pub attempt : ℕ
  pub max_attempts : ℕ
  pub retry_backoff_ms : ℕ
  pub lease_owner : Option String
  pub lease_expires_at : Option ℕ
  pub heartbeat_at : Option ℕ
  pub fencing_token : ℕ
  pub next_attempt_at : ℕ
  pub last_error : Option String
  pub created_at : ℕ
  pub updated_at : ℕ

pub record DependencyRow : Type 0 where
  pub workflow_execution_id : String
  pub activity_name : String
  pub depends_on_name : String

pub record EventRow : Type 0 where
  pub workflow_execution_id : String
  pub sequence : ℕ
  pub activity_execution_id : Option String
  pub type : String
  pub message : String
  pub created_at : ℕ

pub record Tables : Type 0 where
  pub namespaces : List NamespaceRow
  pub definitions : List DefinitionRow
  pub workflows : List WorkflowRow
  pub keys : List KeyRow
  pub activities : List ActivityRow
  pub dependencies : List DependencyRow
  pub events : List EventRow

-- WHERE id = $1
abbrev pub find_activity : String → List ActivityRow → Option ActivityRow
find_activity id rows = find (λ a. text_eq a.id id) rows

abbrev pub find_workflow : String → List WorkflowRow → Option WorkflowRow
find_workflow id rows = find (λ w. text_eq w.id id) rows

-- UPDATE … WHERE: the rows that pass are changed.
abbrev pub update_where : {A : Type 0} → (A → Bool) → (A → A) → List A → List A
update_where p f rows = map (λ a. if p a then f a else a) rows

-- The tables as the migration makes them.
abbrev pub empty_tables : Tables
empty_tables = record {
  namespaces = [];
  definitions = [];
  workflows = [];
  keys = [];
  activities = [];
  dependencies = [];
  events = [];
}
