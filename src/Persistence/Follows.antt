-- ===== src/Persistence/Follows.antt =====
-- What later tables keep of earlier ones, and what every row satisfies: the preorder that each statement
-- of internal/persistence/postgres.go respects.
pub mod Changes
use durablego.Base.{
  ℕ, ◌<◌, ◌≤◌, String, ◌≡◌, refl, sym, ap, ◌∙◌, ◌⊎◌, inl, inr, Bool, true, List, [], ◌∷◌, ◌++◌,
  append-nil, append_assoc, none, some, text_eq, text_eq_iff, arith, Bool-cases, Option-cases, find,
  mapped, find-map, find-append_found, find-append_new, In, In-map, In-append, if◌then◌else◌,
}
use durablego.Types.{ActivityStatus, WorkflowStatus}
use durablego.Spec.Later.{HasEnded}
use durablego.Persistence.Helpers.{set_status}
use durablego.Persistence.Tables.{
  NamespaceRow, DefinitionRow, DependencyRow, ActivityRow, WorkflowRow, KeyRow, EventRow, Tables,
  find_activity, find_workflow, update_where,
}

-- A row of activity_executions: a running row has a deadline and is within its attempts, a row that
-- waits has an attempt left.
pub record IsSound (a : ActivityRow) : Type 0 where
  pub deadline : a.status ≡ ActivityStatus.running → (e : ℕ) × (a.lease_expires_at ≡ some e)
  pub attempts : a.attempt ≤ a.max_attempts
  pub spare :
      (a.status ≡ ActivityStatus.ready) ⊎ (a.status ≡ ActivityStatus.retry_pending)
      → a.attempt < a.max_attempts

pub record RowKept (a b : ActivityRow) : Type 0 where
  pub same_id : b.id ≡ a.id
  pub same_workflow : b.workflow_execution_id ≡ a.workflow_execution_id
  pub same_name : b.name ≡ a.name
  pub same_queue : b.task_queue ≡ a.task_queue
  pub same_max : b.max_attempts ≡ a.max_attempts
  pub same_created : b.created_at ≡ a.created_at
  pub token_grows : a.fencing_token ≤ b.fencing_token
  pub ended : HasEnded a.status → b.status ≡ a.status
  pub lease_lost :
      b.fencing_token ≡ a.fencing_token
      → b.status ≡ ActivityStatus.running
      → (a.status ≡ ActivityStatus.running) × (b.lease_owner ≡ a.lease_owner)
  pub sound : IsSound a → IsSound b

pub RowKept-refl : (a : ActivityRow) → RowKept a a
RowKept-refl a = record {
  same_id = refl;
  same_workflow = refl;
  same_name = refl;
  same_queue = refl;
  same_max = refl;
  same_created = refl;
  token_grows = omega arith;
  ended = λ _. refl;
  lease_lost = λ _ r. (r, refl);
  sound = λ s. s;
}

pub RowKept-trans : (a b c : ActivityRow) → RowKept a b → RowKept b c → RowKept a c
RowKept-trans a b c h k = record {
  same_id = k.same_id ∙ h.same_id;
  same_workflow = k.same_workflow ∙ h.same_workflow;
  same_name = k.same_name ∙ h.same_name;
  same_queue = k.same_queue ∙ h.same_queue;
  same_max = k.same_max ∙ h.same_max;
  same_created = k.same_created ∙ h.same_created;
  token_grows = omega (arith, h.token_grows, k.token_grows);
  ended = λ e. k.ended (rw (h.ended e) e) ∙ h.ended e;
  lease_lost = λ t r. ground (arith, h.token_grows, k.token_grows, k.lease_lost, h.lease_lost);
  sound = λ s. k.sound (h.sound s);
}

-- A row of workflow_executions keeps its identity.
pub record WorkflowRowKept (v w : WorkflowRow) : Type 0 where
  pub same_id : w.id ≡ v.id
  pub same_namespace : w.namespace_id ≡ v.namespace_id
  pub same_definition : w.definition_id ≡ v.definition_id
  pub same_created : w.created_at ≡ v.created_at

-- No two rows of activity_executions have one id: its primary key.
abbrev pub IsKeyed : List ActivityRow → Type 0
IsKeyed rows = (a : ActivityRow) → In a rows → find_activity a.id rows ≡ some a

pub record Follows (t u : Tables) : Type 0 where
  pub activity :
      (id : String) (a : ActivityRow)
      → find_activity id t.activities ≡ some a
      → (b : ActivityRow) × (find_activity id u.activities ≡ some b) × RowKept a b
  pub workflow :
      (id : String) (w : WorkflowRow)
      → find_workflow id t.workflows ≡ some w
      → (x : WorkflowRow) × (find_workflow id u.workflows ≡ some x) × WorkflowRowKept w x
  pub key :
      (test : KeyRow → Bool) (k : KeyRow) → find test t.keys ≡ some k → find test u.keys ≡ some k
  pub namespace :
      (test : NamespaceRow → Bool) (n : NamespaceRow)
      → find test t.namespaces ≡ some n
      → find test u.namespaces ≡ some n
  pub event : (new : List EventRow) × (u.events ≡ t.events ++ new)
  pub fresh :
      (id : String) (b : ActivityRow)
      → find_activity id t.activities ≡ none
      → find_activity id u.activities ≡ some b
      → IsSound b
  pub keyed : IsKeyed t.activities → IsKeyed u.activities

pub Follows-refl : (t : Tables) → Follows t t
Follows-refl t = record {
  activity = λ id a h. (a, h, RowKept-refl a);
  workflow = λ id w h. (
    w,
    h,
    record { same_id = refl; same_namespace = refl; same_definition = refl; same_created = refl },
  );
  key = λ test k h. h;
  namespace = λ test n h. h;
  event = ([], sym (append-nil t.events));
  fresh = λ id b n h. absurd (ground arith);
  keyed = λ k. k;
}

pub Follows-trans : (t u v : Tables) → Follows t u → Follows u v → Follows t v
Follows-trans t u v h k = record {
  activity = λ id a e.
      let (b, f, r) = h.activity id a e in
      let (c, g, s) = k.activity id b f in (c, g, RowKept-trans a b c r s);
  workflow = λ id w e.
      let (x, f, r) = h.workflow id w e in
      let (y, g, s) = k.workflow id x f in
      (
        y,
        g,
        record {
          same_id = s.same_id ∙ r.same_id;
          same_namespace = s.same_namespace ∙ r.same_namespace;
          same_definition = s.same_definition ∙ r.same_definition;
          same_created = s.same_created ∙ r.same_created;
        },
      );
  key = λ test x e. k.key test x (h.key test x e);
  namespace = λ test n e. k.namespace test n (h.namespace test n e);
  event =
      let (new, e) = h.event in
      let (newer, f) = k.event in
      (new ++ newer, f ∙ ap (λ l. l ++ newer) e ∙ append_assoc t.events new newer);
  fresh = λ id c n g. elim (Option-cases (find_activity id u.activities)) [
    | inl none_yet ↦ k.fresh id c none_yet g
    | inr (b, f) ↦
        let (d, e, r) = k.activity id b f in
        let same : d ≡ c = ground arith in rw same at (r.sound (h.fresh id b n f))
  ];
  keyed = λ d. k.keyed (h.keyed d);
}
