-- ===== src/Spec/Later.antt =====
-- What no later move takes back: a row keeps its identity, its token never falls, an activity that
-- has ended stays as it ended, and a lease that was lost does not come back under its token.
use durablego.Base.{◌≤◌, String, ◌≡◌, ◌⊎◌, some, get, arith}
use durablego.Types.{Workflow, WorkflowStatus, Activity, ActivityStatus}
use durablego.Board.{Board}

-- Completed, failed or cancelled.
abbrev pub HasEnded : ActivityStatus → Type 0
HasEnded s =
    (s ≡ ActivityStatus.completed) ⊎ (s ≡ ActivityStatus.failed) ⊎ (s ≡ ActivityStatus.cancelled)

pub record Kept (a a' : Activity) : Type 0 where
  pub same_id : a'.id ≡ a.id
  pub same_workflow : a'.workflow_id ≡ a.workflow_id
  pub same_name : a'.name ≡ a.name
  pub same_queue : a'.task_queue ≡ a.task_queue
  pub same_deps : a'.depends_on ≡ a.depends_on
  pub same_max : a'.max_attempts ≡ a.max_attempts
  pub token_grows : a.fencing_token ≤ a'.fencing_token
  pub ended : HasEnded a.status → a'.status ≡ a.status
  pub lease_lost :
      a'.fencing_token ≡ a.fencing_token
      → a'.status ≡ ActivityStatus.running
      → (a.status ≡ ActivityStatus.running) × (a'.lease_owner ≡ a.lease_owner)

pub record KeptWorkflow (w w' : Workflow) : Type 0 where
  pub same_id : w'.id ≡ w.id
  pub same_namespace : w'.namespace ≡ w.namespace
  pub same_name : w'.name ≡ w.name
  pub same_key : w'.idempotency_key ≡ w.idempotency_key
  pub same_created : w'.created_at ≡ w.created_at
  pub completed_stays : w.status ≡ WorkflowStatus.completed → w'.status ≡ WorkflowStatus.completed
  pub failed_stays : w.status ≡ WorkflowStatus.failed → w'.status ≡ WorkflowStatus.failed
  pub cancelled_stays_or_fails :
      w.status ≡ WorkflowStatus.cancelled
      → (w'.status ≡ WorkflowStatus.cancelled) ⊎ (w'.status ≡ WorkflowStatus.failed)

pub record Later (b b' : Board) : Type 0 where
  pub activity :
      (id : String) (a : Activity)
      → get id b.activities ≡ some a
      → (a' : Activity) × (get id b'.activities ≡ some a') × Kept a a'
  pub workflow :
      (id : String) (w : Workflow)
      → get id b.workflows ≡ some w
      → (w' : Workflow) × (get id b'.workflows ≡ some w') × KeptWorkflow w w'

pub Kept-refl : (a : Activity) → Kept a a
Kept-refl a = ground arith

pub Kept-trans : (a b c : Activity) → Kept a b → Kept b c → Kept a c
Kept-trans a b c h k = ground arith

pub KeptWorkflow-refl : (w : Workflow) → KeptWorkflow w w
KeptWorkflow-refl w = ground arith

pub KeptWorkflow-trans : (u v w : Workflow) → KeptWorkflow u v → KeptWorkflow v w → KeptWorkflow u w
KeptWorkflow-trans u v w h k = ground arith

pub Later-refl : (b : Board) → Later b b
Later-refl b = record {
  activity = λ id a e. (a, e, Kept-refl a);
  workflow = λ id w e. (w, e, KeptWorkflow-refl w);
}

pub Later-trans : (b c d : Board) → Later b c → Later c d → Later b d
Later-trans b c d h k = record {
  activity = λ id a e.
      let (a', e', p) = h.activity id a e in
      let (a'', e'', q) = k.activity id a' e' in (a'', e'', Kept-trans a a' a'' p q);
  workflow = λ id w e.
      let (w', e', p) = h.workflow id w e in
      let (w'', e'', q) = k.workflow id w' e' in (w'', e'', KeptWorkflow-trans w w' w'' p q);
}
