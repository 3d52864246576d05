-- ===== src/Examples/Starts.antt =====
-- The theorems on Start and on whole histories, at runs of the sample workflow.
use durablego.Base.{
  ◌+◌, String, ◌≡◌, refl, ◌⊎◌, inl, inr, true, false, [], ◌∷◌, none, some, pos, get,
}
use durablego.Types.{
  WorkflowDefinition, Workflow, Activity, ActivityStatus, WorkflowStatus, invalid_transition, ok,
}
use durablego.Board.{workflow_id_of, dependencies_complete}
use durablego.Engine.State.{Engine, new}
use durablego.Engine.Start.{start, lacks_required, validate}
use durablego.Engine.History.{starts, claims, run}
use durablego.Engine.History.Safety.{run-new-IsValid, run-Later}
use durablego.Engine.History.Log.{Extends, run-Extends}
use durablego.Engine.Steps.Valid.{EngineIsValid}
use durablego.Engine.Start.Validation.{IsWellFormed, validate_cases}
use durablego.Engine.Start.Idempotence.{start_creates, idempotent_start, start_collides}
use durablego.Spec.Move.{DepsDone}
use durablego.Spec.Later.{Later}
use durablego.Spec.Dependencies.{Decides, dependencies_complete-decides}
use durablego.Examples.{
  validate_step, order, fresh, fresh-IsValid, after, after-IsValid, begun, reclaimed, started,
  evaluated,
}

run-new-IsValid_example :
    (e : Engine) × (run reclaimed (new (λ k. 1000 + k) (pos 5) (pos 3)) ≡ some e) × EngineIsValid e
run-new-IsValid_example = run-new-IsValid (λ k. 1000 + k) (pos 5) (pos 3) reclaimed

abbrev stored_order : Workflow
stored_order = record {
  id = "wf_000001";
  namespace = "shop";
  name = "order";
  status = WorkflowStatus.running;
  idempotency_key = "k";
  created_at = 1000;
  updated_at = 1000;
}

start_returned : start order "k" fresh ≡ some (ok (stored_order, false), started)
unfolding evaluated
start_returned = refl

begins : run (claims "a" "default" ∷ []) started ≡ some (after begun)
unfolding evaluated
begins = refl

complete_order : lacks_required order ≡ false
unfolding evaluated
complete_order = refl

idempotent_start_example :
    (w : Workflow) × (start order "k" (after begun) ≡ some (ok (w, true), after begun))
    × (w.id ≡ "wf_000001")
idempotent_start_example =
    idempotent_start order order "k" stored_order false (claims "a" "default" ∷ []) fresh started
      (after begun) fresh-IsValid refl start_returned begins complete_order refl

validate_cases_example :
    (IsWellFormed order × (validate order ≡ none))
    ⊎ (¬ IsWellFormed order × ((why : String) × (validate order ≡ some (invalid_transition why))))
validate_cases_example = validate_cases order

order-IsWellFormed : IsWellFormed order
order-IsWellFormed = (
  (
    λ e. absurd (cc),
    λ m. m,
    (λ e. absurd (cc), λ m. elim m [ inl e ↦ absurd (cc) | inr n ↦ n ], tt),
  ),
  (tt, ((inr (inl refl), tt), tt)),
)

start_creates_example :
    (w : Workflow) × (e : Engine) × (start order "k" fresh ≡ some (ok (w, false), e))
    × (get w.id fresh.workflows ≡ none)
    × (get w.id e.workflows ≡ some w)
    × (w.id ≡ workflow_id_of 1)
    × (w.namespace ≡ "shop")
    × (w.name ≡ "order")
    × (w.idempotency_key ≡ "k")
    × (w.created_at ≡ 1000)
unfolding evaluated
start_creates_example =
    start_creates order "k" fresh fresh-IsValid complete_order order-IsWellFormed refl

abbrev twice : WorkflowDefinition
twice = record {
  name = "order";
  namespace = "shop";
  activities = validate_step ∷ validate_step ∷ [];
}

-- A namespace with a NUL in it.
abbrev nul_order : WorkflowDefinition
nul_order = record { name = "order"; namespace = "a\0b"; activities = validate_step ∷ [] }

abbrev plain_order : WorkflowDefinition
plain_order = record { name = "order"; namespace = "a"; activities = validate_step ∷ [] }

abbrev nul_started : Engine
nul_started = after (starts nul_order "k" ∷ [])

abbrev nul_stored : Workflow
nul_stored = record {
  id = "wf_000001";
  namespace = "a\0b";
  name = "order";
  status = WorkflowStatus.running;
  idempotency_key = "k";
  created_at = 1000;
  updated_at = 1000;
}

nul_start_returned : start nul_order "k" fresh ≡ some (ok (nul_stored, false), nul_started)
unfolding evaluated
nul_start_returned = refl

complete_plain_order : lacks_required plain_order ≡ false
unfolding evaluated
complete_plain_order = refl

start_collides_example :
    (w : Workflow) × (start plain_order "b\0k" nul_started ≡ some (ok (w, true), nul_started))
    × (w.id ≡ "wf_000001")
start_collides_example =
    start_collides nul_order plain_order "a" "b" "k" nul_stored false fresh nul_started
      fresh-IsValid refl refl refl refl complete_plain_order nul_start_returned

run-Later_example : Later started.board (after begun).board
run-Later_example =
    run-Later (claims "a" "default" ∷ []) started (after begun)
      (after-IsValid (starts order "k" ∷ [])) begins

run-Extends_example : Extends "wf_000001" started (after begun)
run-Extends_example =
    run-Extends (claims "a" "default" ∷ []) started (after begun) "wf_000001"
      (after-IsValid (starts order "k" ∷ [])) begins

abbrev payment_row : Activity
payment_row = record {
  id = "act_000002";
  workflow_id = "wf_000001";
  name = "payment";
  task_queue = "default";
  status = ActivityStatus.retry_pending;
  attempt = 0;
  max_attempts = 3;
  lease_owner = "";
  lease_expires_at = 0;
  fencing_token = 0;
  next_attempt_at = 0;
  depends_on = "validate" ∷ [];
  last_error = "";
  completed_at = 0;
  retry_backoff = 5;
  application_key = "wf_000001:payment";
  side_effect_count = 0;
}

dependencies_complete-decides_example :
    Decides (dependencies_complete payment_row started.board) (DepsDone started.board payment_row)
dependencies_complete-decides_example =
    dependencies_complete-decides started.board payment_row
      ((after-IsValid (starts order "k" ∷ [])).rows.listed "wf_000001")
