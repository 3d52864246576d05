-- ===== src/Engine/Start/Rows.antt =====
-- The rows that Start of internal/execution/engine.go makes, one lawful step for each.
use durablego.Base.{
  ℕ, suc, ◌<◌, String, ◌≡◌, refl, ◌⊎◌, inl, inr, false, List, [], ◌∷◌, none, some, get, text_eq,
  arith, Bool-cases, put-Forall, positive_or_pos,
}
use durablego.Types.{Workflow, WorkflowStatus, ActivityDefinition, Activity, ActivityStatus}
use durablego.Engine.State.{Engine, append_event}
use durablego.Engine.Start.{
  idem_key, initial_status, new_row, add_row, schedule, schedule_all, remember as remember_key,
}
use durablego.Spec.Move.{NotBegun, NewRow, open_activity}
use durablego.Engine.Steps.{log, move, remember, Steps, here, next, Steps-one, Steps-trans}
use durablego.Engine.Steps.Valid.{EngineIsValid}

-- No activity of the workflow has begun.
abbrev pub IsWaiting : String → Engine → Type 0
IsWaiting wid e =
    (id : String) (a : Activity) → get id e.activities ≡ some a → a.workflow_id ≡ wid → NotBegun a

initial_status_cases :
    (deps : List String)
    → (initial_status deps ≡ ActivityStatus.retry_pending)
      ⊎ ((initial_status deps ≡ ActivityStatus.ready) × (deps ≡ []))
unfolding initial_status
initial_status_cases [] = inr (refl, refl)
initial_status_cases (x ∷ xs) = inl refl

module _ (now : ℕ) (wid : String) (w : Workflow) (live : w.status ≡ WorkflowStatus.running) where
  new_row-NewRow :
      (d : ActivityDefinition) (e : Engine)
      → 0 < e.max_attempts
      → NewRow e.board wid (new_row e.max_attempts now (suc e.next_activity) wid d)
  unfolding new_row
  new_row-NewRow d e pos = record {
    named = refl;
    home = refl;
    attempt_zero = refl;
    token_zero = refl;
    room = positive_or_pos d.max_attempts e.max_attempts pos;
    waits = initial_status_cases d.depends_on;
  }

  schedule-Steps :
      (d : ActivityDefinition) (e : Engine)
      → 0 < e.max_attempts
      → get wid e.workflows ≡ some w
      → IsWaiting wid e
      → Steps e (schedule now wid d e)
  unfolding schedule
  schedule-Steps d e pos h q =
      next (Steps-one (move (open_activity wid w _ h live (new_row-NewRow d e pos) q)))
        (log _ _ _ _)

  schedule-IsWaiting :
      (d : ActivityDefinition) (e : Engine) → IsWaiting wid e → IsWaiting wid (schedule now wid d e)
  unfolding schedule add_row append_event new_row
  schedule-IsWaiting d e q =
      put-Forall (λ _ a. a.workflow_id ≡ wid → NotBegun a) _ _ e.activities
        (λ _. elim (initial_status_cases d.depends_on) [ inl r ↦ inl r | inr (_, n) ↦ inr n ]) q

  schedule-workflows :
      (d : ActivityDefinition) (e : Engine) → (schedule now wid d e).workflows ≡ e.workflows
  unfolding schedule add_row append_event
  schedule-workflows d e = refl

  schedule-max_attempts :
      (d : ActivityDefinition) (e : Engine) → (schedule now wid d e).max_attempts ≡ e.max_attempts
  unfolding schedule append_event
  schedule-max_attempts d e = refl

  pub schedule_all-Steps :
      (ds : List ActivityDefinition) (e : Engine)
      → 0 < e.max_attempts
      → get wid e.workflows ≡ some w
      → IsWaiting wid e
      → Steps e (schedule_all now wid ds e)
  unfolding schedule_all
  schedule_all-Steps [] e pos h q = here
  schedule_all-Steps (d ∷ ds) e pos h q = Steps-trans (schedule-Steps d e pos h q) (
      schedule_all-Steps ds (schedule now wid d e) (rw (schedule-max_attempts d e) pos)
        (rw (schedule-workflows d e) h) (schedule-IsWaiting d e q))

pub remember_key-Steps :
    (namespace key wid : String) (w : Workflow) (e : Engine)
    → get wid e.workflows ≡ some w
    → w.namespace ≡ namespace
    → w.idempotency_key ≡ key
    → (text_eq key "" ≡ false → get (idem_key namespace key) e.idempotency ≡ none)
    → Steps e (remember_key namespace key wid e)
unfolding remember_key
remember_key-Steps namespace key wid w e h hn hk new = elim (Bool-cases (text_eq key "")) [
  | inl t ↦ rw t here
  | inr f ↦ rw f (rw (← hn, ← hk) (Steps-one (remember wid w h (rw (hn, hk) (new f)))))
]

pub remember_key-board :
    (namespace key wid : String) (e : Engine) → (remember_key namespace key wid e).board ≡ e.board
unfolding remember_key
remember_key-board namespace key wid e = ground arith

pub remember_key-max_attempts :
    (namespace key wid : String) (e : Engine)
    → (remember_key namespace key wid e).max_attempts ≡ e.max_attempts
unfolding remember_key
remember_key-max_attempts namespace key wid e = ground arith

pub append_event-board :
    (wid aid typ msg : String) (e : Engine) → (append_event wid aid typ msg e).board ≡ e.board
unfolding append_event
append_event-board wid aid typ msg e = refl

pub append_event-max_attempts :
    (wid aid typ msg : String) (e : Engine)
    → (append_event wid aid typ msg e).max_attempts ≡ e.max_attempts
unfolding append_event
append_event-max_attempts wid aid typ msg e = refl

-- No activity belongs to a workflow that is not there.
pub no_rows :
    (wid : String) (e : Engine) → EngineIsValid e → get wid e.workflows ≡ none → IsWaiting wid e
no_rows wid e v h id a ea home =
    let (w, ew, _) = v.rows.home id a ea in
    let ew' : get wid e.workflows ≡ some w = rw home at ew in absurd (ground arith)
