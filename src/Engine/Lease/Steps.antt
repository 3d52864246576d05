-- ===== src/Engine/Lease/Steps.antt =====
-- Heartbeat, Complete and Fail run to their end by lawful steps.
use durablego.Base.{
  ℕ, ◌<◌, String, ◌≡◌, ◌≢◌, refl, ◌⊎◌, inl, inr, Bool, ◌&&◌, ltb, Option, none, some, get, concat,
  arith, Bool-cases, Option-cases,
}
use durablego.Types.{
  Workflow, WorkflowStatus, Activity, ActivityStatus, Err, not_found, invalid_transition, ok, err,
  is_running, activity_status_text,
}
use durablego.Engine.State.{Engine, M, ◌>>=◌, try_gets, tick}
use durablego.Engine.Locked.{current_lease, found_running, activity_locked}
use durablego.Engine.Locked.Steps.{release_ready-Lawful, complete_workflow_if_done-Lawful}
use durablego.Engine.Lease.{
  with_lease, extend as extend_lease, heartbeat, completed, finish as finish_row, complete, retried,
  failed, schedule_retry, fail_workflow, give_up, fail,
}
use durablego.Spec.Move.{Move, change, extend, finish, retry}
use durablego.Engine.Steps.{read, log, move, Steps, here, next, Steps-one, Steps-trans}
use durablego.Engine.Steps.Valid.{EngineIsValid, Step-IsValid, Steps-IsValid, Steps-Later}
use durablego.Engine.Steps.Lawful.{Lawful, lawful, Lawful-run, Lawful-from, touch_workflow-Steps}

-- What activityLocked returns: the row, if it runs, and an error otherwise.
pub activity_locked_cases :
    (id : String) (e : Engine)
    → ((get id e.activities ≡ none) × (activity_locked id e ≡ err not_found))
      ⊎ ((a : Activity) × (get id e.activities ≡ some a)
          × (((a.status ≡ ActivityStatus.running) × (activity_locked id e ≡ ok a))
              ⊎ ((a.status ≢ ActivityStatus.running)
                  × (activity_locked id e
                      ≡ err (
                          invalid_transition
                            (concat "activity is " (activity_status_text a.status)))))))
unfolding activity_locked found_running
activity_locked_cases id e = elim (Option-cases (get id e.activities)) [
  | inl h ↦ inl (h, ground arith)
  | inr (a, h) ↦ elim (Bool-cases (is_running a.status)) [
    | inl t ↦ inr (a, h, inl (ground arith, ground arith))
    | inr f ↦ inr (a, h, inr (ground arith, ground arith))
  ]
]

-- The call returned no error, and lawful steps lead to the engine that it left.
pub data Accepted (e : Engine) : Option (Option Err × Engine) → Type 0 where
  accepted : {f : Engine} → Steps e f → Accepted e (some (none, f))

pub Accepted-run :
    {e : Engine} {o : Option (Option Err × Engine)}
    → Accepted e o
    → (f : Engine) × (o ≡ some (none, f)) × Steps e f
Accepted-run (accepted {f} s) = (f, refl, s)

Accepted-from :
    {e f : Engine} {o : Option (Option Err × Engine)} → Steps e f → Accepted f o → Accepted e o
Accepted-from s (accepted t) = accepted (Steps-trans s t)

Accepted-Lawful : {e : Engine} {o : Option (Option Err × Engine)} → Accepted e o → Lawful e o
Accepted-Lawful (accepted s) = lawful s

module _ (id worker : String) (token : ℕ) (typ msg : String) (act : Activity → M (Option Err)) where
  with_lease-Lawful :
      ((a : Activity) (f : Engine)
        → EngineIsValid f
        → get id f.activities ≡ some a
        → a.status ≡ ActivityStatus.running
        → Accepted f (act a f))
      → (e : Engine) → EngineIsValid e
      → Lawful e (with_lease id worker token typ msg act e)
  unfolding with_lease
  with_lease-Lawful acts e v = elim (activity_locked_cases id e) [
    | inl (_, r) ↦ rw r (lawful here)
    | inr (a, h, inr (_, r)) ↦ rw r (lawful here)
    | inr (a, h, inl (runs, r)) ↦
        rw r (elim (Bool-cases (current_lease a worker token (e.now e.reads))) [
          | inl t ↦ rw t (
              Lawful-from (Steps-one read)
                (Accepted-Lawful (acts a (tick e) (Step-IsValid e read v) h runs)))
          | inr f ↦ rw f (lawful (next (Steps-one read) (log _ _ _ _)))
        ])
  ]

pub extend_lease-Accepted :
    (id worker : String) (a : Activity) (e : Engine)
    → get id e.activities ≡ some a
    → a.status ≡ ActivityStatus.running
    → Accepted e (extend_lease id worker a e)
unfolding extend_lease
extend_lease-Accepted id worker a e h runs =
    accepted (next (next (Steps-one read) (move (change id a _ h (extend _ runs)))) (log _ _ _ _))

pub heartbeat-Lawful :
    (id worker : String) (token : ℕ) (e : Engine)
    → EngineIsValid e
    → Lawful e (heartbeat id worker token e)
unfolding heartbeat
heartbeat-Lawful id worker token e v =
    with_lease-Lawful id worker token _ _ (extend_lease id worker)
      (λ a f _ h runs. extend_lease-Accepted id worker a f h runs) e v

pub finish_row-Accepted :
    (id : String) (a : Activity) (e : Engine)
    → EngineIsValid e
    → get id e.activities ≡ some a
    → a.status ≡ ActivityStatus.running
    → Accepted e (finish_row id a e)
unfolding finish_row completed
finish_row-Accepted id a e v h runs =
    let first : Steps e _ =
      next (next (Steps-one read) (move (change id a _ h (finish (e.now e.reads) runs))))
        (log a.workflow_id a.id "activity.completed" (concat a.name " completed")) in
    let (_, g, r, s) =
      Lawful-run (release_ready-Lawful a.workflow_id _ (Steps-IsValid e first v)) in
    let so_far : Steps e g = Steps-trans first s in
    let (w, ew, _) = v.rows.home id a h in
    let (w', ew', _) = (Steps-Later e v so_far).workflow a.workflow_id w ew in
    let (_, g', r', s') =
      Lawful-run
        (complete_workflow_if_done-Lawful a.workflow_id w' g (Steps-IsValid e so_far v) ew') in
    rw (r, ◌>>=◌) (rw (r', ◌>>=◌) (accepted (Steps-trans so_far s')))

pub complete-Lawful :
    (id worker : String) (token : ℕ) (e : Engine)
    → EngineIsValid e
    → Lawful e (complete id worker token e)
unfolding complete
complete-Lawful id worker token e v =
    with_lease-Lawful id worker token _ _ (finish_row id) (finish_row-Accepted id) e v

-- The workflow of a running activity is not completed.
pub running-ne-completed :
    (e : Engine) (id : String) (a : Activity) (w : Workflow)
    → EngineIsValid e
    → get id e.activities ≡ some a
    → a.status ≡ ActivityStatus.running
    → get a.workflow_id e.workflows ≡ some w
    → w.status ≢ WorkflowStatus.completed
running-ne-completed e id a w v h runs ew done =
    let d : a.status ≡ ActivityStatus.completed = v.rows.done a.workflow_id w ew done id a h refl in
    absurd (ground arith)

pub fail_workflow-Accepted :
    (id message : String) (a : Activity) (e : Engine)
    → EngineIsValid e
    → get id e.activities ≡ some a
    → a.status ≡ ActivityStatus.running
    → Accepted e (fail_workflow id message a e)
unfolding fail_workflow failed
fail_workflow-Accepted id message a e v h runs =
    let (w, ew, _) = v.rows.home id a h in
    rw (ew, ◌>>=◌, try_gets)
      (Accepted-from
        (Steps-one
          (move (Move.fail id message a w h runs ew (running-ne-completed e id a w v h runs ew))))
        (Accepted-from (touch_workflow-Steps a.workflow_id _)
          (accepted (next (Steps-one (log _ _ _ _)) (log _ _ _ _)))))

pub schedule_retry-Accepted :
    (id message : String) (a : Activity) (e : Engine)
    → get id e.activities ≡ some a
    → a.status ≡ ActivityStatus.running
    → a.attempt < a.max_attempts
    → Accepted e (schedule_retry id message a e)
unfolding schedule_retry retried
schedule_retry-Accepted id message a e h runs room = accepted (
    next (next (Steps-one read) (move (change id a _ h (retry message _ runs room)))) (log _ _ _ _))

pub give_up-Accepted :
    (id : String) (retryable : Bool) (message : String) (a : Activity) (e : Engine)
    → EngineIsValid e
    → get id e.activities ≡ some a
    → a.status ≡ ActivityStatus.running
    → Accepted e (give_up id retryable message a e)
unfolding give_up
give_up-Accepted id retryable message a e v h runs =
    elim (Bool-cases (retryable && ltb a.attempt a.max_attempts)) [
      | inl t ↦ rw t (schedule_retry-Accepted id message a e h runs (ground arith))
      | inr f ↦ rw f (fail_workflow-Accepted id message a e v h runs)
    ]

pub fail-Lawful :
    (id worker : String) (token : ℕ) (retryable : Bool) (message : String) (e : Engine)
    → EngineIsValid e
    → Lawful e (fail id worker token retryable message e)
unfolding fail
fail-Lawful id worker token retryable message e v =
    with_lease-Lawful id worker token _ _ (give_up id retryable message)
      (give_up-Accepted id retryable message) e v
