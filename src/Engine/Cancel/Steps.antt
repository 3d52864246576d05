-- ===== src/Engine/Cancel/Steps.antt =====
-- Cancel runs to its end by lawful steps.
use durablego.Base.{
  String, ◌≡◌, ◌⊎◌, inl, inr, true, not, ◌||◌, List, [], ◌∷◌, some, get, All, arith, Bool-cases,
  Option-cases,
}
use durablego.Types.{
  Workflow, WorkflowStatus, Activity, ActivityStatus, is_live, is_ready, is_retry_pending,
}
use durablego.Board.{ids_of}
use durablego.Engine.State.{Engine, ◌>>=◌, try_gets}
use durablego.Engine.Cancel.{cancel_row, cancel_each, cancel_running, cancel as cancel_call}
use durablego.Engine.Locked.Steps.{is_live→eq}
use durablego.Spec.Move.{change, cancel, cancel_workflow}
use durablego.Spec.Invariant.{IsListed}
use durablego.Spec.Invariant.Rows.{IsListed-Later}
use durablego.Engine.Steps.{read, log, move, Steps, here, next, Steps-one, Steps-trans}
use durablego.Engine.Steps.Valid.{EngineIsValid, Steps-IsValid, Steps-Later}
use durablego.Engine.Steps.Lawful.{Lawful, lawful, Lawful-run, Lawful-from}

pub waits→eq :
    (s : ActivityStatus)
    → (is_ready s || is_retry_pending s) ≡ true
    → (s ≡ ActivityStatus.ready) ⊎ (s ≡ ActivityStatus.retry_pending)
waits→eq s h = ground arith

cancel_row-Lawful :
    (wid id : String) (a : Activity) (e : Engine)
    → get id e.activities ≡ some a
    → Lawful e (cancel_row wid id a e)
unfolding cancel_row
cancel_row-Lawful wid id a e h =
    elim (Bool-cases (is_ready a.status || is_retry_pending a.status)) [
      | inl t ↦ rw t (
          lawful (
            next (Steps-one (move (change id a _ h (cancel (waits→eq a.status t))))) (log _ _ _ _)))
      | inr f ↦ rw f (lawful here)
    ]

cancel_each-Lawful :
    (wid : String) (ids : List String) (e : Engine)
    → EngineIsValid e
    → All (IsListed e.board wid) ids
    → Lawful e (cancel_each wid ids e)
unfolding cancel_each
cancel_each-Lawful wid [] e v k = lawful here
cancel_each-Lawful wid (id ∷ ids) e v ((a, h, _), k) =
    let (_, f, r, s) = Lawful-run (cancel_row-Lawful wid id a e h) in
    rw (h, ◌>>=◌, try_gets)
      (rw (r, ◌>>=◌)
        (Lawful-from s (
          cancel_each-Lawful wid ids f (Steps-IsValid e s v)
            (IsListed-Later e.board f.board wid ids (Steps-Later e v s) k))))

cancel_running-Lawful :
    (wid : String) (w : Workflow) (e : Engine)
    → EngineIsValid e
    → get wid e.workflows ≡ some w
    → w.status ≡ WorkflowStatus.running
    → Lawful e (cancel_running wid w e)
unfolding cancel_running
cancel_running-Lawful wid w e v h live =
    let first : Steps e _ =
      next (Steps-one read) (move (cancel_workflow wid w (e.now e.reads) h live)) in
    let (_, f, r, s) = Lawful-run (
      cancel_each-Lawful wid (ids_of e.board wid) _ (Steps-IsValid e first v)
        ((Steps-IsValid e first v).rows.listed wid)) in
    rw (r, ◌>>=◌) (lawful (Steps-trans first (next s (log wid "" _ _))))

pub cancel-Lawful : (wid : String) (e : Engine) → EngineIsValid e → Lawful e (cancel_call wid e)
unfolding cancel_call
cancel-Lawful wid e v = elim (Option-cases (get wid e.workflows)) [
  | inl h ↦ rw h (lawful here)
  | inr (w, h) ↦ rw h (elim (Bool-cases (not (is_live w.status))) [
    | inl t ↦ rw t (lawful here)
    | inr f ↦ rw f (cancel_running-Lawful wid w e v h (is_live→eq w.status f))
  ])
]
