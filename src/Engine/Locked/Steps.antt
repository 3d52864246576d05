-- ===== src/Engine/Locked/Steps.antt =====
-- releaseReadyLocked and completeWorkflowIfDoneLocked run to their end by lawful steps.
use durablego.Base.{
  String, ◌≡◌, inl, inr, false, not, ltb, List, [], ◌∷◌, some, get, All, arith, Bool-cases,
}
use durablego.Types.{Workflow, WorkflowStatus, Activity, ActivityStatus, is_live, is_retry_pending}
use durablego.Board.{ids_of}
use durablego.Engine.State.{Engine, ◌>>=◌, try_gets, tick}
use durablego.Engine.Locked.{
  release_due, release_pending, release_one, release_each, release_ready,
  finish_workflow as finish_row, complete_workflow_if_done,
}
use durablego.Spec.Move.{change, release, finish_workflow}
use durablego.Spec.Dependencies.{dependencies_complete-decides, all_completed-decides}
use durablego.Spec.Invariant.{IsListed}
use durablego.Spec.Invariant.Rows.{IsListed-Later}
use durablego.Engine.Steps.{read, log, move, here, next, Steps-one}
use durablego.Engine.Steps.Valid.{EngineIsValid, Step-IsValid, Steps-IsValid, Steps-Later}
use durablego.Engine.Steps.Lawful.{Lawful, lawful, Lawful-run, Lawful-from, touch_workflow-Steps}

pub is_retry_pending→eq :
    (s : ActivityStatus) → not (is_retry_pending s) ≡ false → s ≡ ActivityStatus.retry_pending
is_retry_pending→eq s h = ground arith

pub is_live→eq : (s : WorkflowStatus) → not (is_live s) ≡ false → s ≡ WorkflowStatus.running
is_live→eq s h = ground arith

module _ (wid id : String) (a : Activity) (status : a.status ≡ ActivityStatus.retry_pending) where
  release_due-Lawful :
      (e : Engine)
      → EngineIsValid e
      → get id e.activities ≡ some a
      → Lawful e (release_due wid id a e)
  unfolding release_due
  release_due-Lawful e v h =
      let (r, er, iff) = dependencies_complete-decides e.board a (v.rows.listed a.workflow_id) in
      rw (er, ◌>>=◌, try_gets)
        (elim (Bool-cases r) [
          | inl t ↦ rw t (
              lawful (
                next (Steps-one (move (change id a _ h (release status (iff.0 t))))) (log _ _ _ _)))
          | inr f ↦ rw f (lawful here)
        ])

  release_pending-Lawful :
      (e : Engine)
      → EngineIsValid e
      → get id e.activities ≡ some a
      → Lawful e (release_pending wid id a e)
  unfolding release_pending
  release_pending-Lawful e v h = elim (Bool-cases (ltb (e.now e.reads) a.next_attempt_at)) [
    | inl t ↦ rw t (lawful (Steps-one read))
    | inr f ↦
        rw f (Lawful-from (Steps-one read) (release_due-Lawful (tick e) (Step-IsValid e read v) h))
  ]

release_one-Lawful :
    (wid id : String) (e : Engine)
    → EngineIsValid e
    → IsListed e.board wid id
    → Lawful e (release_one wid id e)
unfolding release_one
release_one-Lawful wid id e v (a, h, home) =
    rw (h, ◌>>=◌, try_gets)
      (elim (Bool-cases (not (is_retry_pending a.status))) [
        | inl t ↦ rw t (lawful here)
        | inr f ↦ rw f (release_pending-Lawful wid id a (is_retry_pending→eq a.status f) e v h)
      ])

release_each-Lawful :
    (wid : String) (ids : List String) (e : Engine)
    → EngineIsValid e
    → All (IsListed e.board wid) ids
    → Lawful e (release_each wid ids e)
unfolding release_each
release_each-Lawful wid [] e v k = lawful here
release_each-Lawful wid (id ∷ ids) e v k =
    let (_, f, r, s) = Lawful-run (release_one-Lawful wid id e v k.0) in
    rw (r, ◌>>=◌)
      (Lawful-from s (
        release_each-Lawful wid ids f (Steps-IsValid e s v)
          (IsListed-Later e.board f.board wid ids (Steps-Later e v s) k.1)))

pub release_ready-Lawful :
    (wid : String) (e : Engine) → EngineIsValid e → Lawful e (release_ready wid e)
unfolding release_ready
release_ready-Lawful wid e v = release_each-Lawful wid (ids_of e.board wid) e v (v.rows.listed wid)

finish_row-Lawful :
    (wid : String) (w : Workflow) (e : Engine)
    → EngineIsValid e
    → get wid e.workflows ≡ some w
    → w.status ≡ WorkflowStatus.running
    → Lawful e (finish_row wid w e)
unfolding finish_row
finish_row-Lawful wid w e v h live =
    let (r, er, iff) = all_completed-decides e.board wid (v.rows.listed wid) in
    rw (er, ◌>>=◌, try_gets)
      (elim (Bool-cases r) [
        | inl t ↦ rw t (
            Lawful-from (Steps-one (move (finish_workflow wid w h live (iff.0 t))))
              (Lawful-from (touch_workflow-Steps wid _) (lawful (Steps-one (log _ _ _ _)))))
        | inr f ↦ rw f (lawful here)
      ])

pub complete_workflow_if_done-Lawful :
    (wid : String) (w : Workflow) (e : Engine)
    → EngineIsValid e
    → get wid e.workflows ≡ some w
    → Lawful e (complete_workflow_if_done wid e)
unfolding complete_workflow_if_done
complete_workflow_if_done-Lawful wid w e v h =
    rw (h, ◌>>=◌, try_gets)
      (elim (Bool-cases (not (is_live w.status))) [
        | inl t ↦ rw t (lawful here)
        | inr f ↦ rw f (finish_row-Lawful wid w e v h (is_live→eq w.status f))
      ])
