-- ===== src/Engine/Sweep/Steps.antt =====
-- RunSchedulerPass runs to its end by lawful steps.
use durablego.Base.{
  ℕ, suc, String, ◌≡◌, inl, inr, true, ltb, ◌==◌, if◌then◌else◌, List, [], ◌∷◌, some, get, All,
  All-map, arith, Bool-cases,
}
use durablego.Types.{Activity, ActivityStatus}
use durablego.Engine.State.{Engine, ◌>>=◌, try_gets, tick}
use durablego.Engine.Sweep.{
  lease_over, retry_due, expire_failed, expire as expire_row, wake_if_complete, sweep_row,
  sweep_each, run_scheduler_pass,
}
use durablego.Engine.Lease.Steps.{running-ne-completed}
use durablego.Engine.Claim.{sorted_activity_ids}
use durablego.Engine.Claim.Steps.{IsRow, sorted_activity_ids-All}
use durablego.Spec.Move.{Move, change, expire, release}
use durablego.Spec.Later.{Later}
use durablego.Spec.Dependencies.{dependencies_complete-decides}
use durablego.Engine.Steps.{read, log, move, here, next, Steps-one}
use durablego.Engine.Steps.Valid.{EngineIsValid, Step-IsValid, Steps-IsValid, Steps-Later}
use durablego.Engine.Steps.Lawful.{Lawful, lawful, Lawful-run, Lawful-from}

pub lease_over→running :
    (now : ℕ) (a : Activity) → lease_over now a ≡ true → a.status ≡ ActivityStatus.running
unfolding lease_over
lease_over→running now a h = ground arith

pub retry_due→waiting :
    (now : ℕ) (a : Activity) → retry_due now a ≡ true → a.status ≡ ActivityStatus.retry_pending
unfolding retry_due
retry_due→waiting now a h = ground arith

module _ (id : String) (a : Activity) (e : Engine) (v : EngineIsValid e)
    (h : get id e.activities ≡ some a) where
  expire_failed-Lawful : a.status ≡ ActivityStatus.running → Lawful e (expire_failed id a e)
  unfolding expire_failed
  expire_failed-Lawful runs =
      let (w, ew, _) = v.rows.home id a h in
      rw (ew, ◌>>=◌, try_gets)
        (Lawful-from
          (Steps-one (
            move (
              Move.fail id a.last_error a w h runs ew (running-ne-completed e id a w v h runs ew))))
          (lawful (Steps-one (log _ _ _ _))))

  expire_row-Lawful : a.status ≡ ActivityStatus.running → Lawful e (expire_row id a e)
  unfolding expire_row
  expire_row-Lawful runs = elim (Bool-cases (ltb a.attempt a.max_attempts)) [
    | inl t ↦ rw t (
        lawful
          (next (Steps-one (move (change id a _ h (expire runs (ground arith))))) (log _ _ _ _)))
    | inr f ↦ rw f (expire_failed-Lawful runs)
  ]

  wake_if_complete-Lawful :
      a.status ≡ ActivityStatus.retry_pending → Lawful e (wake_if_complete id a e)
  unfolding wake_if_complete
  wake_if_complete-Lawful waits =
      let (r, er, iff) = dependencies_complete-decides e.board a (v.rows.listed a.workflow_id) in
      rw (er, ◌>>=◌, try_gets)
        (elim (Bool-cases r) [
          | inl t ↦ rw t (
              lawful
                (next (Steps-one (move (change id a _ h (release waits (iff.0 t))))) (log _ _ _ _)))
          | inr f ↦ rw f (lawful here)
        ])

  sweep_row-Lawful : (now : ℕ) → Lawful e (sweep_row now id a e)
  unfolding sweep_row
  sweep_row-Lawful now = elim (Bool-cases (lease_over now a)) [
    | inl over ↦
        let (_, f, r, s) = Lawful-run (expire_row-Lawful (lease_over→running now a over)) in
        rw over (rw (r, ◌>>=◌) (lawful s))
    | inr held ↦ rw held (elim (Bool-cases (retry_due now a)) [
      | inl due ↦ rw due (wake_if_complete-Lawful (retry_due→waiting now a due))
      | inr early ↦ rw early (lawful here)
    ])
  ]

pub rows-Later :
    (e f : Engine) (ids : List String)
    → Later e.board f.board
    → All (IsRow e) ids
    → All (IsRow f) ids
rows-Later e f ids l = All-map ids λ id (a, h). let (a', h', _) = l.activity id a h in (a', h')

sweep_each-Lawful :
    (now : ℕ) (ids : List String) (changed : ℕ) (e : Engine)
    → EngineIsValid e
    → All (IsRow e) ids
    → Lawful e (sweep_each now ids changed e)
unfolding sweep_each
sweep_each-Lawful now [] changed e v k = lawful here
sweep_each-Lawful now (id ∷ ids) changed e v ((a, h), k) =
    let (n, f, r, s) = Lawful-run (sweep_row-Lawful id a e v h now) in
    rw (h, ◌>>=◌, try_gets)
      (rw (r, ◌>>=◌)
        (Lawful-from s (
          sweep_each-Lawful now ids (if n == 0 then changed else suc changed) f
            (Steps-IsValid e s v) (rows-Later e f ids (Steps-Later e v s) k))))

pub run_scheduler_pass-Lawful : (e : Engine) → EngineIsValid e → Lawful e (run_scheduler_pass e)
unfolding run_scheduler_pass
run_scheduler_pass-Lawful e v = Lawful-from (Steps-one read) (
    sweep_each-Lawful (e.now e.reads) (sorted_activity_ids (tick e)) 0 (tick e)
      (Step-IsValid e read v) (sorted_activity_ids-All (tick e)))
