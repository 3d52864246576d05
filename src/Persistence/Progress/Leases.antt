-- ===== src/Persistence/Progress/Leases.antt =====
-- With no fault, the holder of a lease is heard by the Postgres backend.
use durablego.Base.{
  ℕ, ◌<◌, String, ◌≡◌, refl, ap, ◌∙◌, inl, inr, Bool, true, Option, some, ltb, ◌&&◌, text_eq,
  text_eq_iff, arith, Bool-cases,
}
use durablego.Types.{Activity, ActivityStatus}
use durablego.Api.Backend.{good}
use durablego.Persistence.Tables.{ActivityRow, Tables, find_activity}
use durablego.Persistence.Session.{Postgres, Tx, deferring_rollback}
use durablego.Persistence.Helpers.{
  text_or_empty, scanned, lease_ahead, judged_row, found_row, selected, lock_activity,
  current_lease, update_workflows,
}
use durablego.Persistence.Lease.{
  update_activity, judged, with_lease, extend, heartbeat, finish, complete, schedule_retry,
  fail_workflow, give_up, fail,
}
use durablego.Persistence.Fencing.{HoldsLease}
use durablego.Persistence.Progress.{
  IsFaultless, Yields, IsAccepted, Yields-bind, Yields-IsAccepted, statement-Yields, begin-Yields,
  commit-Yields, statement-IsFaultless, append_event-Yields, release_ready-Yields,
  complete_workflow_if_done-Yields, yields,
}

extend-Yields :
    (id worker : String) (a : Activity) (p : Postgres)
    → IsFaultless p
    → Yields (λ _. IsFaultless) (extend id worker a p)
unfolding extend update_activity
extend-Yields id worker a p h =
    Yields-bind _ _ (statement-IsFaultless _ p h)
      (λ _ q v. Yields-bind _ _ (append_event-Yields _ _ _ _ q v) (λ _ r x. commit-Yields r x))

finish-Yields :
    (id : String) (a : Activity) (p : Postgres)
    → IsFaultless p
    → Yields (λ _. IsFaultless) (finish id a p)
unfolding finish update_activity
finish-Yields id a p h = Yields-bind _ _ (statement-IsFaultless _ p h) (λ _ q v.
    Yields-bind _ _ (append_event-Yields _ _ _ _ q v) (λ _ r x.
      Yields-bind _ _ (release_ready-Yields _ r x) (λ _ s y.
        Yields-bind _ _ (complete_workflow_if_done-Yields _ s y) (λ _ t z. commit-Yields t z))))

schedule_retry-Yields :
    (id message : String) (a : Activity) (p : Postgres)
    → IsFaultless p
    → Yields (λ _. IsFaultless) (schedule_retry id message a p)
unfolding schedule_retry update_activity
schedule_retry-Yields id message a p h =
    Yields-bind _ _ (statement-IsFaultless _ p h)
      (λ _ q v. Yields-bind _ _ (append_event-Yields _ _ _ _ q v) (λ _ r x. commit-Yields r x))

fail_workflow-Yields :
    (id message : String) (a : Activity) (p : Postgres)
    → IsFaultless p
    → Yields (λ _. IsFaultless) (fail_workflow id message a p)
unfolding fail_workflow update_activity update_workflows
fail_workflow-Yields id message a p h = Yields-bind _ _ (statement-IsFaultless _ p h) (λ _ q v.
    Yields-bind _ _ (statement-IsFaultless _ q v) (λ _ r x.
      Yields-bind _ _ (append_event-Yields _ _ _ _ r x)
        (λ _ s y. Yields-bind _ _ (append_event-Yields _ _ _ _ s y) (λ _ t z. commit-Yields t z))))

give_up-Yields :
    (id : String) (retryable : Bool) (message : String) (a : Activity) (p : Postgres)
    → IsFaultless p
    → Yields (λ _. IsFaultless) (give_up id retryable message a p)
unfolding give_up
give_up-Yields id retryable message a p h =
    elim (Bool-cases (retryable && ltb a.attempt a.max_attempts)) [
      | inl again ↦ rw again (schedule_retry-Yields id message a p h)
      | inr over ↦ rw over (fail_workflow-Yields id message a p h)
    ]

ahead : (m n : ℕ) → m < n → ltb m n ≡ true
ahead m n h = ground arith

-- A running row with a deadline ahead is handed on.
found_row-held :
    (a : ActivityRow) (p : Postgres)
    → a.status ≡ ActivityStatus.running
    → found_row (some (a, some true)) p ≡ (good (scanned a, true), p)
unfolding found_row judged_row
found_row-held a p runs = rw runs refl

-- The holder is let through.
current_lease-held :
    (worker : String) (token : ℕ) (a : ActivityRow)
    → a.status ≡ ActivityStatus.running
    → text_or_empty a.lease_owner ≡ worker
    → a.fencing_token ≡ token
    → current_lease (scanned a) worker token ≡ true
unfolding current_lease scanned
current_lease-held worker token a runs owner same =
    let eq : text_eq (text_or_empty a.lease_owner) worker ≡ true =
      ground (arith, text_eq_iff (text_or_empty a.lease_owner) worker) in
    rw (runs, eq) (ground arith)

judged-held :
    (worker : String) (token : ℕ) (typ msg : String) (act : Activity → Tx (Unit {0}))
    (a : ActivityRow)
    → current_lease (scanned a) worker token ≡ true
    → judged worker token typ msg act (scanned a, true) ≡ act (scanned a)
unfolding judged
judged-held worker token typ msg act a held = rw held refl

module _ (id worker : String) (token : ℕ) (p : Postgres) (fine : IsFaultless p)
    (holds : HoldsLease id worker token p) where
  locked :
      (q : Postgres)
      → IsFaultless q
      → q.view ≡ p.committed
      → q.started ≡ p.driver.clock p.calls
      → Yields (λ l s. IsFaultless s × (l ≡ (scanned holds.0, true))) (lock_activity id q)
  unfolding lock_activity
  locked q h view started =
      let (a, found, runs, _, _, (e, deadline, early)) = holds in
      Yields-bind _ _ (statement-Yields _ q h) (λ o s d.
        let seen : o ≡ some (a, some true) =
          d.value
          ∙ ap (λ (t : Tables). selected q.started (find_activity id t.activities)) view
          ∙ ap (selected q.started) found
          ∙ ap (λ (x : Option ℕ). some (a, lease_ahead q.started x)) deadline
          ∙ ap (λ (x : Bool). some (a, some x))
              (ahead q.started e (omega (arith, started, early))) in
        rw seen (rw (found_row-held a s runs) (yields (d.faultless, refl))))

  with_lease-IsAccepted :
      (typ msg : String) (act : Activity → Tx (Unit {0}))
      → ((a : Activity) (q : Postgres) → IsFaultless q → Yields (λ _. IsFaultless) (act a q))
      → IsAccepted (with_lease id worker token typ msg act p).0
  unfolding with_lease deferring_rollback
  with_lease-IsAccepted typ msg act k =
      let (a, found, runs, owner, same, _) = holds in
      Yields-IsAccepted {Q = λ _. IsFaultless} _ (
        Yields-bind _ _ (begin-Yields p fine) (λ _ q b.
          Yields-bind _ _ (locked q b.0 b.1 b.2) (λ l s h.
            rw
              (
                h.1,
                judged-held worker token typ msg act a
                    (current_lease-held worker token a runs owner same),
              )
              (k (scanned a) s h.0))))

-- With no fault, the holder of the live lease is heard: Heartbeat, Complete and Fail of the Postgres
-- backend return no error.
pub holders_heard :
    (id worker : String) (token : ℕ) (retryable : Bool) (message : String) (p : Postgres)
    → IsFaultless p
    → HoldsLease id worker token p
    → IsAccepted (heartbeat id worker token p).0
      × IsAccepted (complete id worker token p).0
      × IsAccepted (fail id worker token retryable message p).0
unfolding heartbeat complete fail
holders_heard id worker token retryable message p fine holds = (
  with_lease-IsAccepted id worker token p fine holds _ _ (extend id worker)
      (λ a q h. extend-Yields id worker a q h),
  with_lease-IsAccepted id worker token p fine holds _ _ (finish id)
      (λ a q h. finish-Yields id a q h),
  with_lease-IsAccepted id worker token p fine holds _ _ (give_up id retryable message)
      (λ a q h. give_up-Yields id retryable message a q h),
)
