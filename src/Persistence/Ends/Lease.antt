-- ===== src/Persistence/Ends/Lease.antt =====
-- Heartbeat, Complete and Fail commit only what `Follows` allows, or the event of a rejection, or nothing.
use durablego.Base.{
  ℕ, ◌<◌, String, ◌≡◌, refl, ap, ◌∙◌, ◌⊎◌, inl, inr, Bool, true, not, ◌&&◌, ◌||◌, ℤ, ltb, arith,
  Bool-cases, Option-cases, mul_int64,
}
use durablego.Types.{Activity, WorkflowStatus}
use durablego.Persistence.Tables.{ActivityRow, Tables}
use durablego.Persistence.Session.{
  commit_met, Postgres, Tx, follow, statement, commit, attempt, deferring_rollback, driver_call,
  met,
}
use durablego.Persistence.Helpers.{scanned, append_event, current_lease}
use durablego.Persistence.Lease.{
  update_activity, reject, judged, with_lease, extended, extend, heartbeat, completed, finish,
  complete, retried, schedule_retry, failed, fail_workflow, is_workflow, give_up, fail,
}
use durablego.Persistence.Follows.{IsKeyed, RowKept}
use durablego.Persistence.RowChanges.{
  extended-RowKept, completed-RowKept, retried-RowKept, failed-RowKept,
}
use durablego.Persistence.Ends.{
  Within, Committed, Ends, EndsIf, outdated, Ends-bind, begin-Ends, rolled_back-Ends,
}
use durablego.Persistence.Ends.Helpers.{
  append_event-Ends, Locked, lock_activity-Ends, release_ready-Ends, update_workflows-Ends,
  complete_workflow_if_done-Ends,
}
use durablego.Persistence.Ends.Rows.{
  commits, update_activity-Ends, append_event-Within, commit-Committed, forgotten,
}

append_event-leaves :
    (wid aid typ msg : String) (p : Postgres)
    → ((append_event wid aid typ msg p).1.view.activities ≡ p.view.activities)
      × ((append_event wid aid typ msg p).1.view.workflows ≡ p.view.workflows)
      × ((append_event wid aid typ msg p).1.committed ≡ p.committed)
unfolding append_event statement driver_call met
append_event-leaves wid aid typ msg p = elim (Option-cases (p.driver.fault p.calls)) [
  | inl fine ↦ rw fine (refl, refl, refl)
  | inr (text, e) ↦ rw e (refl, refl, refl)
]

-- What is committed is what it was, or what the transaction saw.
commit-commits :
    (p : Postgres) → ((commit p).1.committed ≡ p.committed) ⊎ ((commit p).1.committed ≡ p.view)
unfolding commit commit_met
commit-commits p = elim (Option-cases (p.driver.fault p.calls)) [
  | inl fine ↦ rw fine (inr refl)
  | inr (text, e) ↦ elim (Bool-cases (p.driver.lands p.calls)) [
    | inl landed ↦ rw (e, landed) (inr refl)
    | inr lost ↦ rw (e, lost) (inl refl)
  ]
]

commit-leaves :
    {c : Tables} (p : Postgres)
    → p.committed ≡ c
    → p.view.activities ≡ c.activities
    → p.view.workflows ≡ c.workflows
    → ((commit p).1.committed.activities ≡ c.activities)
      × ((commit p).1.committed.workflows ≡ c.workflows)
commit-leaves p h a w = elim (commit-commits p) [
  | inl same ↦
      (ap (λ (t : Tables). t.activities) (same ∙ h), ap (λ (t : Tables). t.workflows) (same ∙ h))
  | inr view ↦
      (ap (λ (t : Tables). t.activities) view ∙ a, ap (λ (t : Tables). t.workflows) view ∙ w)
]

-- The rejection commits at most its event.
pub reject-Ends :
    {may : Type 0} {c : Tables} {Q : Unit {0} → Postgres → Type 0} (a : Activity) (typ msg : String)
    (p : Postgres)
    → Within c p
    → p.view ≡ c
    → EndsIf may c Q (reject a typ msg p)
unfolding reject attempt follow
reject-Ends a typ msg p w same =
    let (acts, flows, base) = append_event-leaves a.workflow_id a.id typ msg p in
    let (x, y) =
      commit-leaves (append_event a.workflow_id a.id typ msg p).1 (base ∙ w.base)
        (acts ∙ ap (λ (t : Tables). t.activities) same)
        (flows ∙ ap (λ (t : Tables). t.workflows) same) in
    outdated (commit-Committed _ (append_event-Within a.workflow_id a.id typ msg p w)) x y

-- The caller's id and token are those of the row, and its deadline lies ahead.
abbrev pub IsHeld : String → ℕ → Activity × Bool → Type 0
IsHeld worker token r = (current_lease r.0 worker token ≡ true) × (r.1 ≡ true)

judged-Ends :
    {may : Type 0} {c : Tables} {now : ℕ} {Q : Unit {0} → Postgres → Type 0} (id worker : String)
    (token : ℕ) (typ msg : String) (act : Activity → Tx (Unit {0})) (r : Activity × Bool)
    (p : Postgres)
    → Locked c now id r p
    → (Locked c now id r p → IsHeld worker token r → EndsIf may c Q (act r.0 p))
    → EndsIf may c Q (judged worker token typ msg act r p)
unfolding judged
judged-Ends id worker token typ msg act (a, live) p l h =
    elim (Bool-cases (not (current_lease a worker token) || not live)) [
      | inl stale ↦ rw stale (reject-Ends a typ msg p l.within l.view)
      | inr held ↦ rw held (h l (ground arith, ground arith))
    ]

-- A lease call ends as its own work does for the holder, or with an error.
pub with_lease-Ends :
    {may : Type 0} {Q Q' : Unit {0} → Postgres → Type 0} (id worker : String) (token : ℕ)
    (typ msg : String) (act : Activity → Tx (Unit {0})) (p : Postgres)
    → 0 < p.max_attempts
    → IsKeyed p.committed.activities
    → ((u : Unit {0}) (q : Postgres) → Q u q → Q' u (record q { view = q.committed }))
    → ((r : Activity × Bool) (q : Postgres)
        → Locked p.committed (p.driver.clock p.calls) id r q
        → IsHeld worker token r
        → EndsIf may p.committed Q (act r.0 q))
    → EndsIf may p.committed Q' (with_lease id worker token typ msg act p)
unfolding with_lease deferring_rollback
with_lease-Ends id worker token typ msg act p m k f h =
    rolled_back-Ends _
      (Ends-bind _ _ (begin-Ends p m k) (λ _ q b.
        Ends-bind _ _ (lock_activity-Ends id q b.within b.view b.started)
          (λ r s l. judged-Ends id worker token typ msg act r s l (λ o held. h r s o held))))
      f

-- One UPDATE of the locked row, then events.
module _ {c : Tables} {now : ℕ} (id : String) (change : Postgres → ActivityRow → ActivityRow) where
  row_update-Ends :
      (r : Activity × Bool) (p : Postgres)
      → ((q : Postgres) (b : ActivityRow) → (change q b).id ≡ b.id)
      → (l : Locked c now id r p) → RowKept l.row (change p l.row)
      → Ends c (λ _. Within c) (update_activity id change p)
  row_update-Ends r p ids l kept =
      update_activity-Ends id change p l.row (ids p) l.found kept l.within

pub heartbeat-Ends :
    (id worker : String) (token : ℕ) (p : Postgres)
    → 0 < p.max_attempts
    → IsKeyed p.committed.activities
    → Ends p.committed (λ _. Committed p.committed) (heartbeat id worker token p)
unfolding heartbeat extend
heartbeat-Ends id worker token p m k =
    with_lease-Ends id worker token _ _ (extend id worker) p m k (λ _. forgotten)
      (λ r q l _.
        Ends-bind _ _
          (row_update-Ends id extended r q (λ _ b. refl) l (extended-RowKept q l.row l.runs))
          (λ _ s w. Ends-bind _ _ (append_event-Ends _ _ _ _ s w) (λ _ t v. commits t v)))

pub complete-Ends :
    (id worker : String) (token : ℕ) (p : Postgres)
    → 0 < p.max_attempts
    → IsKeyed p.committed.activities
    → Ends p.committed (λ _. Committed p.committed) (complete id worker token p)
unfolding complete finish
complete-Ends id worker token p m k =
    with_lease-Ends id worker token _ _ (finish id) p m k (λ _. forgotten)
      (λ r q l _.
        Ends-bind _ _
          (row_update-Ends id completed r q (λ _ b. refl) l (completed-RowKept q l.row l.runs))
          (λ _ s w. Ends-bind _ _ (append_event-Ends _ _ _ _ s w) (λ _ t v.
            Ends-bind _ _ (release_ready-Ends _ t v) (λ _ u x.
              Ends-bind _ _ (complete_workflow_if_done-Ends _ u x) (λ _ y z. commits y z)))))

scanned_room :
    (a : Activity) (row : ActivityRow)
    → a ≡ scanned row
    → a.attempt < a.max_attempts
    → row.attempt < row.max_attempts
unfolding scanned
scanned_room a row e h = rw e at h

retried_id :
    (backoff : ℤ) (message : String) (p : Postgres) (a : ActivityRow)
    → (retried backoff message p a).id ≡ a.id
unfolding retried
retried_id backoff message p a = refl

failed_id : (message : String) (p : Postgres) (a : ActivityRow) → (failed message p a).id ≡ a.id
unfolding failed
failed_id message p a = refl

schedule_retry-Ends :
    {c : Tables} {now : ℕ} (id message : String) (r : Activity × Bool) (q : Postgres)
    → Locked c now id r q
    → r.0.attempt < r.0.max_attempts
    → Ends c (λ _. Committed c) (schedule_retry id message r.0 q)
unfolding schedule_retry
schedule_retry-Ends id message r q l room =
    Ends-bind _ _
      (row_update-Ends id (retried (mul_int64 r.0.retry_backoff r.0.attempt) message) r q
        (λ s b. retried_id (mul_int64 r.0.retry_backoff r.0.attempt) message s b) l
        (retried-RowKept (mul_int64 r.0.retry_backoff r.0.attempt) message q l.row l.runs
          (scanned_room r.0 l.row l.value room)))
      (λ _ s w. Ends-bind _ _ (append_event-Ends _ _ _ _ s w) (λ _ t v. commits t v))

fail_workflow-Ends :
    {c : Tables} {now : ℕ} (id message : String) (r : Activity × Bool) (q : Postgres)
    → Locked c now id r q
    → Ends c (λ _. Committed c) (fail_workflow id message r.0 q)
unfolding fail_workflow
fail_workflow-Ends id message r q l =
    Ends-bind _ _
      (row_update-Ends id (failed message) r q (λ s b. failed_id message s b) l
        (failed-RowKept message q l.row l.runs))
      (λ _ s w.
        Ends-bind _ _
          (update_workflows-Ends (is_workflow r.0.workflow_id) WorkflowStatus.failed s w)
          (λ _ t v.
            Ends-bind _ _ (append_event-Ends _ _ _ _ t v)
              (λ _ u x. Ends-bind _ _ (append_event-Ends _ _ _ _ u x) (λ _ y z. commits y z))))

pub fail-Ends :
    (id worker : String) (token : ℕ) (retryable : Bool) (message : String) (p : Postgres)
    → 0 < p.max_attempts
    → IsKeyed p.committed.activities
    → Ends p.committed (λ _. Committed p.committed) (fail id worker token retryable message p)
unfolding fail give_up
fail-Ends id worker token retryable message p m k =
    with_lease-Ends id worker token _ _ (give_up id retryable message) p m k (λ _. forgotten)
      (λ r q l _. elim (Bool-cases (retryable && ltb r.0.attempt r.0.max_attempts)) [
        | inl again ↦ rw again (schedule_retry-Ends id message r q l (ground arith))
        | inr final ↦ rw final (fail_workflow-Ends id message r q l)
      ])
