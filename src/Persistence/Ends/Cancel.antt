-- ===== src/Persistence/Ends/Cancel.antt =====
-- Cancel and RunSchedulerPass commit only what `Follows` allows, or nothing.
use durablego.Base.{
  ℕ, ◌<◌, String, ◌≡◌, refl, ◌⊎◌, inl, inr, true, not, Option, none, some, arith, Bool-cases,
}
use durablego.Types.{ActivityStatus, WorkflowStatus, is_live}
use durablego.Persistence.Tables.{WorkflowRow, ActivityRow, Tables}
use durablego.Persistence.Session.{Postgres, deferring_rollback}
use durablego.Persistence.Lease.{is_workflow}
use durablego.Persistence.Cancel.{
  is_waiting, made_cancelled, cancelled_event, cancel_live, cancel_found, cancel, is_expired,
  expired, is_failed, note_expired, run_scheduler_pass,
}
use durablego.Persistence.Follows.{IsKeyed, Follows-refl}
use durablego.Persistence.RowChanges.{made_cancelled-RowKept, expired-RowKept}
use durablego.Persistence.Ends.{
  Within, Committed, Ends, returns, raises, Ends-bind, Ends-explain, statement-Ends, begin-Ends,
  for_each-Ends, rolled_back-Ends,
}
use durablego.Persistence.Ends.Helpers.{
  append_event-Ends, update_returning-Ends, release_ready-Ends, update_workflows-Ends,
}
use durablego.Persistence.Ends.Rows.{commits, forgotten}

pub expired_id : (now : ℕ) (a : ActivityRow) → (expired now a).id ≡ a.id
unfolding expired
expired_id now a = refl

pub expired_runs :
    (now : ℕ) (a : ActivityRow) → is_expired now a ≡ true → a.status ≡ ActivityStatus.running
unfolding is_expired
expired_runs now a h = ground arith

waiting_status :
    (wid : String) (a : ActivityRow)
    → is_waiting wid a ≡ true
    → (a.status ≡ ActivityStatus.ready) ⊎ (a.status ≡ ActivityStatus.retry_pending)
unfolding is_waiting
waiting_status wid a h = ground arith

cancel_live-Ends :
    {c : Tables} (wid : String) (p : Postgres)
    → Within c p
    → Ends c (λ _. Committed c) (cancel_live wid p)
unfolding cancel_live
cancel_live-Ends wid p w =
    Ends-bind _ _ (update_workflows-Ends (is_workflow wid) WorkflowStatus.cancelled p w) (λ _ q v.
      Ends-bind _ _
        (update_returning-Ends (λ s. is_waiting wid) (λ s. made_cancelled s.started) q (λ a. refl)
          (λ a hit. made_cancelled-RowKept q.started a (waiting_status wid a hit)) v)
        (λ rows s u.
          Ends-bind _ _
            (for_each-Ends (cancelled_event wid) rows (λ a r x. append_event-Ends _ _ _ _ r x) s u)
            (λ _ t x. Ends-bind _ _ (append_event-Ends _ _ _ _ t x) (λ _ y z. commits y z))))

cancel_found-Ends :
    {c : Tables} (wid : String) (o : Option WorkflowRow) (p : Postgres)
    → Within c p
    → Ends c (λ _. Committed c) (cancel_found wid o p)
unfolding cancel_found
cancel_found-Ends wid none p w = raises w.base w.attempts
cancel_found-Ends wid (some x) p w = elim (Bool-cases (not (is_live x.status))) [
  | inl over ↦ rw over (raises w.base w.attempts)
  | inr live ↦ rw live (cancel_live-Ends wid p w)
]

pub cancel-Ends :
    (wid : String) (p : Postgres)
    → 0 < p.max_attempts
    → IsKeyed p.committed.activities
    → Ends p.committed (λ _. Committed p.committed) (cancel wid p)
unfolding cancel deferring_rollback
cancel-Ends wid p m k =
    rolled_back-Ends _
      (Ends-bind _ _ (begin-Ends p m k) (λ _ q b.
        Ends-bind _ _ (statement-Ends _ q b.within (Follows-refl q.view))
          (λ o s st. cancel_found-Ends wid o s st.within)))
      (λ _. forgotten)

note_expired-Ends :
    {c : Tables} (a : ActivityRow) (p : Postgres)
    → Within c p
    → Ends c (λ _. Within c) (note_expired a p)
unfolding note_expired
note_expired-Ends a p w = elim (Bool-cases (is_failed a.status)) [
  | inl lost ↦ rw lost (
      Ends-bind _ _ (Ends-explain _ _ (update_workflows-Ends _ WorkflowStatus.failed p w)) (λ _ q v.
        Ends-bind _ _ (Ends-explain _ _ (append_event-Ends _ _ _ _ q v))
          (λ _ s u. Ends-explain _ _ (append_event-Ends _ _ _ _ s u))))
  | inr again ↦ rw again (Ends-explain _ _ (append_event-Ends _ _ _ _ p w))
]

pub run_scheduler_pass-Ends :
    (p : Postgres)
    → 0 < p.max_attempts
    → IsKeyed p.committed.activities
    → Ends p.committed (λ _. Committed p.committed) (run_scheduler_pass p)
unfolding run_scheduler_pass deferring_rollback
run_scheduler_pass-Ends p m k =
    rolled_back-Ends _
      (Ends-bind _ _ (Ends-explain _ _ (begin-Ends p m k)) (λ _ q b.
        Ends-bind _ _
          (Ends-explain _ _ (
            update_returning-Ends (λ s. is_expired s.started) (λ s. expired s.started) q
              (λ a. expired_id q.started a)
              (λ a hit. expired-RowKept q.started a (expired_runs q.started a hit)) b.within))
          (λ rows s w.
            Ends-bind _ _ (for_each-Ends note_expired rows (λ a r x. note_expired-Ends a r x) s w)
              (λ _ t v.
                Ends-bind _ _ (Ends-explain _ _ (release_ready-Ends "" t v))
                  (λ n u x. Ends-bind _ _ (Ends-explain _ _ (commits u x)) (λ _ y z. returns z))))))
      (λ _. forgotten)
