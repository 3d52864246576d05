-- ===== src/Persistence/Completion.antt =====
-- What Complete of the Postgres backend leaves of the tables.
pub mod Outcome
use durablego.Base.{
  ℕ, String, ◌≡◌, refl, sym, ap, ◌∙◌, inl, inr, Bool, [], none, some, ◌==◌, text_eq, Bool-cases,
}
use durablego.Types.{Activity, ActivityStatus, WorkflowStatus}
use durablego.Api.Backend.{good}
use durablego.Persistence.Tables.{ActivityRow, Tables, find_activity, update_where}
use durablego.Persistence.Session.{Postgres}
use durablego.Persistence.Helpers.{
  append_event, new_event, scanned, is_blocked, is_due, made_ready, update_returning, ready_event,
  release_ready, is_done, set_status, update_workflows, log_completion, complete_workflow_if_done,
}
use durablego.Persistence.Lease.{update_activity, completed, finish, complete}
use durablego.Persistence.Follows.Changes.{event-Follows, map-Follows, workflows-Follows}
use durablego.Persistence.RowChanges.{completed-RowKept, made_ready-RowKept}
use durablego.Persistence.Ends.{
  Within, Ends, returns, Ends-bind, Ends-weaken, statement-Ends, commit-Ends, good-Ends,
}
use durablego.Persistence.Ends.Framed.{for_each-kept}
use durablego.Persistence.Ends.Helpers.{Locked, due_waits}
use durablego.Persistence.Ends.Rows.{one_row-Follows}
use durablego.Persistence.Ends.Lease.{with_lease-Ends}
use durablego.Persistence.History.Safety.{IsReady}
use durablego.Persistence.Completion.Outcome.{
  but_events, done_row, released, closed, done_row-but_events, released-but_events,
  closed-but_events, seen_alike, finished,
}

-- In a transaction that began at `now` and sees the tables `t`, but for the events.
record Sees (c t : Tables) (now : ℕ) (p : Postgres) : Type 0 where
  within : Within c p
  view : but_events p.view ≡ but_events t
  started : p.started ≡ now

append_event-Sees :
    {c t : Tables} {now : ℕ} (wid aid typ msg : String) (p : Postgres)
    → Sees c t now p
    → Ends c (λ _. Sees c t now) (append_event wid aid typ msg p)
unfolding append_event
append_event-Sees wid aid typ msg p h =
    Ends-weaken _ (statement-Ends _ p h.within (event-Follows p.view (new_event wid aid typ msg p)))
      (λ _ q s. record {
        within = s.within;
        view = ap but_events s.view ∙ h.view;
        started = s.started ∙ h.started;
      })

release_ready-Sees :
    {c t : Tables} {now : ℕ} (wid : String) (p : Postgres)
    → Sees c t now p
    → Ends c (λ _. Sees c (released now wid t) now) (release_ready wid p)
unfolding release_ready update_returning released
release_ready-Sees {c} {t} {now} wid p h =
    Ends-bind _ _
      (statement-Ends _ p h.within (
        map-Follows p.view (is_due p.started wid p.view) (made_ready p.started) (λ a. refl)
          (λ id a _ hit. made_ready-RowKept p.started a (due_waits p.started wid p.view a hit))))
      (λ rows q s.
        Ends-bind _ _
          (for_each-kept {I = Sees c (released now wid t) now} ready_event rows
            (λ a r x. append_event-Sees _ _ _ _ r x) q
            (record {
              within = s.within;
              view =
                  ap but_events s.view
                  ∙ seen_alike (λ k u. released k wid u) p.started now p.view t
                      (λ u. released-but_events now wid u) h.started h.view;
              started = s.started ∙ h.started;
            }))
          (λ _ r x. returns x))

log_completion-Sees :
    {c t : Tables} {now : ℕ} (wid : String) (n : ℕ) (p : Postgres)
    → Sees c t now p
    → Ends c (λ _. Sees c t now) (log_completion wid n p)
unfolding log_completion
log_completion-Sees wid n p h = elim (Bool-cases (n == 1)) [
  | inl one ↦ rw one (append_event-Sees _ _ _ _ p h)
  | inr other ↦ rw other (returns h)
]

complete_workflow_if_done-Sees :
    {c t : Tables} {now : ℕ} (wid : String) (p : Postgres)
    → Sees c t now p
    → Ends c (λ _. Sees c (closed now wid t) now) (complete_workflow_if_done wid p)
unfolding complete_workflow_if_done update_workflows closed
complete_workflow_if_done-Sees {t = t} {now = now} wid p h =
    Ends-bind _ _
      (statement-Ends _ p h.within
        (workflows-Follows p.view (is_done wid p.view) WorkflowStatus.completed p.started))
      (λ n q s. log_completion-Sees wid n q (record {
        within = s.within;
        view =
            ap but_events s.view
            ∙ seen_alike (λ k u. closed k wid u) p.started now p.view t
                (λ u. closed-but_events now wid u) h.started h.view;
        started = s.started ∙ h.started;
      }))

scanned_workflow : (a : ActivityRow) → (scanned a).workflow_id ≡ a.workflow_execution_id
unfolding scanned
scanned_workflow a = refl

-- What the transaction left, but for the events, for the row that it found.
record Finishes (id : String) (now : ℕ) (c : Tables) (q : Postgres) : Type 0 where
  row : ActivityRow
  found : find_activity id c.activities ≡ some row
  runs : row.status ≡ ActivityStatus.running
  left : but_events q.committed ≡ but_events (finished now id row.workflow_execution_id c)

finish-Finishes :
    {c : Tables} {now : ℕ} (id : String) (r : Activity × Bool) (p : Postgres)
    → Locked c now id r p
    → Ends c (λ _. Finishes id now c) (finish id r.0 p)
unfolding finish update_activity done_row
finish-Finishes {c} {now} id r p l =
    Ends-bind _ _
      (statement-Ends _ p l.within (
        one_row-Follows id (completed p) p.view l.row (λ b. refl) l.found
          (completed-RowKept p l.row l.runs)))
      (λ _ q s.
        let sees : Sees c (done_row now id c) now q = record {
          within = s.within;
          view =
              ap but_events s.view
              ∙ seen_alike (λ k u. done_row k id u) p.started now p.view c
                  (λ u. done_row-but_events now id u) l.started (ap but_events l.view);
          started = s.started ∙ l.started;
        } in
        Ends-bind _ _ (append_event-Sees _ _ _ _ q sees) (λ _ t u.
          Ends-bind _ _ (release_ready-Sees _ t u) (λ _ x y.
            Ends-bind _ _ (complete_workflow_if_done-Sees _ x y) (λ _ z v.
              Ends-weaken _ (commit-Ends z v.within) (λ _ o k. record {
                row = l.row;
                found = ap (λ (t : Tables). find_activity id t.activities) (sym l.view) ∙ l.found;
                runs = l.runs;
                left =
                    ap but_events k.1
                    ∙ v.view
                    ∙ ap (λ wid. but_events (finished now id wid c))
                        (ap (λ (a : Activity). a.workflow_id) l.value ∙ scanned_workflow l.row);
              })))))

complete-Finishes :
    (id worker : String) (token : ℕ) (p : Postgres)
    → IsReady p
    → Ends p.committed
        (λ _. Finishes id (p.driver.clock p.calls) p.committed)
        (complete id worker token p)
unfolding complete
complete-Finishes id worker token p r =
    with_lease-Ends {Q = λ _. Finishes id (p.driver.clock p.calls) p.committed} id worker token _ _
      (finish id) p r.attempts r.keyed
      (λ _ q f. record { row = f.row; found = f.found; runs = f.runs; left = f.left })
      (λ o q l _. finish-Finishes id o q l)

-- A Complete of the Postgres backend that returns no error found the activity running, and leaves
-- exactly this of the tables, but for the events: the activity is completed, its lease is given up, the waiting activities of its workflow
-- that are due then are made ready, and after that the workflow is completed if it is running and all
-- its activities are completed.
pub complete-finished :
    (id worker : String) (token : ℕ) (p q : Postgres)
    → IsReady p
    → complete id worker token p ≡ (good tt, q)
    → (a : ActivityRow) × (find_activity id p.committed.activities ≡ some a)
      × (a.status ≡ ActivityStatus.running)
      × (but_events q.committed
          ≡ but_events (finished (p.driver.clock p.calls) id a.workflow_execution_id p.committed))
complete-finished id worker token p q r e =
    let f = good-Ends (complete id worker token p) tt q (complete-Finishes id worker token p r) e in
    (f.row, f.found, f.runs, f.left)
