-- ===== src/Persistence/Ends/Helpers.antt =====
-- The functions that run inside a transaction keep to what `Follows` allows.
use durablego.Base.{
  ℕ, String, ◌≡◌, refl, sym, ap, ◌∙◌, inl, inr, Bool, true, Option, none, some, ◌==◌, arith,
  Bool-cases, Option-cases, List, find, find-append_found, text_eq,
}
use durablego.Types.{Activity, ActivityStatus, WorkflowStatus, is_running}
use durablego.Persistence.Tables.{NamespaceRow, WorkflowRow, ActivityRow, Tables, find_activity}
use durablego.Persistence.Session.{Postgres}
use durablego.Persistence.Helpers.{
  upsert_namespace, ensure_namespace, append_event, new_event, scanned, lease_ahead, judged_row,
  selected, found_row, lock_activity, is_due, made_ready, update_returning, ready_event,
  release_ready, is_done, update_workflows, log_completion, complete_workflow_if_done,
}
use durablego.Persistence.Follows.{Follows-refl, RowKept}
use durablego.Persistence.Follows.Changes.{
  map-Follows, workflows-Follows, event-Follows, names-Follows,
}
use durablego.Persistence.RowChanges.{made_ready-RowKept}
use durablego.Persistence.Ends.{
  EndsIf, Within, Ends, returns, raises, Ends-bind, Ends-weaken, statement-Ends, for_each-Ends,
}

pub append_event-Ends :
    {c : Tables} (wid aid typ msg : String) (p : Postgres)
    → Within c p
    → Ends c (λ _. Within c) (append_event wid aid typ msg p)
unfolding append_event
append_event-Ends wid aid typ msg p w =
    Ends-weaken _ (statement-Ends _ p w (event-Follows p.view (new_event wid aid typ msg p)))
      (λ _ q s. s.within)

pub kept_namespace :
    (new : ℕ) (name : String) (rows : List NamespaceRow) (test : NamespaceRow → Bool)
    (n : NamespaceRow)
    → find test rows ≡ some n
    → find test (upsert_namespace new name rows).1 ≡ some n
unfolding upsert_namespace
kept_namespace new name rows test n h =
    elim (Option-cases (find (λ (r : NamespaceRow). text_eq r.name name) rows)) [
      | inl absent ↦ rw (absent, upsert_namespace) (find-append_found test rows _ n h)
      | inr (m, there) ↦ rw (there, upsert_namespace) h
    ]

pub ensure_namespace-Ends :
    {c : Tables} (name : String) (p : Postgres)
    → Within c p
    → Ends c (λ _. Within c) (ensure_namespace name p)
unfolding ensure_namespace
ensure_namespace-Ends name p w =
    Ends-weaken _
      (statement-Ends _ p w (
        names-Follows p.view _ _ _ _ (λ test k h. h)
          (λ test n h. kept_namespace (p.driver.serial p.calls) name p.view.namespaces test n h)))
      (λ _ q s. s.within)

-- The row that lockActivity returned: it runs, and `current` tells whether its deadline lies ahead.
pub record Locked (c : Tables) (now : ℕ) (id : String) (r : Activity × Bool) (q : Postgres)
    : Type 0 where
  pub within : Within c q
  pub view : q.view ≡ c
  pub started : q.started ≡ now
  pub row : ActivityRow
  pub found : find_activity id q.view.activities ≡ some row
  pub runs : row.status ≡ ActivityStatus.running
  pub value : r.0 ≡ scanned row
  pub current : lease_ahead q.started row.lease_expires_at ≡ some r.1

judged_row-Ends :
    {may : Type 0} {c : Tables} {now : ℕ} (id : String) (row : ActivityRow) (o : Option Bool)
    (q : Postgres)
    → Within c q
    → q.view ≡ c
    → q.started ≡ now
    → find_activity id q.view.activities ≡ some row
    → lease_ahead q.started row.lease_expires_at ≡ o
    → EndsIf may c (Locked c now id) (judged_row row o q)
unfolding judged_row
judged_row-Ends id row none q w v st h e = raises w.base w.attempts
judged_row-Ends id row (some live) q w v st h e = elim (Bool-cases (is_running row.status)) [
  | inr idle ↦ rw idle (raises w.base w.attempts)
  | inl runs ↦ rw runs (
      returns (record {
        within = w;
        view = v;
        started = st;
        row = row;
        found = h;
        runs = ground arith;
        value = refl;
        current = e;
      }))
]

found_row-Ends :
    {may : Type 0} {c : Tables} {now : ℕ} (id : String) (o : Option ActivityRow) (q : Postgres)
    → Within c q
    → q.view ≡ c
    → q.started ≡ now
    → find_activity id q.view.activities ≡ o
    → EndsIf may c (Locked c now id) (found_row (selected q.started o) q)
unfolding found_row
found_row-Ends id none q w v st h = raises w.base w.attempts
found_row-Ends id (some row) q w v st h = judged_row-Ends id row _ q w v st h refl

pub lock_activity-Ends :
    {may : Type 0} {c : Tables} {now : ℕ} (id : String) (p : Postgres)
    → Within c p
    → p.view ≡ c
    → p.started ≡ now
    → EndsIf may c (Locked c now id) (lock_activity id p)
unfolding lock_activity
lock_activity-Ends {c} id p w v st =
    Ends-bind _ found_row (statement-Ends _ p w (Follows-refl p.view)) (λ r q s.
      let e : r ≡ selected q.started (find_activity id q.view.activities) =
        s.value
        ∙ ap (λ n. selected n (find_activity id p.view.activities)) (sym s.started)
        ∙ ap (λ (v : Tables). selected q.started (find_activity id v.activities)) (sym s.view) in
      rw e (found_row-Ends id _ q s.within (s.view ∙ v) (s.started ∙ st) refl))

-- An UPDATE of the activities, by rows that are kept.
pub update_returning-Ends :
    {c : Tables} (test : Postgres → ActivityRow → Bool)
    (change : Postgres → ActivityRow → ActivityRow) (p : Postgres)
    → ((a : ActivityRow) → (change p a).id ≡ a.id)
    → ((a : ActivityRow) → test p a ≡ true → RowKept a (change p a))
    → Within c p
    → Ends c (λ _. Within c) (update_returning test change p)
unfolding update_returning
update_returning-Ends test change p ids kept w =
    Ends-weaken _
      (statement-Ends _ p w (map-Follows p.view (test p) (change p) ids (λ id a _ hit. kept a hit)))
      (λ _ q s. s.within)

pub due_waits :
    (now : ℕ) (scope : String) (t : Tables) (a : ActivityRow)
    → is_due now scope t a ≡ true
    → a.status ≡ ActivityStatus.retry_pending
unfolding is_due
due_waits now scope t a hit = ground arith

pub release_ready-Ends :
    {c : Tables} (scope : String) (p : Postgres)
    → Within c p
    → Ends c (λ _. Within c) (release_ready scope p)
unfolding release_ready
release_ready-Ends scope p w =
    Ends-bind _ _
      (update_returning-Ends (λ q. is_due q.started scope q.view) (λ q. made_ready q.started) p
        (λ a. refl)
        (λ a hit. made_ready-RowKept p.started a (due_waits p.started scope p.view a hit)) w)
      (λ rows q v.
        Ends-bind _ _ (for_each-Ends ready_event rows (λ a r u. append_event-Ends _ _ _ _ r u) q v)
          (λ _ r u. returns u))

pub update_workflows-Ends :
    {c : Tables} (test : Tables → WorkflowRow → Bool) (status : WorkflowStatus) (p : Postgres)
    → Within c p
    → Ends c (λ _. Within c) (update_workflows test status p)
unfolding update_workflows
update_workflows-Ends test status p w =
    Ends-weaken _ (statement-Ends _ p w (workflows-Follows p.view (test p.view) status p.started))
      (λ _ q s. s.within)

log_completion-Ends :
    {c : Tables} (wid : String) (n : ℕ) (p : Postgres)
    → Within c p
    → Ends c (λ _. Within c) (log_completion wid n p)
unfolding log_completion
log_completion-Ends wid n p w = elim (Bool-cases (n == 1)) [
  | inl one ↦ rw one (append_event-Ends wid "" _ _ p w)
  | inr other_count ↦ rw other_count (returns w)
]

pub complete_workflow_if_done-Ends :
    {c : Tables} (wid : String) (p : Postgres)
    → Within c p
    → Ends c (λ _. Within c) (complete_workflow_if_done wid p)
unfolding complete_workflow_if_done
complete_workflow_if_done-Ends wid p w =
    Ends-bind _ _ (update_workflows-Ends (is_done wid) WorkflowStatus.completed p w)
      (λ n q v. log_completion-Ends wid n q v)
