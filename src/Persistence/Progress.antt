-- ===== src/Persistence/Progress.antt =====
-- The rules by which a method of the Postgres backend gets done when the driver meets no fault.
pub mod Leases
pub mod Claims
pub mod Passes
use durablego.Base.{
  suc, ℕ, ◌<◌, String, ◌≡◌, refl, ap, ◌∙◌, inl, inr, Bool, true, List, [], ◌∷◌, Option, none, some,
  ltb, ◌==◌, ◌&&◌, text_eq, text_eq_iff, In, filter, filter-In, sort_by, sort_by-In, arith,
  Bool-cases,
}
use durablego.Types.{Activity, ActivityStatus}
use durablego.Api.Backend.{Reply, good}
use durablego.Persistence.Tables.{ActivityRow, Tables, find_activity}
use durablego.Persistence.Session.{
  commit_met, Postgres, Tx, follow, met, driver_call, statement, begin, commit, rolled_back,
  deferring_rollback, for_each, explained,
}
use durablego.Persistence.Helpers.{
  append_event, text_or_empty, scanned, lease_ahead, judged_row, found_row, selected, lock_activity,
  current_lease, update_returning, release_ready, ready_event, update_workflows, log_completion,
  complete_workflow_if_done,
}
use durablego.Persistence.Reads.{created_before}
use durablego.Persistence.Claim.{is_pickable, first_row, picked, lease_picked, claim_picked, claim}
use durablego.Persistence.Lease.{
  update_activity, judged, with_lease, extend, heartbeat, finish, complete, schedule_retry,
  fail_workflow, give_up, fail,
}
use durablego.Persistence.Cancel.{is_failed, note_expired, run_scheduler_pass}
use durablego.Persistence.Fencing.{HoldsLease}
use durablego.Persistence.History.Safety.{IsReady}
use durablego.Persistence.Passes.Settled.{IsSettled}

-- No call of the driver fails.
abbrev pub IsFaultless : Postgres → Type 0
IsFaultless p = (k : ℕ) → p.driver.fault k ≡ none

-- A value is returned, and `Q` holds of it.
pub data Yields {A : Type 0} (Q : A → Postgres → Type 0) : Reply A × Postgres → Type 0 where
  yields : {a : A} {p : Postgres} → Q a p → Yields Q (good a, p)

-- The method returns with no error.
abbrev pub IsAccepted : {A : Type 0} → Reply A → Type 0
IsAccepted {A} r = (a : A) × (r ≡ good a)

pub Yields-bind :
    {A B : Type 0} {Q : A → Postgres → Type 0} {Q' : B → Postgres → Type 0} (r : Reply A × Postgres)
    (k : A → Tx B)
    → Yields Q r
    → ((a : A) (p : Postgres) → Q a p → Yields Q' (k a p))
    → Yields Q' (follow r k)
unfolding follow
Yields-bind _ k (yields {a} {p} q) h = h a p q

pub Yields-IsAccepted :
    {A : Type 0} {Q : A → Postgres → Type 0} (r : Reply A × Postgres)
    → Yields Q r
    → IsAccepted (rolled_back r).0
unfolding rolled_back
Yields-IsAccepted _ (yields {a} _) = (a, refl)

-- What a statement that met no fault has done.
pub record Done {A : Type 0} (p : Postgres) (f : Postgres → A × Tables) (a : A) (q : Postgres)
    : Type 0 where
  pub faultless : IsFaultless q
  pub value : a ≡ (f p).0
  pub view : q.view ≡ (f p).1
  pub started : q.started ≡ p.started

pub statement-Yields :
    {A : Type 0} (f : Postgres → A × Tables) (p : Postgres)
    → IsFaultless p
    → Yields (Done p f) (statement f p)
unfolding statement driver_call met
statement-Yields f p h =
    rw (h p.calls) (yields (record { faultless = h; value = refl; view = refl; started = refl }))

pub begin-Yields :
    (p : Postgres)
    → IsFaultless p
    → Yields
        (λ _ q.
          IsFaultless q
          × (q.view ≡ p.committed)
          × (q.started ≡ p.driver.clock p.calls)
          × (q.driver ≡ p.driver)
          × (q.calls ≡ suc p.calls))
        (begin p)
unfolding begin driver_call met
begin-Yields p h = rw (h p.calls) (yields (h, refl, refl, refl, refl))

pub commit-Yields : (p : Postgres) → IsFaultless p → Yields (λ _. IsFaultless) (commit p)
unfolding commit commit_met
commit-Yields p h = rw (h p.calls) (yields h)

pub statement-IsFaultless :
    {A : Type 0} (f : Postgres → A × Tables) (p : Postgres)
    → IsFaultless p
    → Yields (λ _. IsFaultless) (statement f p)
unfolding statement driver_call met
statement-IsFaultless f p h = rw (h p.calls) (yields h)

pub append_event-Yields :
    (wid aid typ msg : String) (p : Postgres)
    → IsFaultless p
    → Yields (λ _. IsFaultless) (append_event wid aid typ msg p)
unfolding append_event
append_event-Yields wid aid typ msg p h = statement-IsFaultless _ p h

pub for_each-Yields :
    {A : Type 0} (f : A → Tx (Unit {0})) (xs : List A)
    → ((x : A) (p : Postgres) → IsFaultless p → Yields (λ _. IsFaultless) (f x p))
    → (p : Postgres) → IsFaultless p
    → Yields (λ _. IsFaultless) (for_each f xs p)
unfolding for_each
for_each-Yields f [] h p w = yields w
for_each-Yields f (x ∷ xs) h p w =
    Yields-bind (f x p) _ (h x p w) (λ _ q v. for_each-Yields f xs h q v)

pub release_ready-Yields :
    (scope : String) (p : Postgres)
    → IsFaultless p
    → Yields (λ _. IsFaultless) (release_ready scope p)
unfolding release_ready update_returning
release_ready-Yields scope p h = Yields-bind _ _ (statement-IsFaultless _ p h) (λ rows q v.
    Yields-bind _ _
      (for_each-Yields ready_event rows (λ a r x. append_event-Yields _ _ _ _ r x) q v)
      (λ _ r x. yields x))

pub log_completion-Yields :
    (wid : String) (n : ℕ) (p : Postgres)
    → IsFaultless p
    → Yields (λ _. IsFaultless) (log_completion wid n p)
unfolding log_completion
log_completion-Yields wid n p h = elim (Bool-cases (n == 1)) [
  | inl one ↦ rw one (append_event-Yields _ _ _ _ p h)
  | inr other ↦ rw other (yields h)
]

pub complete_workflow_if_done-Yields :
    (wid : String) (p : Postgres)
    → IsFaultless p
    → Yields (λ _. IsFaultless) (complete_workflow_if_done wid p)
unfolding complete_workflow_if_done update_workflows
complete_workflow_if_done-Yields wid p h =
    Yields-bind _ _ (statement-IsFaultless _ p h) (λ n q v. log_completion-Yields wid n q v)

pub Yields-explain :
    {A : Type 0} {Q : A → Postgres → Type 0} (what : String) (r : Reply A × Postgres)
    → Yields Q r
    → Yields Q (explained what r)
unfolding explained
Yields-explain what _ (yields q) = yields q
