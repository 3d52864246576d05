-- ===== src/Persistence/Ends/Start.antt =====
-- Start and the reads commit only what `Follows` allows, or nothing.
pub mod Rows
use durablego.Base.{
  ℕ, ◌<◌, String, ◌≢◌, refl, inl, inr, Bool, true, false, List, [], ◌∷◌, Option, none, some,
  positive_or_pos, text_eq, arith, Bool-cases, Option-cases, find-append_found,
}
use durablego.Types.{WorkflowDefinition, ActivityDefinition, Workflow, ActivityStatus, Err}
use durablego.Engine.Start.{initial_status}
use durablego.Persistence.Tables.{
  WorkflowRow, KeyRow, DependencyRow, ActivityRow, Tables, find_activity,
}
use durablego.Persistence.Session.{Postgres, statement, begin, deferring_rollback}
use durablego.Persistence.Reads.{load_activities, load_events, read_workflow, workflow_tx, workflow}
use durablego.Persistence.Start.{
  refused, select_key, crash_with, crash_hook, known_workflow, existing_found,
  existing_idempotent_workflow, start_keyed, create, start_found, known_key, start_checked, start,
}
use durablego.Persistence.Start.Rows.{
  accepted, ensure_definition, insert_workflow, insert_key, keep_key, new_activity_row,
  insert_activity, insert_dependency, schedule, is_free, workflow_inserted, key_inserted,
  activity_inserted, dependency_inserted,
}
use durablego.Persistence.Follows.{IsSound, IsKeyed, Follows, Follows-refl}
use durablego.Persistence.Follows.Changes.{
  names-Follows, workflow_row-Follows, activity_row-Follows,
}
use durablego.Persistence.Ends.{
  Within, Committed, Ends, returns, raises, Ends-bind, Ends-weaken, statement-Ends, begin-Ends,
  rollback-Ends, for_each-Ends, rolled_back-Ends,
}
use durablego.Persistence.Ends.Helpers.{append_event-Ends, ensure_namespace-Ends}
use durablego.Persistence.Ends.Rows.{commits, forgotten}
use durablego.Persistence.Ends.Start.Rows.{
  query-Ends, ensure_definition-Ends, insert_workflow-Ends, keep_key-Ends, schedule-Ends,
  crash_with-Ends,
}

load_activities-Ends :
    {c : Tables} (wid : String) (p : Postgres)
    → Within c p
    → Ends c (λ _. Within c) (load_activities wid p)
unfolding load_activities
load_activities-Ends wid p w =
    Ends-bind _ _ (query-Ends _ p w)
      (λ _ q v. Ends-bind _ _ (query-Ends _ q v) (λ _ s u. returns u))

read_workflow-Ends :
    {c : Tables} (wid : String) (o : Option Workflow) (p : Postgres)
    → Within c p
    → Ends c (λ _. Within c) (read_workflow wid o p)
unfolding read_workflow load_events
read_workflow-Ends wid none p w = raises w.base w.attempts
read_workflow-Ends wid (some x) p w =
    Ends-bind _ _ (load_activities-Ends wid p w)
      (λ _ q v. Ends-bind _ _ (query-Ends _ q v) (λ _ s u. returns u))

workflow_tx-Ends :
    {c : Tables} (wid : String) (p : Postgres)
    → Within c p
    → Ends c (λ _. Within c) (workflow_tx wid p)
unfolding workflow_tx
workflow_tx-Ends wid p w = Ends-bind _ _ (query-Ends _ p w) (λ o q v. read_workflow-Ends wid o q v)

known-Ends :
    {c : Tables} (wid : String) (p : Postgres)
    → Within c p
    → Ends c (λ _. Committed c) (known_workflow wid p)
unfolding known_workflow
known-Ends wid p w =
    Ends-bind _ _ (workflow_tx-Ends wid p w)
      (λ r q v. Ends-bind _ _ (commits q v) (λ _ s k. returns k))

existing_found-Ends :
    {c : Tables} (key : String) (o : Option String) (p : Postgres)
    → Within c p
    → Ends c (λ _. Committed c) (existing_found key o p)
unfolding existing_found
existing_found-Ends key none p w = raises w.base w.attempts
existing_found-Ends key (some wid) p w = known-Ends wid p w

-- After the rollback a second transaction begins on what was committed.
existing_idempotent_workflow-Ends :
    {c : Tables} (ns : ℕ) (key : String) (p : Postgres)
    → Within c p
    → Ends c (λ _. Committed c) (existing_idempotent_workflow ns key p)
unfolding existing_idempotent_workflow deferring_rollback select_key
existing_idempotent_workflow-Ends {c} ns key p w =
    rolled_back-Ends _
      (Ends-bind _ _ (begin_again p w)
        (λ _ q v. Ends-bind _ _ (query-Ends _ q v) (λ o s u. existing_found-Ends key o s u)))
      (λ _. forgotten)
  where
    begin_again : (q : Postgres) → Within c q → Ends c (λ _. Within c) (begin q)
    begin_again q v =
        rw (← v.base)
          (Ends-weaken _ (begin-Ends q v.attempts (rw v.base v.keyed)) (λ _ s b. b.within))

start_keyed-Ends :
    {c : Tables} (ns : ℕ) (d : WorkflowDefinition) (key : String) (w : WorkflowRow) (kept : Bool)
    (p : Postgres)
    → Within c p
    → Ends c (λ _. Committed c) (start_keyed ns d key w kept p)
unfolding start_keyed crash_hook
start_keyed-Ends ns d key w false p i =
    Ends-bind _ _ (rollback-Ends p i) (λ _ q v. existing_idempotent_workflow-Ends ns key q v)
start_keyed-Ends ns d key w true p i = Ends-bind _ _ (append_event-Ends w.id "" _ _ p i) (λ _ q v.
    Ends-bind _ _ (for_each-Ends (schedule w.id) d.activities (schedule-Ends w.id) q v) (λ _ s u.
      Ends-bind _ _ (crash_with-Ends s.crash_before_commit s u)
        (λ _ t x. Ends-bind _ _ (commits t x) (λ _ y k. returns k))))

create-Ends :
    {c : Tables} (ns : ℕ) (d : WorkflowDefinition) (key : String) (p : Postgres)
    → Within c p
    → Ends c (λ _. Committed c) (create ns d key p)
unfolding create
create-Ends ns d key p w = Ends-bind _ _ (ensure_definition-Ends ns d.name p w) (λ def q v.
    Ends-bind _ _ (insert_workflow-Ends ns def q v) (λ x s u.
      Ends-bind _ _ (keep_key-Ends ns key x.id s u)
        (λ kept t z. start_keyed-Ends ns d key x kept t z)))

start_found-Ends :
    {c : Tables} (ns : ℕ) (d : WorkflowDefinition) (key : String) (o : Option String) (p : Postgres)
    → Within c p
    → Ends c (λ _. Committed c) (start_found ns d key o p)
unfolding start_found
start_found-Ends ns d key none p w = create-Ends ns d key p w
start_found-Ends ns d key (some wid) p w = known-Ends wid p w

known_key-Ends :
    {c : Tables} (ns : ℕ) (key : String) (p : Postgres)
    → Within c p
    → Ends c (λ _. Within c) (known_key ns key p)
unfolding known_key select_key
known_key-Ends ns key p w = elim (Bool-cases (text_eq key "")) [
  | inl keyless ↦ rw keyless (returns w)
  | inr keyed ↦ rw keyed (query-Ends _ p w)
]

start_checked-Ends :
    (o : Option Err) (d : WorkflowDefinition) (key : String) (p : Postgres)
    → 0 < p.max_attempts
    → IsKeyed p.committed.activities
    → Ends p.committed (λ _. Committed p.committed) (start_checked o d key p)
unfolding start_checked deferring_rollback
start_checked-Ends (some e) d key p m k = raises refl m
start_checked-Ends none d key p m k =
    rolled_back-Ends _
      (Ends-bind _ _ (begin-Ends p m k) (λ _ q b.
        Ends-bind _ _ (ensure_namespace-Ends d.namespace q b.within) (λ ns s v.
          Ends-bind _ _ (known_key-Ends ns key s v) (λ o t u. start_found-Ends ns d key o t u))))
      (λ _. forgotten)

pub start-Ends :
    (d : WorkflowDefinition) (key : String) (p : Postgres)
    → 0 < p.max_attempts
    → IsKeyed p.committed.activities
    → Ends p.committed (λ _. Committed p.committed) (start d key p)
unfolding start
start-Ends d key p m k = start_checked-Ends (refused d) d key p m k

pub workflow-Ends :
    (wid : String) (p : Postgres)
    → 0 < p.max_attempts
    → IsKeyed p.committed.activities
    → Ends p.committed (λ _. Committed p.committed) (workflow wid p)
unfolding workflow deferring_rollback
workflow-Ends wid p m k =
    rolled_back-Ends _
      (Ends-bind _ _ (begin-Ends p m k) (λ _ q b.
        Ends-bind _ _ (workflow_tx-Ends wid q b.within)
          (λ r s v. Ends-bind _ _ (commits s v) (λ _ t o. returns o))))
      (λ _. forgotten)
