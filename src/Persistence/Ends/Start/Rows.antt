-- ===== src/Persistence/Ends/Start/Rows.antt =====
-- The rows that Start of internal/persistence/postgres.go inserts.
use durablego.Base.{
  ℕ, ◌<◌, String, ◌≢◌, inl, inr, Bool, true, false, List, [], ◌∷◌, Option, none, some,
  positive_or_pos, text_eq, arith, Bool-cases, Option-cases, find-append_found,
}
use durablego.Types.{ActivityDefinition, ActivityStatus}
use durablego.Engine.Start.{initial_status}
use durablego.Persistence.Tables.{
  WorkflowRow, KeyRow, DependencyRow, ActivityRow, Tables, find_activity,
}
use durablego.Persistence.Session.{Postgres, statement}
use durablego.Persistence.Start.Rows.{
  accepted, ensure_definition, insert_workflow, insert_key, keep_key, new_activity_row,
  insert_activity, insert_dependency, schedule, is_free, workflow_inserted, key_inserted,
  activity_inserted, dependency_inserted,
}
use durablego.Persistence.Start.{crash_with}
use durablego.Persistence.Follows.{IsSound, Follows, Follows-refl}
use durablego.Persistence.Follows.Changes.{
  names-Follows, workflow_row-Follows, activity_row-Follows,
}
use durablego.Persistence.Ends.{
  Within, Ends, returns, raises, Ends-bind, Ends-weaken, statement-Ends, for_each-Ends,
}
use durablego.Persistence.Ends.Helpers.{append_event-Ends}

-- A statement that only reads.
pub query-Ends :
    {A : Type 0} {c : Tables} (f : Postgres → A) (p : Postgres)
    → Within c p
    → Ends c (λ _. Within c) (statement (λ q. (f q, q.view)) p)
query-Ends f p w = Ends-weaken _ (statement-Ends _ p w (Follows-refl p.view)) (λ _ q s. s.within)

pub accepted-Ends :
    {A : Type 0} {c : Tables} (o : Option A) (p : Postgres)
    → Within c p
    → Ends c (λ _. Within c) (accepted o p)
unfolding accepted
accepted-Ends none p w = raises w.base w.attempts
accepted-Ends (some a) p w = returns w

pub ensure_definition-Ends :
    {c : Tables} (ns : ℕ) (name : String) (p : Postgres)
    → Within c p
    → Ends c (λ _. Within c) (ensure_definition ns name p)
unfolding ensure_definition
ensure_definition-Ends ns name p w =
    Ends-weaken _
      (statement-Ends _ p w (names-Follows p.view _ _ _ _ (λ test k h. h) (λ test n h. h)))
      (λ _ q s. s.within)

pub workflow_inserted-Follows :
    (b : Bool) (w : WorkflowRow) (t : Tables) → Follows t (workflow_inserted b w t).1
unfolding workflow_inserted
workflow_inserted-Follows true w t = workflow_row-Follows t w
workflow_inserted-Follows false w t = Follows-refl t

pub insert_workflow-Ends :
    {c : Tables} (ns definition : ℕ) (p : Postgres)
    → Within c p
    → Ends c (λ _. Within c) (insert_workflow ns definition p)
unfolding insert_workflow
insert_workflow-Ends ns definition p w =
    Ends-bind _ _ (statement-Ends _ p w (workflow_inserted-Follows _ _ p.view))
      (λ o q s. accepted-Ends o q s.within)

pub key_inserted-Follows : (b : Bool) (k : KeyRow) (t : Tables) → Follows t (key_inserted b k t).1
unfolding key_inserted
key_inserted-Follows true k t =
    names-Follows t _ _ _ _ (λ test x h. find-append_found test t.keys (k ∷ []) x h) (λ test n h. h)
key_inserted-Follows false k t = Follows-refl t

pub keep_key-Ends :
    {c : Tables} (ns : ℕ) (key wid : String) (p : Postgres)
    → Within c p
    → Ends c (λ _. Within c) (keep_key ns key wid p)
unfolding keep_key insert_key
keep_key-Ends ns key wid p w = elim (Bool-cases (text_eq key "")) [
  | inl keyless ↦ rw keyless (returns w)
  | inr keyed ↦
      rw keyed
        (Ends-weaken _ (statement-Ends _ p w (key_inserted-Follows _ _ p.view)) (λ _ q s. s.within))
]

waits : (l : List String) → initial_status l ≢ ActivityStatus.running
unfolding initial_status
waits [] e = absurd (ground arith)
waits (_ ∷ _) e = absurd (ground arith)

pub new_activity_row-IsSound :
    (wid : String) (d : ActivityDefinition) (p : Postgres)
    → 0 < p.max_attempts
    → IsSound (new_activity_row wid d p)
unfolding new_activity_row
new_activity_row-IsSound wid d p m = record {
  deadline = λ r. absurd (waits d.depends_on r);
  attempts = omega arith;
  spare = λ _. positive_or_pos d.max_attempts p.max_attempts m;
}

pub activity_inserted-Follows :
    (a : ActivityRow) (t : Tables)
    → IsSound a
    → Follows t (activity_inserted (is_free (find_activity a.id t.activities)) a t).1
unfolding activity_inserted
activity_inserted-Follows a t sound = elim (Option-cases (find_activity a.id t.activities)) [
  | inl free ↦ rw free (activity_row-Follows t a sound free)
  | inr (_, taken) ↦ rw taken (Follows-refl t)
]

insert_activity-Ends :
    {c : Tables} (wid : String) (d : ActivityDefinition) (p : Postgres)
    → Within c p
    → Ends c (λ _. Within c) (insert_activity wid d p)
unfolding insert_activity
insert_activity-Ends wid d p w =
    Ends-bind _ _
      (statement-Ends _ p w (
        activity_inserted-Follows (new_activity_row wid d p) p.view
          (new_activity_row-IsSound wid d p w.attempts)))
      (λ o q s. accepted-Ends o q s.within)

pub dependency_inserted-Follows :
    (b : Bool) (d : DependencyRow) (t : Tables) → Follows t (dependency_inserted b d t).1
unfolding dependency_inserted
dependency_inserted-Follows true d t = names-Follows t _ _ _ _ (λ test k h. h) (λ test n h. h)
dependency_inserted-Follows false d t = Follows-refl t

insert_dependency-Ends :
    {c : Tables} (wid name dep : String) (p : Postgres)
    → Within c p
    → Ends c (λ _. Within c) (insert_dependency wid name dep p)
unfolding insert_dependency
insert_dependency-Ends wid name dep p w =
    Ends-bind _ _ (statement-Ends _ p w (dependency_inserted-Follows _ _ p.view))
      (λ o q s. accepted-Ends o q s.within)

pub schedule-Ends :
    {c : Tables} (wid : String) (d : ActivityDefinition) (p : Postgres)
    → Within c p
    → Ends c (λ _. Within c) (schedule wid d p)
unfolding schedule
schedule-Ends wid d p w = Ends-bind _ _ (insert_activity-Ends wid d p w) (λ id q v.
    Ends-bind _ _
      (for_each-Ends (insert_dependency wid d.name) d.depends_on (insert_dependency-Ends wid d.name)
        q v)
      (λ _ s u. append_event-Ends wid id _ _ s u))

pub crash_with-Ends :
    {c : Tables} (o : Option String) (p : Postgres)
    → Within c p
    → Ends c (λ _. Within c) (crash_with o p)
unfolding crash_with
crash_with-Ends none p w = returns w
crash_with-Ends (some text) p w = raises w.base w.attempts
