-- ===== src/Examples/Database/Overlaps.antt =====
-- Two activities of a workflow of the Postgres backend that are completed by overlapping transactions.
use durablego.Base.{
  ◌<◌, String, ◌≡◌, refl, sym, ap, ◌∙◌, ◌⊎◌, inl, inr, false, [], ◌∷◌, none, some, text_eq,
  text_eq_iff, arith, Bool-cases,
}
use durablego.Types.{WorkflowDefinition, ActivityStatus, WorkflowStatus}
use durablego.Api.Backend.{good}
use durablego.Engine.History.{starts, claims, completes}
use durablego.Persistence.Tables.{ActivityRow, WorkflowRow, Tables, find_activity, find_workflow}
use durablego.Persistence.Session.{Postgres}
use durablego.Persistence.Lease.{complete}
use durablego.Persistence.History.{serve, run}
use durablego.Persistence.History.Safety.{IsReady, run-Follows}
use durablego.Persistence.Fencing.{HoldsLease}
use durablego.Persistence.Progress.{IsFaultless}
use durablego.Persistence.Completed.{Completes, complete_lem}
use durablego.Persistence.Overlap.{Overlap, overlapping_completes_stall}
use durablego.Examples.{validate_step}
use durablego.Examples.Database.{evaluated, database, database-IsReady, returned}

-- Two steps that do not wait for each other.
abbrev pair : WorkflowDefinition
pair = record {
  name = "pair";
  namespace = "shop";
  activities = validate_step ∷ record validate_step { name = "audit" } ∷ [];
}

-- Both are claimed.
abbrev both : Postgres
both = run (starts pair "k" ∷ claims "a" "default" ∷ claims "b" "default" ∷ []) database

both-IsReady : IsReady both
both-IsReady =
    (run-Follows (starts pair "k" ∷ claims "a" "default" ∷ claims "b" "default" ∷ []) database
      database-IsReady).1

abbrev row_a : ActivityRow
row_a = record {
  id = "id-7";
  workflow_execution_id = "id-4";
  name = "validate";
  task_queue = "default";
  status = ActivityStatus.running;
  attempt = 1;
  max_attempts = 2;
  retry_backoff_ms = 1000;
  lease_owner = some "a";
  lease_expires_at = some 5_000_001_012;
  heartbeat_at = some 1012;
  fencing_token = 1;
  next_attempt_at = 1000;
  last_error = none;
  created_at = 1000;
  updated_at = 1012;
}

abbrev row_b : ActivityRow
row_b = record {
  id = "id-9";
  workflow_execution_id = "id-4";
  name = "audit";
  task_queue = "default";
  status = ActivityStatus.running;
  attempt = 1;
  max_attempts = 2;
  retry_backoff_ms = 1000;
  lease_owner = some "b";
  lease_expires_at = some 5_000_001_016;
  heartbeat_at = some 1016;
  fencing_token = 1;
  next_attempt_at = 1000;
  last_error = none;
  created_at = 1000;
  updated_at = 1016;
}

abbrev done_by : ActivityRow → ActivityRow
done_by a = record a { status = ActivityStatus.completed; lease_owner = none; updated_at = 1020 }

abbrev done_a : ActivityRow
done_a = done_by row_a

abbrev done_b : ActivityRow
done_b = done_by row_b

abbrev flow : WorkflowRow
flow = record {
  id = "id-4";
  namespace_id = 1;
  definition_id = 3;
  status = WorkflowStatus.running;
  created_at = 1000;
  updated_at = 1000;
}

both_activities : both.committed.activities ≡ row_a ∷ row_b ∷ []
unfolding evaluated
both_activities = refl

both_workflows : both.committed.workflows ≡ flow ∷ []
unfolding evaluated
both_workflows = refl

-- Each call alone.
abbrev after_a : Postgres
after_a = run (completes "id-7" "a" 1 ∷ []) both

abbrev after_b : Postgres
after_b = run (completes "id-9" "b" 1 ∷ []) both

after_a_activities : after_a.committed.activities ≡ done_a ∷ row_b ∷ []
unfolding evaluated
after_a_activities = refl

after_b_activities : after_b.committed.activities ≡ row_a ∷ done_b ∷ []
unfolding evaluated
after_b_activities = refl

after_a_workflows : after_a.committed.workflows ≡ flow ∷ []
unfolding evaluated
after_a_workflows = refl

after_b_workflows : after_b.committed.workflows ≡ flow ∷ []
unfolding evaluated
after_b_workflows = refl

good_a : (complete "id-7" "a" 1 both).0 ≡ good tt
unfolding evaluated
good_a = refl

good_b : (complete "id-9" "b" 1 both).0 ≡ good tt
unfolding evaluated
good_b = refl

returned_a : complete "id-7" "a" 1 both ≡ (good tt, after_a)
unfolding run serve
returned_a = returned (complete "id-7" "a" 1 both) tt good_a

returned_b : complete "id-9" "b" 1 both ≡ (good tt, after_b)
unfolding run serve
returned_b = returned (complete "id-9" "b" 1 both) tt good_b

-- Both changes together.
abbrev overlapped : Tables
overlapped = record both.committed { activities = done_a ∷ done_b ∷ []; workflows = flow ∷ [] }

-- On two rows, the change of one and the change of the other.
two_rows-first :
    (i : String) (x : ActivityRow)
    → find_activity i (row_a ∷ row_b ∷ []) ≡ some x
    → find_activity i (row_a ∷ done_b ∷ []) ≡ some x
    → find_activity i (done_a ∷ done_b ∷ []) ≡ find_activity i (done_a ∷ row_b ∷ [])
two_rows-first i x h k = elim (Bool-cases (text_eq "id-7" i)) [
  | inl one ↦ rw one refl
  | inr n ↦ elim (Bool-cases (text_eq "id-9" i)) [
    | inl two ↦ absurd (ground arith)
    | inr n' ↦ rw (n, n') refl
  ]
]

two_rows-second :
    (i : String) (x : ActivityRow)
    → find_activity i (row_a ∷ row_b ∷ []) ≡ some x
    → find_activity i (done_a ∷ row_b ∷ []) ≡ some x
    → find_activity i (done_a ∷ done_b ∷ []) ≡ find_activity i (row_a ∷ done_b ∷ [])
two_rows-second i x h k = elim (Bool-cases (text_eq "id-7" i)) [
  | inl one ↦ absurd (ground arith)
  | inr n ↦ rw n refl
]

two_rows-unknown :
    (i : String)
    → find_activity i (done_a ∷ row_b ∷ []) ≡ none
    → find_activity i (done_a ∷ done_b ∷ []) ≡ none
two_rows-unknown i h = ground arith

overlapped-Overlap : Overlap both.committed after_a.committed after_b.committed overlapped
overlapped-Overlap = record {
  first = λ i x h k.
      two_rows-first i x (ap (find_activity i) (sym both_activities) ∙ h)
        (ap (find_activity i) (sym after_b_activities) ∙ k)
      ∙ ap (find_activity i) (sym after_a_activities);
  second = λ i x h k.
      two_rows-second i x (ap (find_activity i) (sym both_activities) ∙ h)
        (ap (find_activity i) (sym after_a_activities) ∙ k)
      ∙ ap (find_activity i) (sym after_b_activities);
  unknown = λ i h k. two_rows-unknown i (ap (find_activity i) (sym after_a_activities) ∙ h);
  workflow = λ i w h k l. ap (find_workflow i) (sym both_workflows) ∙ h;
}

row_a_found : find_activity "id-7" both.committed.activities ≡ some row_a
unfolding evaluated
row_a_found = refl

row_b_found : find_activity "id-9" both.committed.activities ≡ some row_b
unfolding evaluated
row_b_found = refl

flow_found : find_workflow "id-4" both.committed.workflows ≡ some flow
unfolding evaluated
flow_found = refl

no_others :
    (i : String) (x : ActivityRow)
    → find_activity i (row_a ∷ row_b ∷ []) ≡ some x
    → text_eq i "id-7" ≡ false
    → text_eq i "id-9" ≡ false
    → (x.status ≡ ActivityStatus.completed) ⊎ (text_eq x.workflow_execution_id "id-4" ≡ false)
no_others i x h n n' =
    let m : text_eq "id-7" i ≡ false = ground (arith, text_eq_iff i "id-7", text_eq_iff "id-7" i) in
    let m' : text_eq "id-9" i ≡ false =
      ground (arith, text_eq_iff i "id-9", text_eq_iff "id-9" i) in
    absurd (ground arith)

both-IsFaultless : IsFaultless both
unfolding evaluated
both-IsFaultless k = refl

both_early : both.driver.clock both.calls < 5_000_001_012
unfolding evaluated
both_early = omega arith

a-HoldsLease : HoldsLease "id-7" "a" 1 both
a-HoldsLease = (row_a, row_a_found, refl, refl, refl, (5_000_001_012, refl, both_early))

b-HoldsLease : HoldsLease "id-9" "b" 1 both
b-HoldsLease =
    (row_b, row_b_found, refl, refl, refl, (5_000_001_016, refl, omega (arith, both_early)))

completes-Overlap :
    Overlap both.committed
      (complete "id-7" "a" 1 both).1.committed
      (complete "id-9" "b" 1 both).1.committed
      overlapped
completes-Overlap = rw (returned_a, returned_b) overlapped-Overlap

overlapping_completes_stall_example :
    ((complete "id-7" "a" 1 both).0 ≡ good tt)
    × ((complete "id-9" "b" 1 both).0 ≡ good tt)
    × ((i : String) (x : ActivityRow)
        → find_activity i overlapped.activities ≡ some x
        → x.workflow_execution_id ≡ "id-4"
        → x.status ≡ ActivityStatus.completed)
    × ((v : WorkflowRow) × (find_workflow "id-4" overlapped.workflows ≡ some v)
        × (v.status ≡ WorkflowStatus.running))
overlapping_completes_stall_example =
    overlapping_completes_stall "id-7" "id-9" "a" "b" "id-4" 1 1 row_a row_b flow both both
      overlapped both-IsReady both-IsReady both-IsFaultless both-IsFaultless refl a-HoldsLease
      b-HoldsLease refl refl row_a_found row_b_found refl refl
      (λ i x h n n'. no_others i x (ap (find_activity i) (sym both_activities) ∙ h) n n') flow_found
      refl completes-Overlap

complete_lem_example :
    Completes (both.driver.clock both.calls) "id-7" both.committed after_a.committed
complete_lem_example = complete_lem "id-7" "a" 1 both after_a both-IsReady returned_a

-- One after the other, they complete the workflow.
in_turn :
    (run (completes "id-9" "b" 1 ∷ []) after_a).committed.workflows
    ≡ record flow { status = WorkflowStatus.completed; updated_at = 1027 } ∷ []
unfolding evaluated
in_turn = refl
