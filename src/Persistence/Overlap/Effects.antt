-- ===== src/Persistence/Overlap/Effects.antt =====
-- What one Complete leaves of its own row, of the other rows, and of the workflow.
use durablego.Base.{
  ℕ, String, ◌≡◌, ◌≢◌, refl, sym, ap, ◌∙◌, inl, inr, Bool, true, false, not, ◌&&◌, List, [], ◌∷◌,
  Option, none, some, find, find-map, find-test, mapped, map, any, In, text_eq, text_eq_iff, subst,
  arith, Bool-cases,
}
use durablego.Types.{ActivityStatus, is_completed}
use durablego.Api.Backend.{good}
use durablego.Persistence.Tables.{ActivityRow, WorkflowRow, Tables, find_activity, update_where}
use durablego.Persistence.Session.{Postgres}
use durablego.Persistence.Helpers.{is_due, made_ready, is_done}
use durablego.Persistence.Lease.{complete}
use durablego.Persistence.Follows.Changes.{updated, updated-id}
use durablego.Persistence.Ends.Helpers.{due_waits}
use durablego.Persistence.Completion.Outcome.{
  but_events, completed_at, done_row, released, closed, finished,
}
use durablego.Persistence.Completion.{complete-finished}
use durablego.Persistence.History.Safety.{IsReady}

-- What a Complete makes of a row.
abbrev pub after : ℕ → String → String → Tables → ActivityRow → ActivityRow
after now id wid c a =
    updated (is_due now wid (done_row now id c)) (made_ready now)
      (updated (λ (x : ActivityRow). text_eq x.id id) (completed_at now) a)

mapped_twice :
    {A : Type 0} (f g : A → A) (o : Option A) → mapped f (mapped g o) ≡ mapped (λ a. f (g a)) o
mapped_twice f g none = refl
mapped_twice f g (some a) = refl

map-In : {A B : Type 0} (f : A → B) (xs : List A) (a : A) → In a xs → In (f a) (map f xs)
map-In f [] a m = absurd m
map-In f (x ∷ xs) a (inl e) = inl (ap f e)
map-In f (x ∷ xs) a (inr m) = inr (map-In f xs a m)

any-In :
    {A : Type 0} (test : A → Bool) (xs : List A) (a : A)
    → In a xs
    → test a ≡ true
    → any test xs ≡ true
any-In test [] a m h = absurd m
any-In test (x ∷ xs) a (inl e) h = let hit : test x ≡ true = ap test (sym e) ∙ h in rw hit refl
any-In test (x ∷ xs) a (inr m) h = ground (arith, any-In test xs a m h)

update_where-none :
    {A : Type 0} (p : A → Bool) (f : A → A) (xs : List A)
    → ((a : A) → p a ≡ false)
    → update_where p f xs ≡ xs
update_where-none p f [] h = refl
update_where-none p f (x ∷ xs) h = rw (h x) (ap (λ l. x ∷ l) (update_where-none p f xs h))

completed-not_due :
    (now : ℕ) (wid : String) (t : Tables) (a : ActivityRow)
    → is_due now wid t (completed_at now a) ≡ false
unfolding is_due
completed-not_due now wid t a = refl

elsewhere-not_due :
    (now : ℕ) (wid : String) (t : Tables) (a : ActivityRow)
    → text_eq wid "" ≡ false
    → text_eq a.workflow_execution_id wid ≡ false
    → is_due now wid t a ≡ false
unfolding is_due
elsewhere-not_due now wid t a named n = rw (named, n) (ground arith)

-- A workflow with a running activity is not done.
open_activity-not_done :
    (wid : String) (t : Tables) (w : WorkflowRow) (b : ActivityRow)
    → In b t.activities
    → b.workflow_execution_id ≡ wid
    → b.status ≡ ActivityStatus.running
    → is_done wid t w ≡ false
unfolding is_done
open_activity-not_done wid t w b m same runs =
    let mine : text_eq b.workflow_execution_id wid ≡ true =
      (text_eq_iff b.workflow_execution_id wid).1 same in
    let open_still =
      any-In
        (λ (a : ActivityRow). text_eq a.workflow_execution_id wid && not (is_completed a.status))
        t.activities b m (rw (mine, runs) refl) in
    rw open_still (ground arith)

module _ (now : ℕ) (id wid : String) (c : Tables) where
  pub found_after :
      (i : String)
      → find_activity i (finished now id wid c).activities
        ≡ mapped (after now id wid c) (find_activity i c.activities)
  unfolding closed released done_row
  found_after i =
      find-map (λ (x : ActivityRow). text_eq x.id i)
        (updated (is_due now wid (done_row now id c)) (made_ready now))
        (updated-id (is_due now wid (done_row now id c)) (made_ready now) (λ a. refl) i)
        (update_where (λ (a : ActivityRow). text_eq a.id id) (completed_at now) c.activities)
      ∙ ap (mapped (updated (is_due now wid (done_row now id c)) (made_ready now))) (
          find-map (λ (x : ActivityRow). text_eq x.id i)
            (updated (λ (a : ActivityRow). text_eq a.id id) (completed_at now))
            (updated-id (λ (a : ActivityRow). text_eq a.id id) (completed_at now) (λ a. refl) i)
            c.activities)
      ∙ mapped_twice _ _ (find_activity i c.activities)

  -- Its own row.
  pub after-own :
      (a : ActivityRow) → a.id ≡ id → (after now id wid c a).status ≡ ActivityStatus.completed
  after-own a e =
      let hit : text_eq a.id id ≡ true = (text_eq_iff a.id id).1 e in
      rw (hit, completed-not_due now wid (done_row now id c) a) refl

  -- A row of another activity that does not wait.
  pub after-other :
      (a : ActivityRow)
      → text_eq a.id id ≡ false
      → a.status ≢ ActivityStatus.retry_pending
      → after now id wid c a ≡ a
  after-other a e n = elim (Bool-cases (is_due now wid (done_row now id c) a)) [
    | inl due ↦ absurd (n (due_waits now wid (done_row now id c) a due))
    | inr not_yet ↦ rw (e, not_yet) refl
  ]

  -- A workflow with an activity that is not completed stays as it is.
  pub workflows-kept :
      (b : ActivityRow)
      → In b c.activities
      → text_eq b.id id ≡ false
      → b.status ≡ ActivityStatus.running
      → b.workflow_execution_id ≡ wid
      → (finished now id wid c).workflows ≡ c.workflows
  unfolding closed released done_row
  workflows-kept b m e runs same = update_where-none _ _ c.workflows (λ w.
      open_activity-not_done wid (released now wid (done_row now id c)) w b
        (subst (λ (x : ActivityRow). In x (finished now id wid c).activities)
          (after-other b e (λ h. ground arith)) (map-In _ _ _ (map-In _ _ _ m)))
        same runs)

  -- A row of another workflow.
  pub after-elsewhere :
      (a : ActivityRow)
      → text_eq a.id id ≡ false
      → text_eq wid "" ≡ false
      → text_eq a.workflow_execution_id wid ≡ false
      → after now id wid c a ≡ a
  after-elsewhere a e named n = rw (e, elsewhere-not_due now wid (done_row now id c) a named n) refl

pub find-In : {A : Type 0} (test : A → Bool) (xs : List A) (a : A) → find test xs ≡ some a → In a xs
find-In test [] a h = absurd (cc)
find-In test (x ∷ xs) a h = elim (Bool-cases (test x)) [
  | inl hit ↦ let same : x ≡ a = ground arith in inl (sym same)
  | inr miss ↦ inr (find-In test xs a (rw miss at h))
]

pub found_id :
    (i : String) (y : ActivityRow) (c : Tables) → find_activity i c.activities ≡ some y → y.id ≡ i
found_id i y c h =
    (text_eq_iff y.id i).0 (find-test (λ (x : ActivityRow). text_eq x.id i) c.activities y h)

pub running-not_waiting :
    (a : ActivityRow) → a.status ≡ ActivityStatus.running → a.status ≢ ActivityStatus.retry_pending
running-not_waiting a runs w = ground arith

-- A Complete that returned, of the activity `a` of the workflow `wid`, on the tables `c`.
pub record Effect (id wid : String) (a : ActivityRow) (c t : Tables) : Type 0 where
  pub now : ℕ
  pub runs : a.status ≡ ActivityStatus.running
  pub activities : t.activities ≡ (finished now id wid c).activities
  pub workflows : t.workflows ≡ (finished now id wid c).workflows

pub complete-Effect :
    (id worker wid : String) (token : ℕ) (a : ActivityRow) (p q : Postgres)
    → IsReady p
    → find_activity id p.committed.activities ≡ some a
    → a.workflow_execution_id ≡ wid
    → complete id worker token p ≡ (good tt, q)
    → Effect id wid a p.committed q.committed
complete-Effect id worker wid token a p q r h of_wid e =
    let (b, found, runs, left) = complete-finished id worker token p q r e in
    let b≡a : b ≡ a = ground arith in
    let same =
      left
      ∙ ap (λ w. but_events (finished (p.driver.clock p.calls) id w p.committed))
          (ap (λ (x : ActivityRow). x.workflow_execution_id) b≡a ∙ of_wid) in
    record {
      now = p.driver.clock p.calls;
      runs = ap (λ (x : ActivityRow). x.status) (sym b≡a) ∙ runs;
      activities = ap (λ (t : Tables). t.activities) same;
      workflows = ap (λ (t : Tables). t.workflows) same;
    }
