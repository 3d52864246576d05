-- ===== src/Persistence/Completed.antt =====
-- What a successful Complete of the Postgres backend leaves: which rows change, and how.
use durablego.Base.{
  ℕ, ◌≤◌, String, ◌≡◌, refl, sym, ap, subst, ◌∙◌, ◌⊎◌, inl, inr, ◌↔◌, Bool, true, false, not, ◌&&◌,
  List, [], ◌∷◌, some, any, In, text_eq, text_eq_iff, arith, Bool-cases,
}
use durablego.Types.{ActivityStatus, WorkflowStatus, is_completed}
use durablego.Api.Backend.{good}
use durablego.Persistence.Tables.{
  ActivityRow, WorkflowRow, DependencyRow, Tables, find_activity, update_where,
}
use durablego.Persistence.Session.{Postgres}
use durablego.Persistence.Helpers.{is_blocked, is_due, is_done}
use durablego.Persistence.Lease.{complete}
use durablego.Persistence.History.Safety.{IsReady}
use durablego.Persistence.Completion.{complete-finished}
use durablego.Persistence.Completion.Outcome.{
  but_events, completed_at, done_row, released, closed, finished,
}

-- The activity that the dependency names is completed, in every row of it.
abbrev pub IsMet : List ActivityRow → DependencyRow → Type 0
IsMet rows d =
    (x : ActivityRow)
    → In x rows
    → x.workflow_execution_id ≡ d.workflow_execution_id
    → x.name ≡ d.depends_on_name
    → x.status ≡ ActivityStatus.completed

-- The row waits, its time has come, it is of the workflow (or the workflow is ""), and all that it depends
-- on is completed.
abbrev pub IsDue : ℕ → String → List DependencyRow → List ActivityRow → ActivityRow → Type 0
IsDue now wid dependencies rows a =
    (a.status ≡ ActivityStatus.retry_pending)
    × (a.next_attempt_at ≤ now)
    × ((wid ≡ "") ⊎ (a.workflow_execution_id ≡ wid))
    × ((d : DependencyRow)
        → In d dependencies
        → d.workflow_execution_id ≡ a.workflow_execution_id
        → d.activity_name ≡ a.name
        → IsMet rows d)

-- The workflow runs, and all its activities are completed.
abbrev pub IsFinished : String → List ActivityRow → WorkflowRow → Type 0
IsFinished wid rows w =
    (w.id ≡ wid)
    × (w.status ≡ WorkflowStatus.running)
    × ((x : ActivityRow)
        → In x rows
        → x.workflow_execution_id ≡ wid
        → x.status ≡ ActivityStatus.completed)

any-none :
    {A : Type 0} (test : A → Bool) (xs : List A)
    → ((x : A) → In x xs → test x ≡ false)
    → any test xs ≡ false
any-none test [] h = refl
any-none test (x ∷ xs) h =
    let head = h x (inl refl) in let tail = any-none test xs (λ y m. h y (inr m)) in ground arith

none-any :
    {A : Type 0} (test : A → Bool) (xs : List A) (x : A)
    → any test xs ≡ false
    → In x xs
    → test x ≡ false
none-any test [] x h m = absurd m
none-any test (y ∷ xs) x h (inl e) = let f : test y ≡ false = ground arith in ap test e ∙ f
none-any test (y ∷ xs) x h (inr m) = none-any test xs x (ground arith) m

-- The inner query finds nothing exactly when the dependency is met.
unmet : List ActivityRow → DependencyRow → Bool
unmet rows d =
    any
      (λ (x : ActivityRow).
        text_eq x.workflow_execution_id d.workflow_execution_id
        && text_eq x.name d.depends_on_name
        && not (is_completed x.status))
      rows

unmet-IsMet : (rows : List ActivityRow) (d : DependencyRow) → unmet rows d ≡ false → IsMet rows d
unfolding unmet
unmet-IsMet rows d h x m home named =
    let off = none-any _ rows x h m in
    ground (
      arith,
      off,
      (text_eq_iff x.workflow_execution_id d.workflow_execution_id).1 home,
      (text_eq_iff x.name d.depends_on_name).1 named,
    )

IsMet-unmet : (rows : List ActivityRow) (d : DependencyRow) → IsMet rows d → unmet rows d ≡ false
unfolding unmet
IsMet-unmet rows d h = any-none _ rows (λ x m.
    elim (Bool-cases (text_eq x.workflow_execution_id d.workflow_execution_id)) [
      | inr away ↦ ground arith
      | inl home ↦ elim (Bool-cases (text_eq x.name d.depends_on_name)) [
        | inr other ↦ ground arith
        | inl named ↦
            let done =
              h x m ((text_eq_iff x.workflow_execution_id d.workflow_execution_id).0 home)
                ((text_eq_iff x.name d.depends_on_name).0 named) in
            ground arith
      ]
    ])

is_due-IsDue :
    (now : ℕ) (wid : String) (t : Tables) (a : ActivityRow)
    → is_due now wid t a ≡ true
    → IsDue now wid t.dependencies t.activities a
unfolding is_due is_blocked unmet
is_due-IsDue now wid t a h = (
  ground arith,
  ground arith,
  elim (Bool-cases (text_eq wid "")) [
    | inl all ↦ inl ((text_eq_iff wid "").0 all)
    | inr one ↦ inr ((text_eq_iff a.workflow_execution_id wid).0 (ground arith))
  ],
  λ d m home named.
      let open_ : is_blocked t a ≡ false = ground arith in
      let off = none-any _ t.dependencies d open_ m in
      unmet-IsMet t.activities d (
        ground (
          arith,
          off,
          (text_eq_iff d.workflow_execution_id a.workflow_execution_id).1 home,
          (text_eq_iff d.activity_name a.name).1 named,
        )),
)

IsDue-is_due :
    (now : ℕ) (wid : String) (t : Tables) (a : ActivityRow)
    → IsDue now wid t.dependencies t.activities a
    → is_due now wid t a ≡ true
unfolding is_due is_blocked unmet
IsDue-is_due now wid t a (waits, due, scope, met) =
    let free : is_blocked t a ≡ false = any-none _ t.dependencies (λ d m.
      elim (Bool-cases (text_eq d.workflow_execution_id a.workflow_execution_id)) [
        | inr away ↦ ground arith
        | inl home ↦ elim (Bool-cases (text_eq d.activity_name a.name)) [
          | inr other ↦ ground arith
          | inl named ↦
              let off = IsMet-unmet t.activities d (
                met d m ((text_eq_iff d.workflow_execution_id a.workflow_execution_id).0 home)
                  ((text_eq_iff d.activity_name a.name).0 named)) in
              ground (arith, off)
        ]
      ]) in
    elim scope [
      | inl all ↦ ground (arith, (text_eq_iff wid "").1 all)
      | inr one ↦ ground (arith, (text_eq_iff a.workflow_execution_id wid).1 one)
    ]

is_done-IsFinished :
    (wid : String) (t : Tables) (w : WorkflowRow)
    → is_done wid t w ≡ true
    → IsFinished wid t.activities w
unfolding is_done
is_done-IsFinished wid t w h = (
  (text_eq_iff w.id wid).0 (ground arith),
  ground arith,
  λ x m home.
      let test =
        λ (y : ActivityRow). text_eq y.workflow_execution_id wid && not (is_completed y.status) in
      let nothing : any test t.activities ≡ false = ground arith in
      let off = none-any test t.activities x nothing m in
      ground (arith, off, (text_eq_iff x.workflow_execution_id wid).1 home),
)

IsFinished-is_done :
    (wid : String) (t : Tables) (w : WorkflowRow)
    → IsFinished wid t.activities w
    → is_done wid t w ≡ true
unfolding is_done
IsFinished-is_done wid t w (same, runs, all) =
    let none_left =
      any-none
        (λ (x : ActivityRow). text_eq x.workflow_execution_id wid && not (is_completed x.status))
        t.activities
        (λ x m. elim (Bool-cases (text_eq x.workflow_execution_id wid)) [
          | inr away ↦ ground arith
          | inl home ↦
              let done = all x m ((text_eq_iff x.workflow_execution_id wid).0 home) in ground arith
        ]) in
    ground (arith, none_left, (text_eq_iff w.id wid).1 same)

abbrev ready_at : ℕ → ActivityRow → ActivityRow
ready_at now a = record a { status = ActivityStatus.ready; updated_at = now }

abbrev completed_flow : ℕ → WorkflowRow → WorkflowRow
completed_flow now w = record w { status = WorkflowStatus.completed; updated_at = now }

-- The rows of the activities after the one with the id is completed.
abbrev done_rows : ℕ → String → List ActivityRow → List ActivityRow
done_rows now id rows = update_where (λ (a : ActivityRow). text_eq a.id id) (completed_at now) rows

-- `c` became `t` by a Complete at the time `now`: the activity ran and is completed, the waiting rows
-- of its workflow that are due then are ready, the workflow is completed if it ran and all its activities
-- are completed, and no other row but of the events has changed.
pub record Completes (now : ℕ) (id : String) (c t : Tables) : Type 0 where
  pub row : ActivityRow
  pub found : find_activity id c.activities ≡ some row
  pub runs : row.status ≡ ActivityStatus.running
  pub due : ActivityRow → Bool
  pub due_IsDue :
      (b : ActivityRow)
      → (due b ≡ true)
        ↔ IsDue now row.workflow_execution_id c.dependencies (done_rows now id c.activities) b
  pub activities : t.activities ≡ update_where due (ready_at now) (done_rows now id c.activities)
  pub over : WorkflowRow → Bool
  pub over_IsFinished :
      (w : WorkflowRow) → (over w ≡ true) ↔ IsFinished row.workflow_execution_id t.activities w
  pub workflows : t.workflows ≡ update_where over (completed_flow now) c.workflows
  pub dependencies : t.dependencies ≡ c.dependencies
  pub keys : t.keys ≡ c.keys
  pub namespaces : t.namespaces ≡ c.namespaces
  pub definitions : t.definitions ≡ c.definitions

finished-Completes :
    (now : ℕ) (id : String) (c t : Tables) (row : ActivityRow)
    → find_activity id c.activities ≡ some row
    → row.status ≡ ActivityStatus.running
    → but_events t ≡ but_events (finished now id row.workflow_execution_id c)
    → Completes now id c t
unfolding closed released done_row
finished-Completes now id c t row found runs left =
    let wid = row.workflow_execution_id in
    let done = done_row now id c in
    let ready = released now wid done in
    let rows : t.activities ≡ ready.activities = ap (λ (u : Tables). u.activities) left in
    record {
      row = row;
      found = found;
      runs = runs;
      due = is_due now wid done;
      due_IsDue = λ b. (is_due-IsDue now wid done b, IsDue-is_due now wid done b);
      activities = rows;
      over = is_done wid ready;
      over_IsFinished = λ w.
          subst (λ acts. (is_done wid ready w ≡ true) ↔ IsFinished wid acts w) (sym rows)
            (is_done-IsFinished wid ready w, IsFinished-is_done wid ready w);
      workflows = ap (λ (u : Tables). u.workflows) left;
      dependencies = ap (λ (u : Tables). u.dependencies) left;
      keys = ap (λ (u : Tables). u.keys) left;
      namespaces = ap (λ (u : Tables). u.namespaces) left;
      definitions = ap (λ (u : Tables). u.definitions) left;
    }

-- A Complete of the Postgres backend that returns no error found the activity running and has completed
-- it, with its lease given up. Of the rows as they are then, it has made ready exactly those of the
-- workflow that wait, whose time has come, and all of whose dependencies are completed; it has
-- completed the workflow exactly if it ran and all its activities are completed; and it has changed no
-- other row, but for the events.
pub complete_lem :
    (id worker : String) (token : ℕ) (p q : Postgres)
    → IsReady p
    → complete id worker token p ≡ (good tt, q)
    → Completes (p.driver.clock p.calls) id p.committed q.committed
complete_lem id worker token p q r e =
    let (row, found, runs, left) = complete-finished id worker token p q r e in
    finished-Completes (p.driver.clock p.calls) id p.committed q.committed row found runs left
