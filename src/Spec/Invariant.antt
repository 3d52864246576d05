-- ===== src/Spec/Invariant.antt =====
-- The invariant of the rows: counters and fencing tokens, the index of each workflow, what a
-- completed or failed row implies, and that nothing runs before its dependencies are completed.
pub mod Rows
pub mod Opens
pub mod Moves
use durablego.Base.{
  ℕ, suc, ◌+◌, ◌≤◌, ◌<◌, String, ◌≡◌, ◌≢◌, refl, ◌⊎◌, inl, inr, List, [], ◌∷◌, Option, none, some,
  get, All, In, All-In, All-of_In, All-map, arith,
}
use durablego.Types.{Workflow, WorkflowStatus, Activity, ActivityStatus}
use durablego.Board.{Board, ids_of}
use durablego.Spec.Move.{DepDone, DepsDone}
use durablego.Spec.Later.{Kept, Later}
use durablego.Spec.Kept.{HasFreshIds}

-- The attempt number and the fencing token are one number, within the attempts that are allowed;
-- a row that may be claimed again has an attempt left.
pub record Counts (a : Activity) : Type 0 where
  pub fenced : a.attempt ≡ a.fencing_token
  pub within : a.attempt ≤ a.max_attempts
  pub room :
      (a.status ≡ ActivityStatus.ready) ⊎ (a.status ≡ ActivityStatus.retry_pending)
      → a.attempt < a.max_attempts

-- The row's workflow is known, and failed if the row has.
abbrev pub HasHome : Board → Activity → Type 0
HasHome b a =
    (w : Workflow) × (get a.workflow_id b.workflows ≡ some w)
    × (a.status ≡ ActivityStatus.failed → w.status ≡ WorkflowStatus.failed)

-- The row has been ready at some time.
abbrev pub HasBegun : Activity → Type 0
HasBegun a = (a.status ≢ ActivityStatus.retry_pending) × (a.status ≢ ActivityStatus.cancelled)

abbrev pub IsListed : Board → String → String → Type 0
IsListed b wid id = (a : Activity) × (get id b.activities ≡ some a) × (a.workflow_id ≡ wid)

pub record IsValid (b : Board) : Type 0 where
  pub counts : (id : String) (a : Activity) → get id b.activities ≡ some a → Counts a
  pub ident : (id : String) (a : Activity) → get id b.activities ≡ some a → a.id ≡ id
  pub workflow_ident : (wid : String) (w : Workflow) → get wid b.workflows ≡ some w → w.id ≡ wid
  pub home : (id : String) (a : Activity) → get id b.activities ≡ some a → HasHome b a
  pub deps : (id : String) (a : Activity) → get id b.activities ≡ some a → HasBegun a → DepsDone b a
  pub listed : (wid : String) → All (IsListed b wid) (ids_of b wid)
  pub indexed :
      (id : String) (a : Activity) → get id b.activities ≡ some a → In id (ids_of b a.workflow_id)
  pub done :
      (wid : String) (w : Workflow)
      → get wid b.workflows ≡ some w
      → w.status ≡ WorkflowStatus.completed
      → (id : String) (a : Activity) → get id b.activities ≡ some a
      → a.workflow_id ≡ wid
      → a.status ≡ ActivityStatus.completed
  pub fresh : HasFreshIds b

-- A dependency that is met stays met on a later board with the same index.
pub DepDone-Later :
    (b b' : Board) (wid dep : String)
    → Later b b'
    → ids_of b' wid ≡ ids_of b wid
    → All (IsListed b wid) (ids_of b wid)
    → DepDone b wid dep
    → DepDone b' wid dep
DepDone-Later b b' wid dep l same known d = record { found = found'; every = rw same every' }
  where
    found' :
        (id : String) × In id (ids_of b' wid)
        × ((u : Activity) × (get id b'.activities ≡ some u) × (u.name ≡ dep))
    found' =
        let (id, m, (u, e, n)) = d.found in
        let (u', e', k) = l.activity id u e in (id, rw same m, (u', e', ground arith))

    every' :
        All
          (λ id.
            (u : Activity)
            → get id b'.activities ≡ some u
            → u.name ≡ dep
            → u.status ≡ ActivityStatus.completed)
          (ids_of b wid)
    every' = All-of_In (ids_of b wid) λ id m u e n.
        let (v, ev, _) = All-In (IsListed b wid) (ids_of b wid) known id m in
        let (v', ev', k) = l.activity id v ev in
        ground (arith, All-In _ (ids_of b wid) d.every id m v ev)

pub DepsDone-Later :
    (b b' : Board) (a a' : Activity)
    → Later b b'
    → a'.workflow_id ≡ a.workflow_id
    → a'.depends_on ≡ a.depends_on
    → ids_of b' a.workflow_id ≡ ids_of b a.workflow_id
    → All (IsListed b a.workflow_id) (ids_of b a.workflow_id)
    → DepsDone b a
    → DepsDone b' a'
DepsDone-Later b b' a a' l home same ids known d =
    rw (home, same)
      (All-map a.depends_on (λ dep. DepDone-Later b b' a.workflow_id dep l ids known) d)
