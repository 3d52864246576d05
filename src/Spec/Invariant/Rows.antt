-- ===== src/Spec/Invariant/Rows.antt =====
-- A write to a row in use keeps the invariant.
use durablego.Base.{
  String, ◌≡◌, refl, sym, ◌∙◌, inl, List, some, get, All, In, All-map, put-Forall, put-relates,
  get-put_absent,
}
use durablego.Types.{Workflow, WorkflowStatus, Activity, ActivityStatus}
use durablego.Board.{Board, put_activity, put_workflow, ids_of}
use durablego.Spec.Move.{DepsDone}
use durablego.Spec.Later.{Kept, KeptWorkflow, Later}
use durablego.Spec.Kept.{put_activity-Later, put_workflow-Later}
use durablego.Spec.Invariant.{Counts, HasHome, HasBegun, IsListed, IsValid, DepsDone-Later}

pub IsListed-Later :
    (b b' : Board) (wid : String) (ids : List String)
    → Later b b'
    → All (IsListed b wid) ids
    → All (IsListed b' wid) ids
IsListed-Later b b' wid ids l =
    All-map ids
      λ id (a, e, home). let (a', e', k) = l.activity id a e in (a', e', k.same_workflow ∙ home)

-- `DepsDone-Later` for a row that itself stays.
pub DepsDone-stays :
    (b b' : Board) (a : Activity)
    → IsValid b
    → Later b b'
    → ids_of b' a.workflow_id ≡ ids_of b a.workflow_id
    → DepsDone b a
    → DepsDone b' a
DepsDone-stays b b' a v l same = DepsDone-Later b b' a a l refl refl same (v.listed a.workflow_id)

module _ (b : Board) (id : String) (a a' : Activity) (e : get id b.activities ≡ some a)
    (k : Kept a a') (c : Counts a')
    (fails : a'.status ≡ ActivityStatus.failed
      → (w : Workflow) → get a.workflow_id b.workflows ≡ some w
      → w.status ≡ WorkflowStatus.failed)
    (begun : HasBegun a' → DepsDone b a) (v : IsValid b) where
  b' : Board
  b' = put_activity id a' b

  later : Later b b'
  unfolding b'
  later = put_activity-Later b id a a' e k

  home : HasHome b a'
  home = let (w, ew, _) = v.home id a e in (w, rw k.same_workflow ew, λ h. fails h w ew)

  pub put_activity-IsValid : IsValid (put_activity id a' b)
  unfolding b'
  put_activity-IsValid = record {
    counts = put-Forall (λ _ x. Counts x) id a' b.activities c v.counts;
    ident = put-Forall (λ i x. x.id ≡ i) id a' b.activities (k.same_id ∙ v.ident id a e) v.ident;
    workflow_ident = v.workflow_ident;
    home = put-Forall (λ _ x. HasHome b x) id a' b.activities home v.home;
    deps =
        put-Forall (λ _ x. HasBegun x → DepsDone b' x) id a' b.activities
          (λ h.
            DepsDone-Later b b' a a' later k.same_workflow k.same_deps refl (v.listed a.workflow_id)
              (begun h))
          (λ i x ex h. DepsDone-stays b b' x v later refl (v.deps i x ex h));
    listed = λ wid. IsListed-Later b b' wid (ids_of b wid) later (v.listed wid);
    indexed =
        put-Forall (λ i x. In i (ids_of b x.workflow_id)) id a' b.activities
          (rw k.same_workflow (v.indexed id a e)) v.indexed;
    done = λ wid w ew h.
        put-Forall (λ _ x. x.workflow_id ≡ wid → x.status ≡ ActivityStatus.completed) id a'
          b.activities
          (λ hw.
            let was : a.status ≡ ActivityStatus.completed =
              v.done wid w ew h id a e (sym k.same_workflow ∙ hw) in
            k.ended (inl was) ∙ was)
          (v.done wid w ew h);
    fresh = record {
      workflow = v.fresh.workflow;
      activity = λ n h. get-put_absent id _ a a' b.activities e (v.fresh.activity n h);
    };
  }

module _ (b : Board) (wid : String) (w w' : Workflow) (e : get wid b.workflows ≡ some w)
    (k : KeptWorkflow w w')
    (finished : w'.status ≡ WorkflowStatus.completed
      → (id : String) (a : Activity) → get id b.activities ≡ some a
      → a.workflow_id ≡ wid
      → a.status ≡ ActivityStatus.completed)
    (v : IsValid b) where
  pub put_workflow-IsValid : IsValid (put_workflow wid w' b)
  put_workflow-IsValid = record {
    counts = v.counts;
    ident = v.ident;
    workflow_ident =
        put-Forall (λ i x. x.id ≡ i) wid w' b.workflows (k.same_id ∙ v.workflow_ident wid w e)
          v.workflow_ident;
    home = λ id a ea.
        let (u, eu, f) = v.home id a ea in
        let (u', eu', r) =
          put-relates
            (λ (x y : Workflow).
              x.status ≡ WorkflowStatus.failed → y.status ≡ WorkflowStatus.failed)
            wid a.workflow_id w w' u b.workflows (λ x h. h) e k.failed_stays eu in
        (u', eu', λ h. r (f h));
    deps = λ id a ea h.
        DepsDone-stays b (put_workflow wid w' b) a v (put_workflow-Later b wid w w' e k) refl
          (v.deps id a ea h);
    listed = v.listed;
    indexed = v.indexed;
    done =
        put-Forall
          (λ i (x : Workflow).
            x.status ≡ WorkflowStatus.completed
            → (id : String) (a : Activity) → get id b.activities ≡ some a
            → a.workflow_id ≡ i
            → a.status ≡ ActivityStatus.completed)
          wid w' b.workflows finished v.done;
    fresh = record {
      workflow = λ n h. get-put_absent wid _ w w' b.workflows e (v.fresh.workflow n h);
      activity = v.fresh.activity;
    };
  }
