-- ===== src/Spec/Invariant/Opens.antt =====
-- A new workflow and a new activity keep the invariant: their ids are fresh.

use durablego.Base.{
  ℕ, suc, String, ◌≡◌, ◌≢◌, refl, sym, ap, ◌∙◌, ◌⊎◌, inl, inr, [], ◌∷◌, ◌++◌, none, some, get, put,
  items, All, In, All-append, In-append_left, In-append_right, arith, put-Forall, get-put_new,
  get-put_ne, get-put_self, text_eq, text_eq_iff, Bool-cases, padded, padded_injective,
  concat_cancel_left,
}
use durablego.Types.{Workflow, WorkflowStatus, Activity, ActivityStatus}
use durablego.Board.{Board, ids_of, workflow_id_of, activity_id_of}
use durablego.Engine.Start.{add_row, add_workflow}
use durablego.Spec.Move.{DepsDone, NotBegun, NewRow}
use durablego.Spec.Later.{Later}
use durablego.Spec.Kept.{add_row-Later, add_workflow-Later}
use durablego.Spec.Invariant.{Counts, HasHome, HasBegun, IsListed, IsValid}
use durablego.Spec.Invariant.Rows.{IsListed-Later, DepsDone-stays}

-- Ids of different numbers differ.
pub workflow_id_of-ne : (m n : ℕ) → m ≢ n → workflow_id_of m ≢ workflow_id_of n
workflow_id_of-ne m n h e =
    h (padded_injective m n (concat_cancel_left "wf_" (padded m) (padded n) e))

pub activity_id_of-ne : (m n : ℕ) → m ≢ n → activity_id_of m ≢ activity_id_of n
activity_id_of-ne m n h e =
    h (padded_injective m n (concat_cancel_left "act_" (padded m) (padded n) e))

module _ (b : Board) (w : Workflow) (named : w.id ≡ workflow_id_of (suc b.next_workflow))
    (live : w.status ≡ WorkflowStatus.running) (v : IsValid b) where
  unused : get w.id b.workflows ≡ none
  unused = rw named (v.fresh.workflow (suc b.next_workflow) (omega arith))

  later : Later b (add_workflow w b)
  later = add_workflow-Later b w unused

  pub add_workflow-IsValid : IsValid (add_workflow w b)
  unfolding add_workflow
  add_workflow-IsValid = record {
    counts = v.counts;
    ident = v.ident;
    workflow_ident = put-Forall (λ i x. x.id ≡ i) w.id w b.workflows refl v.workflow_ident;
    home = λ id a ea.
        let (u, eu, f) = v.home id a ea in
        (u, get-put_new w.id a.workflow_id w u b.workflows unused eu, f);
    deps = λ id a ea h. DepsDone-stays b (add_workflow w b) a v later refl (v.deps id a ea h);
    listed = v.listed;
    indexed = v.indexed;
    done =
        put-Forall
          (λ i (x : Workflow).
            x.status ≡ WorkflowStatus.completed
            → (id : String) (a : Activity) → get id b.activities ≡ some a
            → a.workflow_id ≡ i
            → a.status ≡ ActivityStatus.completed)
          w.id w b.workflows (λ h. absurd (cc)) v.done;
    fresh = record {
      workflow = λ n h.
          get-put_ne w.id _ w b.workflows
            (rw named (workflow_id_of-ne (suc b.next_workflow) n (omega arith)))
          ∙ v.fresh.workflow n (omega arith);
      activity = v.fresh.activity;
    };
  }

module _ (b : Board) (wid : String) (w : Workflow) (row : Activity)
    (ew : get wid b.workflows ≡ some w) (live : w.status ≡ WorkflowStatus.running)
    (r : NewRow b wid row)
    (waiting : (id : String) (a : Activity)
      → get id b.activities ≡ some a
      → a.workflow_id ≡ wid
      → NotBegun a)
    (v : IsValid b) where
  b' : Board
  b' = add_row wid row b

  free : get row.id b.activities ≡ none
  free = rw r.named (v.fresh.activity (suc b.next_activity) (omega arith))

  row-Later : Later b b'
  unfolding b'
  row-Later = add_row-Later b wid row free

  -- The index of a workflow after the write.
  ids-add_row :
      (x : String)
      → ((wid ≢ x) × (ids_of b' x ≡ ids_of b x))
        ⊎ ((wid ≡ x) × (ids_of b' x ≡ ids_of b x ++ row.id ∷ []))
  unfolding b' add_row
  ids-add_row x = elim (Bool-cases (text_eq wid x)) [
    | inl hit ↦ let e : wid ≡ x = (text_eq_iff wid x).0 hit in inr (e, subst-ids e)
    | inr miss ↦
        let n : wid ≢ x = λ e. absurd (ground (arith, (text_eq_iff wid x).1 e)) in
        inl (n, ap items (get-put_ne wid x _ b.activity_by_wf n))
  ]
    where
      subst-ids :
          wid ≡ x
          → items (get x (put wid (ids_of b wid ++ row.id ∷ []) b.activity_by_wf))
            ≡ ids_of b x ++ row.id ∷ []
      subst-ids e = rw (← e) (ap items (get-put_self wid _ b.activity_by_wf))

  row-DepsDone : HasBegun row → DepsDone b' row
  row-DepsDone h = elim r.waits [ inl q ↦ absurd (h.0 q) | inr (_, d) ↦ rw d tt ]

  others-DepsDone :
      (id : String) (a : Activity) → get id b.activities ≡ some a → HasBegun a → DepsDone b' a
  others-DepsDone id a e h = elim (ids-add_row a.workflow_id) [
    | inl (_, same) ↦ DepsDone-stays b b' a v row-Later same (v.deps id a e h)
    | inr (here, _) ↦ elim (waiting id a e (sym here)) [ inl q ↦ absurd (h.0 q) | inr d ↦ rw d tt ]
  ]

  row-IsListed : (x : String) → All (IsListed b' x) (ids_of b' x)
  unfolding b' add_row
  row-IsListed x = elim (ids-add_row x) [
    | inl (_, same) ↦ rw same (IsListed-Later b b' x (ids_of b x) row-Later (v.listed x))
    | inr (here, more) ↦ rw more (
        All-append (IsListed b' x) (ids_of b x) (row.id ∷ [])
          (IsListed-Later b b' x (ids_of b x) row-Later (v.listed x))
          ((row, get-put_self row.id row b.activities, r.home ∙ here), tt))
  ]

  row-indexed : In row.id (ids_of b' row.workflow_id)
  row-indexed = elim (ids-add_row row.workflow_id) [
    | inl (away, _) ↦ absurd (away (sym r.home))
    | inr (_, more) ↦
        rw more (In-append_right row.id (ids_of b row.workflow_id) (row.id ∷ []) (inl refl))
  ]

  others-indexed :
      (id : String) (a : Activity) → get id b.activities ≡ some a → In id (ids_of b' a.workflow_id)
  others-indexed id a e = elim (ids-add_row a.workflow_id) [
    | inl (_, same) ↦ rw same (v.indexed id a e)
    | inr (_, more) ↦
        rw more (In-append_left id (ids_of b a.workflow_id) (row.id ∷ []) (v.indexed id a e))
  ]

  row-Counts : Counts row
  row-Counts = ground (arith, r)

  row-home : HasHome b row
  row-home = (w, rw r.home ew, λ h. ground (arith, r.waits))

  not-completed :
      (x : String) (u : Workflow)
      → get x b.workflows ≡ some u
      → u.status ≡ WorkflowStatus.completed
      → row.workflow_id ≡ x
      → row.status ≡ ActivityStatus.completed
  not-completed x u eu h here =
      let same : x ≡ wid = sym here ∙ r.home in
      let eu' : get wid b.workflows ≡ some u = rw same at eu in absurd (ground arith)

  pub add_row-IsValid : IsValid (add_row wid row b)
  unfolding b' add_row
  add_row-IsValid = record {
    counts = put-Forall (λ _ x. Counts x) row.id row b.activities row-Counts v.counts;
    ident = put-Forall (λ i x. x.id ≡ i) row.id row b.activities refl v.ident;
    workflow_ident = v.workflow_ident;
    home = put-Forall (λ _ x. HasHome b x) row.id row b.activities row-home v.home;
    deps =
        put-Forall (λ _ x. HasBegun x → DepsDone b' x) row.id row b.activities row-DepsDone
          others-DepsDone;
    listed = row-IsListed;
    indexed =
        put-Forall (λ i x. In i (ids_of b' x.workflow_id)) row.id row b.activities row-indexed
          others-indexed;
    done = λ x u eu h.
        put-Forall (λ _ y. y.workflow_id ≡ x → y.status ≡ ActivityStatus.completed) row.id row
          b.activities (not-completed x u eu h) (v.done x u eu h);
    fresh = record {
      workflow = v.fresh.workflow;
      activity = λ n h.
          get-put_ne row.id _ row b.activities
            (rw r.named (activity_id_of-ne (suc b.next_activity) n (omega arith)))
          ∙ v.fresh.activity n (omega arith);
    };
  }
