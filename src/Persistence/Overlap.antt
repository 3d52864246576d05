-- ===== src/Persistence/Overlap.antt =====
-- Two calls of Complete whose transactions overlap.
pub mod Effects
use durablego.Base.{
  ℕ, String, ◌≡◌, ◌≢◌, refl, sym, ap, ◌∙◌, ◌⊎◌, inl, inr, Bool, true, false, not, ◌&&◌, List, [],
  ◌∷◌, Option, none, some, find, find-map, find-test, mapped, map, any, In, text_eq, text_eq_iff,
  subst, arith, Bool-cases, Option-cases,
}
use durablego.Types.{ActivityStatus, WorkflowStatus, is_completed}
use durablego.Api.Backend.{Reply, good}
use durablego.Persistence.Tables.{
  ActivityRow, WorkflowRow, Tables, find_activity, find_workflow, update_where,
}
use durablego.Persistence.Session.{Postgres}
use durablego.Persistence.Helpers.{is_due, made_ready, is_done}
use durablego.Persistence.Lease.{complete}
use durablego.Persistence.Follows.Changes.{updated, updated-id}
use durablego.Persistence.Ends.Helpers.{due_waits}
use durablego.Persistence.Completion.Outcome.{
  but_events, completed_at, done_row, released, closed, finished,
}
use durablego.Persistence.Completion.{complete-finished}
use durablego.Persistence.History.Safety.{IsReady}
use durablego.Persistence.Fencing.{HoldsLease}
use durablego.Persistence.Progress.{IsFaultless, IsAccepted}
use durablego.Persistence.Progress.Leases.{holders_heard}
use durablego.Persistence.Overlap.Effects.{
  after, found_after, after-own, after-other, workflows-kept, after-elsewhere, find-In, found_id,
  running-not_waiting, Effect, complete-Effect,
}

-- The tables `u` that two transactions leave under READ COMMITTED, if all statements of both ran on the
-- tables `c` before either committed, the two alone would have left `t` and `v`, and they changed no
-- row in common: a row is as the one transaction left it that changed it.
pub record Overlap (c t v u : Tables) : Type 0 where
  pub first :
      (id : String) (a : ActivityRow)
      → find_activity id c.activities ≡ some a
      → find_activity id v.activities ≡ some a
      → find_activity id u.activities ≡ find_activity id t.activities
  pub second :
      (id : String) (a : ActivityRow)
      → find_activity id c.activities ≡ some a
      → find_activity id t.activities ≡ some a
      → find_activity id u.activities ≡ find_activity id v.activities
  pub unknown :
      (id : String)
      → find_activity id t.activities ≡ none
      → find_activity id v.activities ≡ none
      → find_activity id u.activities ≡ none
  pub workflow :
      (id : String) (w : WorkflowRow)
      → find_workflow id c.workflows ≡ some w
      → find_workflow id t.workflows ≡ some w
      → find_workflow id v.workflows ≡ some w
      → find_workflow id u.workflows ≡ some w

module _ (id id' wid : String) (a b : ActivityRow) (c t v u : Tables) (first : Effect id wid a c t)
    (second : Effect id' wid b c v) (a_found : find_activity id c.activities ≡ some a)
    (b_found : find_activity id' c.activities ≡ some b) (apart : text_eq id id' ≡ false)
    (o : Overlap c t v u) where
  t_found :
      (i : String)
      → find_activity i t.activities
        ≡ mapped (after first.now id wid c) (find_activity i c.activities)
  t_found i = ap (find_activity i) first.activities ∙ found_after first.now id wid c i

  v_found :
      (i : String)
      → find_activity i v.activities
        ≡ mapped (after second.now id' wid c) (find_activity i c.activities)
  v_found i = ap (find_activity i) second.activities ∙ found_after second.now id' wid c i

  -- The first activity is completed, since the second transaction left it alone.
  first-completed :
      (x : ActivityRow)
      → find_activity id u.activities ≡ some x
      → x.status ≡ ActivityStatus.completed
  first-completed x h =
      let id_of_a = found_id id a c a_found in
      let alone =
        after-other second.now id' wid c a (ap (λ i. text_eq i id') id_of_a ∙ apart)
          (λ w. running-not_waiting a first.runs w) in
      let left = v_found id ∙ ap (mapped (after second.now id' wid c)) a_found ∙ ap some alone in
      let made =
        o.first id a a_found left ∙ t_found id ∙ ap (mapped (after first.now id wid c)) a_found in
      let same : x ≡ after first.now id wid c a = ground arith in
      ap (λ (y : ActivityRow). y.status) same ∙ after-own first.now id wid c a id_of_a

  second-completed :
      (x : ActivityRow)
      → find_activity id' u.activities ≡ some x
      → x.status ≡ ActivityStatus.completed
  second-completed x h =
      let id_of_b = found_id id' b c b_found in
      let apart' : text_eq id' id ≡ false =
        ground (arith, text_eq_iff id id', text_eq_iff id' id) in
      let alone =
        after-other first.now id wid c b (ap (λ i. text_eq i id) id_of_b ∙ apart')
          (λ w. running-not_waiting b second.runs w) in
      let left = t_found id' ∙ ap (mapped (after first.now id wid c)) b_found ∙ ap some alone in
      let made =
        o.second id' b b_found left
        ∙ v_found id'
        ∙ ap (mapped (after second.now id' wid c)) b_found in
      let same : x ≡ after second.now id' wid c b = ground arith in
      ap (λ (y : ActivityRow). y.status) same ∙ after-own second.now id' wid c b id_of_b

  -- Another row is as it was, if it is completed or of another workflow.
  rest-kept :
      (i : String) (y : ActivityRow)
      → find_activity i c.activities ≡ some y
      → text_eq i id ≡ false
      → text_eq i id' ≡ false
      → text_eq wid "" ≡ false
      → (y.status ≡ ActivityStatus.completed) ⊎ (text_eq y.workflow_execution_id wid ≡ false)
      → find_activity i u.activities ≡ some y
  rest-kept i y h n n' named e =
      let id_of_y = found_id i y c h in
      let left : after first.now id wid c y ≡ y =
        kept_alone first.now id (ap (λ j. text_eq j id) id_of_y ∙ n) e in
      let left' : after second.now id' wid c y ≡ y =
        kept_alone second.now id' (ap (λ j. text_eq j id') id_of_y ∙ n') e in
      o.first i y h (v_found i ∙ ap (mapped (after second.now id' wid c)) h ∙ ap some left')
      ∙ t_found i
      ∙ ap (mapped (after first.now id wid c)) h
      ∙ ap some left
    where
      kept_alone :
          (now : ℕ) (j : String)
          → text_eq y.id j ≡ false
          → (y.status ≡ ActivityStatus.completed) ⊎ (text_eq y.workflow_execution_id wid ≡ false)
          → after now j wid c y ≡ y
      kept_alone now j m (inl done) = after-other now j wid c y m (λ w. ground arith)
      kept_alone now j m (inr away) = after-elsewhere now j wid c y m named away

  all-completed :
      text_eq wid "" ≡ false
      → ((i : String) (x : ActivityRow)
          → find_activity i c.activities ≡ some x
          → text_eq i id ≡ false
          → text_eq i id' ≡ false
          → (x.status ≡ ActivityStatus.completed) ⊎ (text_eq x.workflow_execution_id wid ≡ false))
      → (i : String) (x : ActivityRow) → find_activity i u.activities ≡ some x
      → x.workflow_execution_id ≡ wid
      → x.status ≡ ActivityStatus.completed
  all-completed named rest i x h of_x = elim (Bool-cases (text_eq i id)) [
    | inl one ↦
        first-completed x
          (subst (λ j. find_activity j u.activities ≡ some x) ((text_eq_iff i id).0 one) h)
    | inr n ↦ elim (Bool-cases (text_eq i id')) [
      | inl other ↦
          second-completed x
            (subst (λ j. find_activity j u.activities ≡ some x) ((text_eq_iff i id').0 other) h)
      | inr n' ↦ elim (Option-cases (find_activity i c.activities)) [
        | inl absent ↦
            let gone =
              o.unknown i (t_found i ∙ ap (mapped (after first.now id wid c)) absent)
                (v_found i ∙ ap (mapped (after second.now id' wid c)) absent) in
            absurd (ground arith)
        | inr (y, there) ↦
            let e = rest i y there n n' in
            let kept = rest-kept i y there n n' named e in
            let x≡y : x ≡ y = ground arith in
            elim e [
              | inl done ↦ ap (λ (z : ActivityRow). z.status) x≡y ∙ done
              | inr away ↦
                  let mine =
                    (text_eq_iff y.workflow_execution_id wid).1
                      (ap (λ (z : ActivityRow). z.workflow_execution_id) (sym x≡y) ∙ of_x) in
                  absurd (ground arith)
            ]
      ]
    ]
  ]

  -- Neither transaction saw the workflow's activities completed.
  workflow-kept :
      (w : WorkflowRow)
      → a.workflow_execution_id ≡ wid
      → b.workflow_execution_id ≡ wid
      → find_workflow wid c.workflows ≡ some w
      → find_workflow wid u.workflows ≡ some w
  workflow-kept w of_a of_b h =
      let apart' : text_eq id' id ≡ false =
        ground (arith, text_eq_iff id id', text_eq_iff id' id) in
      o.workflow wid w h
        (ap (find_workflow wid) (
            first.workflows
            ∙ workflows-kept first.now id wid c b
                (find-In (λ (x : ActivityRow). text_eq x.id id') c.activities b b_found)
                (ap (λ i. text_eq i id) (found_id id' b c b_found) ∙ apart') second.runs of_b)
          ∙ h)
        (ap (find_workflow wid) (
            second.workflows
            ∙ workflows-kept second.now id' wid c a
                (find-In (λ (x : ActivityRow). text_eq x.id id) c.activities a a_found)
                (ap (λ i. text_eq i id') (found_id id a c a_found) ∙ apart) first.runs of_a)
          ∙ h)

-- What two such calls leave that returned.
returned_completes_stall :
    (id id' worker worker' wid : String) (token token' : ℕ) (a b : ActivityRow) (w : WorkflowRow)
    (p p' q q' : Postgres) (u : Tables)
    → IsReady p
    → IsReady p'
    → p'.committed ≡ p.committed
    → text_eq id id' ≡ false
    → text_eq wid "" ≡ false
    → find_activity id p.committed.activities ≡ some a
    → find_activity id' p.committed.activities ≡ some b
    → a.workflow_execution_id ≡ wid
    → b.workflow_execution_id ≡ wid
    → ((i : String) (x : ActivityRow)
        → find_activity i p.committed.activities ≡ some x
        → text_eq i id ≡ false
        → text_eq i id' ≡ false
        → (x.status ≡ ActivityStatus.completed) ⊎ (text_eq x.workflow_execution_id wid ≡ false))
    → find_workflow wid p.committed.workflows ≡ some w
    → complete id worker token p ≡ (good tt, q)
    → complete id' worker' token' p' ≡ (good tt, q')
    → Overlap p.committed q.committed q'.committed u
    → ((i : String) (x : ActivityRow)
        → find_activity i u.activities ≡ some x
        → x.workflow_execution_id ≡ wid
        → x.status ≡ ActivityStatus.completed)
      × (find_workflow wid u.workflows ≡ some w)
returned_completes_stall id id' worker worker' wid token token' a b w p p' q q' u r r' alike apart
      named ha hb of_a of_b rest hw e e' o =
    let one = complete-Effect id worker wid token a p q r ha of_a e in
    let other : Effect id' wid b p.committed q'.committed =
      subst (λ (t : Tables). Effect id' wid b t q'.committed) alike
        (complete-Effect id' worker' wid token' b p' q' r'
          (ap (λ (t : Tables). find_activity id' t.activities) alike ∙ hb) of_b e') in
    (
      all-completed id id' wid a b p.committed q.committed q'.committed u one other ha hb apart o
          named rest,
      workflow-kept id id' wid a b p.committed q.committed q'.committed u one other ha hb apart o w
          of_a of_b hw,
    )

returned : (r : Reply (Unit {0}) × Postgres) → IsAccepted r.0 → r ≡ (good tt, r.1)
returned r (x, e) = ap (λ (y : Reply (Unit {0})). (y, r.1)) e

-- Under READ COMMITTED, two calls of Complete of the Postgres backend for the last two activities of a
-- running workflow, by the holders of their live leases, whose transactions overlap and meet no fault:
-- both return no error, all activities of the workflow are then completed, and the workflow still runs.
pub overlapping_completes_stall :
    (id id' worker worker' wid : String) (token token' : ℕ) (a b : ActivityRow) (w : WorkflowRow)
    (p p' : Postgres) (u : Tables)
    → IsReady p
    → IsReady p'
    → IsFaultless p
    → IsFaultless p'
    → p'.committed ≡ p.committed
    → HoldsLease id worker token p
    → HoldsLease id' worker' token' p'
    → text_eq id id' ≡ false
    → text_eq wid "" ≡ false
    → find_activity id p.committed.activities ≡ some a
    → find_activity id' p.committed.activities ≡ some b
    → a.workflow_execution_id ≡ wid
    → b.workflow_execution_id ≡ wid
    → ((i : String) (x : ActivityRow)
        → find_activity i p.committed.activities ≡ some x
        → text_eq i id ≡ false
        → text_eq i id' ≡ false
        → (x.status ≡ ActivityStatus.completed) ⊎ (text_eq x.workflow_execution_id wid ≡ false))
    → find_workflow wid p.committed.workflows ≡ some w
    → w.status ≡ WorkflowStatus.running
    → Overlap p.committed
        (complete id worker token p).1.committed
        (complete id' worker' token' p').1.committed
        u
    → ((complete id worker token p).0 ≡ good tt)
      × ((complete id' worker' token' p').0 ≡ good tt)
      × ((i : String) (x : ActivityRow)
          → find_activity i u.activities ≡ some x
          → x.workflow_execution_id ≡ wid
          → x.status ≡ ActivityStatus.completed)
      × ((v : WorkflowRow) × (find_workflow wid u.workflows ≡ some v)
          × (v.status ≡ WorkflowStatus.running))
overlapping_completes_stall id id' worker worker' wid token token' a b w p p' u r r' fine fine'
      alike holds holds' apart named ha hb of_a of_b rest hw live o =
    let (_, one, _) = holders_heard id worker token false "" p fine holds in
    let (_, two, _) = holders_heard id' worker' token' false "" p' fine' holds' in
    let (all, flow) =
      returned_completes_stall id id' worker worker' wid token token' a b w p p'
        (complete id worker token p).1 (complete id' worker' token' p').1 u r r' alike apart named
        ha hb of_a of_b rest hw (returned _ one) (returned _ two) o in
    (one.1, two.1, all, (w, flow, live))
