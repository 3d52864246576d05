-- ===== src/Persistence/KnownKeys.antt =====
-- A Start of the Postgres backend under a key that is known.
use durablego.Base.{
  ℕ, String, ◌≡◌, refl, sym, ap, ◌∙◌, Bool, true, false, List, [], ◌∷◌, Option, none, some, find,
  find-test, ◌++◌, text_eq, text_eq_iff, subst, arith,
}
use durablego.Types.{WorkflowDefinition, Workflow, Err}
use durablego.Api.Backend.{good}
use durablego.Persistence.Tables.{
  NamespaceRow, DefinitionRow, WorkflowRow, KeyRow, Tables, find_workflow,
}
use durablego.Persistence.Session.{Postgres, statement, deferring_rollback}
use durablego.Persistence.Helpers.{upsert_namespace, ensure_namespace}
use durablego.Persistence.Reads.{
  joined_rows, joined, first, select_workflow, load_activities, load_events, read_workflow,
  workflow_tx,
}
use durablego.Persistence.Start.{
  refused, workflow_of_key, select_key, known_workflow, start_found, known_key, start_checked,
  start,
}
use durablego.Persistence.Start.Rows.{is_key}
use durablego.Persistence.Follows.{Follows, Follows-refl}
use durablego.Persistence.Ends.{
  Within, Ends, returns, raises, Ends-bind, Ends-weaken, statement-Ends, begin-Ends, commit-Ends,
  rolled_back-Ends, good-Ends,
}
use durablego.Persistence.History.Safety.{IsReady}

-- In a transaction on the tables `c` that sees the tables `t`.
pub record Unchanged (c t : Tables) (p : Postgres) : Type 0 where
  pub within : Within c p
  pub view : p.view ≡ t

-- A statement that leaves the tables as they are.
pub reads-Ends :
    {A : Type 0} {c t : Tables} (f : Postgres → A × Tables) (p : Postgres)
    → Unchanged c t p
    → (f p).1 ≡ p.view
    → Ends c (λ a q. Unchanged c t q × (a ≡ (f p).0)) (statement f p)
reads-Ends f p u same =
    Ends-weaken _
      (statement-Ends f p u.within (subst (Follows p.view) (sym same) (Follows-refl p.view)))
      (λ a q s. (record { within = s.within; view = s.view ∙ same ∙ u.view }, s.value))

first-id :
    (w : WorkflowRow) (n : Option NamespaceRow) (d : Option DefinitionRow) (keys : List String)
    (x : Workflow)
    → first (joined_rows w n d keys) ≡ some x
    → x.id ≡ w.id
first-id w none d keys x h = absurd (ground arith)
first-id w (some n) none keys x h = absurd (ground arith)
first-id w (some n) (some d) [] x h = absurd (ground arith)
first-id w (some n) (some d) (k ∷ ks) x h =
    sym (ap (λ (o : Option Workflow). elim o [ none ↦ w.id | some y ↦ y.id ]) h)

-- The workflow that is read has the id that was asked for.
select_workflow-id :
    (t : Tables) (wid : String) (o : Option WorkflowRow) (x : Workflow)
    → find_workflow wid t.workflows ≡ o
    → select_workflow t o ≡ some x
    → x.id ≡ wid
unfolding select_workflow joined
select_workflow-id t wid none x h e = absurd (ground arith)
select_workflow-id t wid (some w) x h e =
    let hit : text_eq w.id wid ≡ true =
      find-test (λ (r : WorkflowRow). text_eq r.id wid) t.workflows w h in
    let same : w.id ≡ wid = ground (arith, text_eq_iff w.id wid) in first-id w _ _ _ x e ∙ same

read_workflow-Unchanged :
    {c t : Tables} (wid : String) (o : Option Workflow) (p : Postgres)
    → Unchanged c t p
    → Ends c (λ r q. Unchanged c t q × (o ≡ some r.0)) (read_workflow wid o p)
unfolding read_workflow load_activities load_events
read_workflow-Unchanged wid none p u = raises u.within.base u.within.attempts
read_workflow-Unchanged wid (some x) p u =
    Ends-bind _ _
      (Ends-bind _ _ (reads-Ends _ p u refl)
        (λ _ q v. Ends-bind _ _ (reads-Ends _ q v.0 refl) (λ _ s w. returns w.0)))
      (λ _ q v. Ends-bind _ _ (reads-Ends _ q v refl) (λ _ s w. returns (w.0, refl)))

workflow_tx-Unchanged :
    {c t : Tables} (wid : String) (p : Postgres)
    → Unchanged c t p
    → Ends c (λ r q. Unchanged c t q × (r.0.id ≡ wid)) (workflow_tx wid p)
unfolding workflow_tx
workflow_tx-Unchanged wid p u = Ends-bind _ _ (reads-Ends _ p u refl) (λ o q v.
    Ends-weaken _ (read_workflow-Unchanged wid o q v.0)
      (λ r s w. (w.0, select_workflow-id p.view wid _ r.0 refl (sym v.1 ∙ w.1))))

pub known_workflow-Ends :
    {c t : Tables} (wid : String) (p : Postgres)
    → Unchanged c t p
    → Ends c (λ r q. (r.1 ≡ true) × (r.0.id ≡ wid) × (q.committed ≡ t)) (known_workflow wid p)
unfolding known_workflow
known_workflow-Ends wid p u = Ends-bind _ _ (workflow_tx-Unchanged wid p u) (λ r q v.
    Ends-bind _ _ (commit-Ends q v.0.within) (λ _ s k. returns (refl, v.1, k.1 ∙ v.0.view)))

-- The namespace is there already.
there_already :
    (new : ℕ) (name : String) (rows : List NamespaceRow) (n : NamespaceRow)
    → find (λ (r : NamespaceRow). text_eq r.name name) rows ≡ some n
    → upsert_namespace new name rows ≡ (n.id, rows)
unfolding upsert_namespace
there_already new name rows n h =
    ap
      (λ (o : Option NamespaceRow). elim o as (λ _. ℕ × List NamespaceRow) [
        | none ↦ (new, rows ++ record { id = new; name = name } ∷ [])
        | some m ↦ (m.id, rows)
      ])
      h

ensure_namespace-Unchanged :
    {c t : Tables} (name : String) (n : NamespaceRow) (p : Postgres)
    → Unchanged c t p
    → find (λ (r : NamespaceRow). text_eq r.name name) t.namespaces ≡ some n
    → Ends c (λ ns q. Unchanged c t q × (ns ≡ n.id)) (ensure_namespace name p)
unfolding ensure_namespace
ensure_namespace-Unchanged name n p u h =
    let there : upsert_namespace (p.driver.serial p.calls) name p.view.namespaces
        ≡ (n.id, p.view.namespaces) =
      there_already (p.driver.serial p.calls) name p.view.namespaces n (
        ap (λ (v : Tables). find (λ (r : NamespaceRow). text_eq r.name name) v.namespaces) u.view
        ∙ h) in
    Ends-weaken _
      (reads-Ends _ p u
        (ap (λ (x : ℕ × List NamespaceRow). record p.view { namespaces = x.1 }) there))
      (λ ns q v. (v.0, v.1 ∙ ap (λ (x : ℕ × List NamespaceRow). x.0) there))

known_key-Unchanged :
    {c t : Tables} (ns : ℕ) (key : String) (k : KeyRow) (p : Postgres)
    → Unchanged c t p
    → text_eq key "" ≡ false
    → find (is_key ns key) t.keys ≡ some k
    → Ends c (λ o q. Unchanged c t q × (o ≡ some k.workflow_execution_id)) (known_key ns key p)
unfolding known_key select_key
known_key-Unchanged ns key k p u keyed h = rw keyed (
    Ends-weaken _ (reads-Ends _ p u refl) (λ o q v. (
      v.0,
      v.1
          ∙ ap (λ (v : Tables). workflow_of_key (find (is_key ns key) v.keys)) u.view
          ∙ ap workflow_of_key h,
    )))

known-Ends :
    (o : Option Err) (d : WorkflowDefinition) (key : String) (n : NamespaceRow) (k : KeyRow)
    (p : Postgres)
    → IsReady p
    → text_eq key "" ≡ false
    → find (λ (r : NamespaceRow). text_eq r.name d.namespace) p.committed.namespaces ≡ some n
    → find (is_key n.id key) p.committed.keys ≡ some k
    → Ends p.committed
        (λ r q. (r.1 ≡ true) × (r.0.id ≡ k.workflow_execution_id) × (q.committed ≡ p.committed))
        (start_checked o d key p)
unfolding start_checked deferring_rollback start_found
known-Ends (some e) d key n k p r keyed hn hk = raises refl r.attempts
known-Ends none d key n k p r keyed hn hk =
    rolled_back-Ends
      {Q = λ x q. (x.1 ≡ true) × (x.0.id ≡ k.workflow_execution_id) × (q.committed ≡ p.committed)} _
      (Ends-bind _ _ (begin-Ends p r.attempts r.keyed) (λ _ q b.
        Ends-bind _ _
          (ensure_namespace-Unchanged d.namespace n q (record { within = b.within; view = b.view })
            hn)
          (λ ns s v.
            Ends-bind _ _
              (known_key-Unchanged ns key k s v.0 keyed
                (ap (λ i. find (is_key i key) p.committed.keys) v.1 ∙ hk))
              (λ o t w. rw w.1 (known_workflow-Ends k.workflow_execution_id t w.0)))))
      (λ _ _ h. h)

-- A Start of the Postgres backend under a key that its namespace knows leads to the workflow that has
-- the key: if no error is returned, the workflow is that one, marked as a duplicate, and nothing in the
-- tables has changed, whatever definition was given.
pub known_key_starts_nothing :
    (d : WorkflowDefinition) (key : String) (n : NamespaceRow) (k : KeyRow) (p q : Postgres)
    (w : Workflow) (dup : Bool)
    → IsReady p
    → text_eq key "" ≡ false
    → find (λ (r : NamespaceRow). text_eq r.name d.namespace) p.committed.namespaces ≡ some n
    → find (is_key n.id key) p.committed.keys ≡ some k
    → start d key p ≡ (good (w, dup), q)
    → (dup ≡ true) × (w.id ≡ k.workflow_execution_id) × (q.committed ≡ p.committed)
unfolding start
known_key_starts_nothing d key n k p q w dup r keyed hn hk e =
    good-Ends (start_checked (refused d) d key p) (w, dup) q
      (known-Ends (refused d) d key n k p r keyed hn hk) e
