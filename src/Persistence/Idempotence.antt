-- ===== src/Persistence/Idempotence.antt =====
-- Start of the Postgres backend remembers its key.
pub mod Names
use durablego.Base.{
  ℕ, String, ◌≡◌, refl, sym, ap, ◌∙◌, inl, inr, Bool, true, false, List, [], ◌∷◌, ◌++◌, Option,
  none, some, find, find-append_found, find-append_new, text_eq, text_eq_iff, ◌==◌, ◌&&◌, subst,
  arith, Bool-cases, Option-cases,
}
use durablego.Types.{WorkflowDefinition, ActivityDefinition, Workflow, Err}
use durablego.Api.Backend.{good}
use durablego.Engine.History.{Call, starts}
use durablego.Persistence.Tables.{
  NamespaceRow, ActivityRow, DependencyRow, WorkflowRow, KeyRow, Tables,
}
use durablego.Persistence.Session.{Postgres, statement, deferring_rollback}
use durablego.Persistence.Helpers.{upsert_namespace, ensure_namespace, append_event}
use durablego.Persistence.Start.{
  refused, workflow_of_key, select_key, crash_with, crash_hook, known_workflow, start_keyed, create,
  start_found, known_key, start_checked, start,
}
use durablego.Persistence.Start.Rows.{
  accepted, is_key, ensure_definition, new_workflow_row, is_free, workflow_inserted,
  insert_workflow, key_inserted, insert_key, keep_key, new_activity_row, activity_inserted,
  insert_activity, dependency_inserted, insert_dependency, schedule,
}
use durablego.Persistence.Follows.{Follows, Follows-refl}
use durablego.Persistence.Follows.Changes.{names-Follows}
use durablego.Persistence.Ends.{
  Within, Ends, returns, raises, Ends-bind, Ends-weaken, statement-Ends, begin-Ends, commit-Ends,
  rolled_back-Ends, good-Ends,
}
use durablego.Persistence.Ends.Framed.{Framed, for_each-kept, statement-Framed, append_event-Framed}
use durablego.Persistence.Ends.Helpers.{kept_namespace}
use durablego.Persistence.Ends.Start.Rows.{
  accepted-Ends, activity_inserted-Follows, new_activity_row-IsSound, dependency_inserted-Follows,
  workflow_inserted-Follows, key_inserted-Follows,
}
use durablego.Persistence.History.{outcome, serve, run}
use durablego.Persistence.History.Safety.{IsReady, serve-IsReady, run-Follows}
use durablego.Persistence.KnownKeys.{known_workflow-Ends, known_key_starts_nothing}
use durablego.Persistence.Idempotence.Names.{
  key_row, key_inserted-found, names, ensure_definition-names, insert_workflow-names, finish-names,
  keep_key-new,
}

-- The namespace knows the key, as that of the workflow.
pub record KnowsKey (namespace key wid : String) (t : Tables) : Type 0 where
  pub owner : NamespaceRow
  pub owner_found : find (λ (r : NamespaceRow). text_eq r.name namespace) t.namespaces ≡ some owner
  pub row : KeyRow
  pub row_found : find (is_key owner.id key) t.keys ≡ some row
  pub same : row.workflow_execution_id ≡ wid

-- A key that is known stays known.
Follows-KnowsKey :
    (namespace key wid : String) (t u : Tables)
    → Follows t u
    → KnowsKey namespace key wid t
    → KnowsKey namespace key wid u
Follows-KnowsKey namespace key wid t u f k = record {
  owner = k.owner;
  owner_found = f.namespace _ k.owner k.owner_found;
  row = k.row;
  row_found = f.key _ k.row k.row_found;
  same = k.same;
}

upsert_namespace-found :
    (new : ℕ) (name : String) (rows : List NamespaceRow)
    → (n : NamespaceRow) × (find
          (λ (r : NamespaceRow). text_eq r.name name)
          (upsert_namespace new name rows).1
        ≡ some n)
      × (n.id ≡ (upsert_namespace new name rows).0)
unfolding upsert_namespace
upsert_namespace-found new name rows =
    elim (Option-cases (find (λ (r : NamespaceRow). text_eq r.name name) rows)) [
      | inl absent ↦
          rw (absent, upsert_namespace)
            (
              record { id = new; name = name },
              find-append_new (λ (r : NamespaceRow). text_eq r.name name) rows _ absent
                  ∙ rw ((text_eq_iff name name).1 refl) refl,
              refl,
            )
      | inr (m, there) ↦ rw (there, upsert_namespace) (m, there, refl)
    ]

-- The workflow has the key of its namespace.
abbrev Remembers : String → String → Workflow × Bool → Postgres → Type 0
Remembers namespace key r q = KnowsKey namespace key r.0.id q.committed

create-Remembers :
    {c : Tables} (n : NamespaceRow) (d : WorkflowDefinition) (key : String)
    (nss : List NamespaceRow) (ks : List KeyRow) (p : Postgres)
    → Framed c names (nss, ks) p
    → text_eq key "" ≡ false
    → find (λ (r : NamespaceRow). text_eq r.name d.namespace) nss ≡ some n
    → find (is_key n.id key) ks ≡ none
    → Ends c (Remembers d.namespace key) (create n.id d key p)
unfolding create
create-Remembers n d key nss ks p h keyed owner absent =
    Ends-bind _ _ (ensure_definition-names n.id d.name p h) (λ definition q u.
      Ends-bind _ _ (insert_workflow-names n.id definition q u) (λ w s v.
        Ends-bind _ _ (keep_key-new n.id key w.id s v keyed absent) (λ kept t y. rw y.1 (
          Ends-weaken _ (finish-names n.id d key w t y.0) (λ r z k. record {
            owner = n;
            owner_found =
                ap
                  (λ (x : List NamespaceRow × List KeyRow).
                    find (λ (r : NamespaceRow). text_eq r.name d.namespace) x.0)
                  k.1
                ∙ owner;
            row = key_row n.id key w.id;
            row_found =
                ap (λ (x : List NamespaceRow × List KeyRow). find (is_key n.id key) x.1) k.1
                ∙ key_inserted-found n.id key w.id ks absent;
            same = sym k.0;
          })))))

known-Remembers :
    {c : Tables} (n : NamespaceRow) (k : KeyRow) (namespace key : String) (p : Postgres)
    → Within c p
    → find (λ (r : NamespaceRow). text_eq r.name namespace) p.view.namespaces ≡ some n
    → find (is_key n.id key) p.view.keys ≡ some k
    → Ends c (Remembers namespace key) (known_workflow k.workflow_execution_id p)
known-Remembers n k namespace key p w owner found =
    Ends-weaken _
      (known_workflow-Ends k.workflow_execution_id p (record { within = w; view = refl }))
      (λ r q h. record {
        owner = n;
        owner_found =
            ap (λ (t : Tables). find (λ (r : NamespaceRow). text_eq r.name namespace) t.namespaces)
              h.2
            ∙ owner;
        row = k;
        row_found = ap (λ (t : Tables). find (is_key n.id key) t.keys) h.2 ∙ found;
        same = sym h.1;
      })

start_found-Remembers :
    {c : Tables} (n : NamespaceRow) (d : WorkflowDefinition) (key : String) (p : Postgres)
    → Within c p
    → text_eq key "" ≡ false
    → find (λ (r : NamespaceRow). text_eq r.name d.namespace) p.view.namespaces ≡ some n
    → Ends c
        (Remembers d.namespace key)
        (start_found n.id d key (workflow_of_key (find (is_key n.id key) p.view.keys)) p)
unfolding start_found
start_found-Remembers n d key p w keyed owner =
    elim (Option-cases (find (is_key n.id key) p.view.keys)) [
      | inl absent ↦ rw absent (
          create-Remembers n d key p.view.namespaces p.view.keys p
            (record { within = w; sight = refl }) keyed owner absent)
      | inr (k, found) ↦ rw found (known-Remembers n k d.namespace key p w owner found)
    ]

start_checked-Remembers :
    (o : Option Err) (d : WorkflowDefinition) (key : String) (p : Postgres)
    → IsReady p
    → text_eq key "" ≡ false
    → Ends p.committed (Remembers d.namespace key) (start_checked o d key p)
unfolding start_checked deferring_rollback ensure_namespace known_key select_key
start_checked-Remembers (some e) d key p r keyed = raises refl r.attempts
start_checked-Remembers none d key p r keyed =
    rolled_back-Ends {Q = Remembers d.namespace key} _
      (Ends-bind _ _ (begin-Ends p r.attempts r.keyed) (λ _ q b.
        Ends-bind _ _
          (statement-Ends _ q b.within (
            names-Follows q.view _ _ _ _ (λ test k h. h)
              (λ test n h.
                kept_namespace (q.driver.serial q.calls) d.namespace q.view.namespaces test n h)))
          (λ ns s v.
            let (n, owner, same) =
              upsert_namespace-found (q.driver.serial q.calls) d.namespace q.view.namespaces in
            rw keyed (
              Ends-bind _ _ (statement-Ends _ s v.within (Follows-refl s.view)) (λ o t u.
                let id : ns ≡ n.id = v.value ∙ sym same in
                let seen : o ≡ workflow_of_key (find (is_key n.id key) t.view.keys) =
                  u.value
                  ∙ ap (λ i. workflow_of_key (find (is_key i key) s.view.keys)) id
                  ∙ ap (λ (x : Tables). workflow_of_key (find (is_key n.id key) x.keys))
                      (sym u.view) in
                rw (id, seen)
                  (start_found-Remembers n d key t u.within keyed (
                    ap
                      (λ (x : Tables).
                        find (λ (r : NamespaceRow). text_eq r.name d.namespace) x.namespaces)
                      (u.view ∙ v.view)
                    ∙ owner)))))))
      (λ _ _ k. k)

-- A Start of the Postgres backend that returns a workflow has committed its key as that workflow's.
pub start-KnowsKey :
    (d : WorkflowDefinition) (key : String) (p q : Postgres) (w : Workflow) (dup : Bool)
    → IsReady p
    → text_eq key "" ≡ false
    → start d key p ≡ (good (w, dup), q)
    → KnowsKey d.namespace key w.id q.committed
unfolding start
start-KnowsKey d key p q w dup r keyed e =
    good-Ends (start_checked (refused d) d key p) (w, dup) q
      (start_checked-Remembers (refused d) d key p r keyed) e

-- Starting again under a key leads to the workflow that the key first got: after a successful Start of
-- the Postgres backend and any further history, in which any calls of the driver may fail, a Start with
-- the same key in the same namespace that returns no error returns that workflow, marked as a
-- duplicate, and changes nothing.
pub pg_idempotent_start :
    (d d' : WorkflowDefinition) (key : String) (w w' : Workflow) (dup dup' : Bool) (cs : List Call)
    (p q s : Postgres)
    → IsReady p
    → text_eq key "" ≡ false
    → start d key p ≡ (good (w, dup), q)
    → d'.namespace ≡ d.namespace
    → start d' key (run cs q) ≡ (good (w', dup'), s)
    → (w'.id ≡ w.id) × (dup' ≡ true) × (s.committed ≡ (run cs q).committed)
unfolding serve
pg_idempotent_start d d' key w w' dup dup' cs p q s r keyed first same again =
    let ready : IsReady q =
      subst IsReady (ap (λ x. (outcome x).1) first) (serve-IsReady (starts d key) p r) in
    let (kept, later) = run-Follows cs q ready in
    let k =
      Follows-KnowsKey d.namespace key w.id q.committed (run cs q).committed kept
        (start-KnowsKey d key p q w dup r keyed first) in
    let (duplicate, id, nothing) =
      known_key_starts_nothing d' key k.owner k.row (run cs q) s w' dup' later keyed
        (ap (λ n. find (λ (x : NamespaceRow). text_eq x.name n) (run cs q).committed.namespaces)
            same
          ∙ k.owner_found)
        k.row_found again in
    (id ∙ k.same, duplicate, nothing)
