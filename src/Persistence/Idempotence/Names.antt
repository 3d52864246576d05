-- ===== src/Persistence/Idempotence/Names.antt =====
-- The steps of Start that leave the namespaces and the keys, and the one that inserts a key.
use durablego.Base.{
  ℕ, String, ◌≡◌, refl, ap, ◌∙◌, Bool, true, false, List, [], ◌∷◌, ◌++◌, Option, none, some, find,
  find-append_new, text_eq, text_eq_iff, arith,
}
use durablego.Types.{WorkflowDefinition, ActivityDefinition}
use durablego.Persistence.Tables.{
  NamespaceRow, ActivityRow, DependencyRow, WorkflowRow, KeyRow, Tables,
}
use durablego.Persistence.Session.{Postgres}
use durablego.Persistence.Helpers.{append_event}
use durablego.Persistence.Start.Rows.{
  accepted, is_key, ensure_definition, is_free, workflow_inserted, insert_workflow, key_inserted,
  insert_key, keep_key, new_activity_row, activity_inserted, insert_activity, dependency_inserted,
  insert_dependency, schedule,
}
use durablego.Persistence.Start.{crash_with, crash_hook, start_keyed}
use durablego.Persistence.Follows.Changes.{names-Follows}
use durablego.Persistence.Ends.{
  Ends, returns, raises, Ends-bind, Ends-weaken, statement-Ends, commit-Ends,
}
use durablego.Persistence.Ends.Framed.{Framed, for_each-kept, statement-Framed, append_event-Framed}
use durablego.Persistence.Ends.Start.Rows.{
  activity_inserted-Follows, new_activity_row-IsSound, dependency_inserted-Follows,
  workflow_inserted-Follows, key_inserted-Follows,
}

abbrev pub key_row : ℕ → String → String → KeyRow
key_row ns key wid = record { namespace_id = ns; key = key; workflow_execution_id = wid }

key_row-hit : (ns : ℕ) (key wid : String) → is_key ns key (key_row ns key wid) ≡ true
key_row-hit ns key wid = rw ((text_eq_iff key key).1 refl) (ground arith)

pub key_inserted-found :
    (ns : ℕ) (key wid : String) (ks : List KeyRow)
    → find (is_key ns key) ks ≡ none
    → find (is_key ns key) (ks ++ key_row ns key wid ∷ []) ≡ some (key_row ns key wid)
key_inserted-found ns key wid ks absent =
    find-append_new (is_key ns key) ks _ absent ∙ rw (key_row-hit ns key wid) refl

-- What Start looks at of the tables, once it has read the key.
abbrev pub names : Tables → List NamespaceRow × List KeyRow
names t = (t.namespaces, t.keys)

workflow_inserted-names :
    (b : Bool) (w : WorkflowRow) (t : Tables) → names (workflow_inserted b w t).1 ≡ names t
unfolding workflow_inserted
workflow_inserted-names true w t = refl
workflow_inserted-names false w t = refl

activity_inserted-names :
    (b : Bool) (a : ActivityRow) (t : Tables) → names (activity_inserted b a t).1 ≡ names t
unfolding activity_inserted
activity_inserted-names true a t = refl
activity_inserted-names false a t = refl

dependency_inserted-names :
    (b : Bool) (d : DependencyRow) (t : Tables) → names (dependency_inserted b d t).1 ≡ names t
unfolding dependency_inserted
dependency_inserted-names true d t = refl
dependency_inserted-names false d t = refl

module _ {c : Tables} {x : List NamespaceRow × List KeyRow} where
  pub event-names :
      (wid aid typ msg : String) (p : Postgres)
      → Framed c names x p
      → Ends c (λ _. Framed c names x) (append_event wid aid typ msg p)
  event-names = append_event-Framed names (λ t es. refl)

  accepted-names :
      {A : Type 0} (o : Option A) (p : Postgres)
      → Framed c names x p
      → Ends c (λ _. Framed c names x) (accepted o p)
  unfolding accepted
  accepted-names none p w = raises w.within.base w.within.attempts
  accepted-names (some a) p w = returns w

  pub ensure_definition-names :
      (ns : ℕ) (name : String) (p : Postgres)
      → Framed c names x p
      → Ends c (λ _. Framed c names x) (ensure_definition ns name p)
  unfolding ensure_definition
  ensure_definition-names ns name p w =
      Ends-weaken _
        (statement-Framed names _ p w (names-Follows p.view _ _ _ _ (λ test k h. h) (λ test n h. h))
          refl)
        (λ _ q s. s.0)

  pub insert_workflow-names :
      (ns definition : ℕ) (p : Postgres)
      → Framed c names x p
      → Ends c (λ _. Framed c names x) (insert_workflow ns definition p)
  unfolding insert_workflow
  insert_workflow-names ns definition p w =
      Ends-bind _ _
        (statement-Framed names _ p w (workflow_inserted-Follows _ _ p.view)
          (workflow_inserted-names _ _ p.view))
        (λ o q s. accepted-names o q s.0)

  insert_activity-names :
      (wid : String) (d : ActivityDefinition) (p : Postgres)
      → Framed c names x p
      → Ends c (λ _. Framed c names x) (insert_activity wid d p)
  unfolding insert_activity
  insert_activity-names wid d p w =
      Ends-bind _ _
        (statement-Framed names _ p w
          (activity_inserted-Follows (new_activity_row wid d p) p.view
            (new_activity_row-IsSound wid d p w.within.attempts))
          (activity_inserted-names _ _ p.view))
        (λ o q s. accepted-names o q s.0)

  insert_dependency-names :
      (wid name dep : String) (p : Postgres)
      → Framed c names x p
      → Ends c (λ _. Framed c names x) (insert_dependency wid name dep p)
  unfolding insert_dependency
  insert_dependency-names wid name dep p w =
      Ends-bind _ _
        (statement-Framed names _ p w (dependency_inserted-Follows _ _ p.view)
          (dependency_inserted-names _ _ p.view))
        (λ o q s. accepted-names o q s.0)

  pub schedule-names :
      (wid : String) (d : ActivityDefinition) (p : Postgres)
      → Framed c names x p
      → Ends c (λ _. Framed c names x) (schedule wid d p)
  unfolding schedule
  schedule-names wid d p w = Ends-bind _ _ (insert_activity-names wid d p w) (λ id q v.
      Ends-bind _ _
        (for_each-kept (insert_dependency wid d.name) d.depends_on
          (λ dep r u. insert_dependency-names wid d.name dep r u) q v)
        (λ _ s u. event-names wid id _ _ s u))

  crash_with-names :
      (o : Option String) (p : Postgres)
      → Framed c names x p
      → Ends c (λ _. Framed c names x) (crash_with o p)
  unfolding crash_with
  crash_with-names none p w = returns w
  crash_with-names (some text) p w = raises w.within.base w.within.attempts

  -- What is committed has the names that the transaction saw last.
  pub finish-names :
      (ns : ℕ) (d : WorkflowDefinition) (key : String) (w : WorkflowRow) (p : Postgres)
      → Framed c names x p
      → Ends c (λ r q. (r.0.id ≡ w.id) × (names q.committed ≡ x)) (start_keyed ns d key w true p)
  unfolding start_keyed crash_hook
  finish-names ns d key w p h = Ends-bind _ _ (event-names w.id "" _ _ p h) (λ _ q v.
      Ends-bind _ _
        (for_each-kept (schedule w.id) d.activities (λ a r u. schedule-names w.id a r u) q v)
        (λ _ s u. Ends-bind _ _ (crash_with-names s.crash_before_commit s u) (λ _ t y.
          Ends-bind _ _ (commit-Ends t y.within)
            (λ _ z k. returns (refl, ap names k.1 ∙ y.sight)))))

-- The key is new: it is inserted, and the rest of Start follows.
pub keep_key-new :
    {c : Tables} {ks : List KeyRow} {nss : List NamespaceRow} (ns : ℕ) (key wid : String)
    (p : Postgres)
    → Framed c names (nss, ks) p
    → text_eq key "" ≡ false
    → find (is_key ns key) ks ≡ none
    → Ends c
        (λ kept q. Framed c names (nss, ks ++ key_row ns key wid ∷ []) q × (kept ≡ true))
        (keep_key ns key wid p)
unfolding keep_key insert_key
keep_key-new {ks = ks} ns key wid p w keyed absent =
    let free : is_free (find (is_key ns key) p.view.keys) ≡ true =
      ap is_free
        (ap (λ (x : List NamespaceRow × List KeyRow). find (is_key ns key) x.1) w.sight ∙ absent) in
    let inserted = ap (λ b. key_inserted b (key_row ns key wid) p.view) free in
    rw keyed (
      Ends-weaken _ (statement-Ends _ p w.within (key_inserted-Follows _ _ p.view)) (λ a q s. (
        record {
          within = s.within;
          sight =
              ap names (s.view ∙ ap (λ (x : Bool × Tables). x.1) inserted)
              ∙ ap (λ (x : List NamespaceRow × List KeyRow). (x.0, x.1 ++ key_row ns key wid ∷ []))
                  w.sight;
        },
        s.value ∙ ap (λ (x : Bool × Tables). x.0) inserted,
      )))
