-- ===== src/Persistence/Follows/Changes.antt =====
-- The changes of the tables that `Follows` allows: of rows by a test, new rows, new events and names.
use durablego.Base.{
  ℕ, String, ◌≡◌, refl, sym, ap, ◌∙◌, inl, inr, Bool, true, List, [], ◌∷◌, ◌++◌, append-nil, none,
  some, text_eq, text_eq_iff, arith, Bool-cases, find, mapped, find-map, find-append_found,
  find-append_new, In-map, In-append, if◌then◌else◌,
}
use durablego.Types.{WorkflowStatus}
use durablego.Persistence.Helpers.{set_status}
use durablego.Persistence.Tables.{
  NamespaceRow, DefinitionRow, DependencyRow, ActivityRow, WorkflowRow, KeyRow, EventRow, Tables,
  find_activity, update_where,
}
use durablego.Persistence.Follows.{
  IsSound, RowKept, RowKept-refl, WorkflowRowKept, Follows, Follows-refl,
}

abbrev pub updated : {A : Type 0} → (A → Bool) → (A → A) → A → A
updated p f a = if p a then f a else a

updated-RowKept :
    (p : ActivityRow → Bool) (f : ActivityRow → ActivityRow) (a : ActivityRow)
    → (p a ≡ true → RowKept a (f a))
    → RowKept a (updated p f a)
updated-RowKept p f a k = elim (Bool-cases (p a)) [
  | inl hit ↦ rw hit (k hit)
  | inr miss ↦ rw miss (RowKept-refl a)
]

pub updated-id :
    (p : ActivityRow → Bool) (f : ActivityRow → ActivityRow)
    → ((a : ActivityRow) → (f a).id ≡ a.id)
    → (id : String) (a : ActivityRow) → text_eq (updated p f a).id id ≡ text_eq a.id id
updated-id p f keeps id a = elim (Bool-cases (p a)) [
  | inl hit ↦ rw hit (ap (λ i. text_eq i id) (keeps a))
  | inr miss ↦ rw miss refl
]

-- Activities changed one by one, each row that is found by its id to one that it is kept in.
pub map-Follows :
    (t : Tables) (p : ActivityRow → Bool) (f : ActivityRow → ActivityRow)
    → ((a : ActivityRow) → (f a).id ≡ a.id)
    → ((id : String) (a : ActivityRow)
        → find_activity id t.activities ≡ some a
        → p a ≡ true
        → RowKept a (f a))
    → Follows t (record t { activities = update_where p f t.activities })
map-Follows t p f keeps k = record {
  activity = λ id a h. (
    updated p f a,
    find-map (λ (b : ActivityRow). text_eq b.id id) (updated p f) (updated-id p f keeps id)
          t.activities
        ∙ ap (mapped (updated p f)) h,
    updated-RowKept p f a (k id a h),
  );
  workflow = (Follows-refl t).workflow;
  key = λ test x h. h;
  namespace = λ test n h. h;
  event = ([], sym (append-nil t.events));
  fresh = λ id b n h.
      let e : find_activity id (update_where p f t.activities) ≡ none =
        find-map (λ (c : ActivityRow). text_eq c.id id) (updated p f) (updated-id p f keeps id)
          t.activities
        ∙ ap (mapped (updated p f)) n in
      absurd (ground arith);
  keyed = λ d b m.
      let (a, i, e) = In-map (updated p f) t.activities b m in
      ap (λ (x : ActivityRow). find_activity x.id (update_where p f t.activities)) e
      ∙ find-map (λ (c : ActivityRow). text_eq c.id (updated p f a).id) (updated p f)
          (updated-id p f keeps (updated p f a).id) t.activities
      ∙ ap (mapped (updated p f)) (ap (λ i. find_activity i t.activities) (same_id a) ∙ d a i)
      ∙ ap some (sym e);
}
  where
    same_id : (a : ActivityRow) → (updated p f a).id ≡ a.id
    same_id a = elim (Bool-cases (p a)) [ inl hit ↦ rw hit (keeps a) | inr miss ↦ rw miss refl ]

-- A new status of workflows.
pub workflows-Follows :
    (t : Tables) (p : WorkflowRow → Bool) (status : WorkflowStatus) (now : ℕ)
    → Follows t (record t { workflows = update_where p (set_status status now) t.workflows })
workflows-Follows t p status now = record {
  activity = (Follows-refl t).activity;
  workflow = λ id w h. (
    updated p (set_status status now) w,
    find-map (λ (v : WorkflowRow). text_eq v.id id) (updated p (set_status status now))
          (λ v. elim (Bool-cases (p v)) [ inl hit ↦ rw hit refl | inr miss ↦ rw miss refl ])
          t.workflows
        ∙ ap (mapped (updated p (set_status status now))) h,
    elim (Bool-cases (p w)) [
      | inl hit ↦ rw hit (same_row (set_status status now w) refl refl refl refl)
      | inr miss ↦ rw miss (same_row w refl refl refl refl)
    ],
  );
  key = λ test x h. h;
  namespace = λ test n h. h;
  event = ([], sym (append-nil t.events));
  fresh = (Follows-refl t).fresh;
  keyed = λ k. k;
}
  where
    same_row :
        {v : WorkflowRow} (x : WorkflowRow)
        → x.id ≡ v.id
        → x.namespace_id ≡ v.namespace_id
        → x.definition_id ≡ v.definition_id
        → x.created_at ≡ v.created_at
        → WorkflowRowKept v x
    same_row x a b c d = record {
      same_id = a;
      same_namespace = b;
      same_definition = c;
      same_created = d;
    }

-- A statement that adds an event.
pub event-Follows :
    (t : Tables) (e : EventRow) → Follows t (record t { events = t.events ++ e ∷ [] })
event-Follows t e = record {
  activity = (Follows-refl t).activity;
  workflow = (Follows-refl t).workflow;
  key = λ test x h. h;
  namespace = λ test n h. h;
  event = (e ∷ [], refl);
  fresh = (Follows-refl t).fresh;
  keyed = λ k. k;
}

-- A statement that leaves the activities, the workflows and the events, and keeps the keys and the
-- namespaces.
pub names-Follows :
    (t : Tables) (ns : List NamespaceRow) (ds : List DefinitionRow) (ks : List KeyRow)
    (es : List DependencyRow)
    → ((test : KeyRow → Bool) (k : KeyRow) → find test t.keys ≡ some k → find test ks ≡ some k)
    → ((test : NamespaceRow → Bool) (n : NamespaceRow)
        → find test t.namespaces ≡ some n
        → find test ns ≡ some n)
    → Follows t (record t { namespaces = ns; definitions = ds; keys = ks; dependencies = es })
names-Follows t ns ds ks es kept known = record {
  activity = (Follows-refl t).activity;
  workflow = (Follows-refl t).workflow;
  key = kept;
  namespace = known;
  event = ([], sym (append-nil t.events));
  fresh = (Follows-refl t).fresh;
  keyed = λ k. k;
}

pub workflow_row-Follows :
    (t : Tables) (w : WorkflowRow) → Follows t (record t { workflows = t.workflows ++ w ∷ [] })
workflow_row-Follows t w = record {
  activity = (Follows-refl t).activity;
  workflow = λ id v h. (
    v,
    find-append_found (λ (x : WorkflowRow). text_eq x.id id) t.workflows (w ∷ []) v h,
    record { same_id = refl; same_namespace = refl; same_definition = refl; same_created = refl },
  );
  key = λ test x h. h;
  namespace = λ test n h. h;
  event = ([], sym (append-nil t.events));
  fresh = (Follows-refl t).fresh;
  keyed = λ k. k;
}

pub activity_row-Follows :
    (t : Tables) (a : ActivityRow)
    → IsSound a
    → find_activity a.id t.activities ≡ none
    → Follows t (record t { activities = t.activities ++ a ∷ [] })
activity_row-Follows t a sound free = record {
  activity = λ id b h. (
    b,
    find-append_found (λ (x : ActivityRow). text_eq x.id id) t.activities (a ∷ []) b h,
    RowKept-refl b,
  );
  workflow = (Follows-refl t).workflow;
  key = λ test x h. h;
  namespace = λ test n h. h;
  event = ([], sym (append-nil t.events));
  fresh = λ id b n h.
      let e : find_activity id (a ∷ []) ≡ some b =
        sym (find-append_new (λ (x : ActivityRow). text_eq x.id id) t.activities (a ∷ []) n) ∙ h in
      elim (Bool-cases (text_eq a.id id)) [
        | inl hit ↦ let same : a ≡ b = ground arith in rw same at sound
        | inr miss ↦ absurd (ground arith)
      ];
  keyed = λ d b m. elim (In-append b t.activities (a ∷ []) m) [
    | inl old ↦
        find-append_found (λ (x : ActivityRow). text_eq x.id b.id) t.activities (a ∷ []) b (d b old)
    | inr new ↦ elim new [
      | inl e ↦
          let b≡a : b ≡ a = e in
          rw b≡a (
            find-append_new (λ (x : ActivityRow). text_eq x.id a.id) t.activities (a ∷ []) free
            ∙ rw ((text_eq_iff a.id a.id).1 refl) refl)
      | inr n ↦ absurd n
    ]
  ];
}
