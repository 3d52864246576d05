-- ===== src/Engine/Cancel/Effect.antt =====
-- What Cancel leaves of each row.
use durablego.Base.{
  String, ◌≡◌, ◌≢◌, refl, sym, ap, ◌∙◌, ◌⊎◌, inl, inr, ◌||◌, if◌then◌else◌, List, [], ◌∷◌, none,
  some, get, All, All-In, All-map, In, text_eq, text_eq_iff, arith, Bool-cases, get-put_self,
  get-put_ne, subst,
}
use durablego.Types.{Workflow, WorkflowStatus, Activity, ActivityStatus, is_ready, is_retry_pending}
use durablego.Board.{ids_of}
use durablego.Engine.State.{Engine, ◌>>=◌, try_gets, tick, append_event, set_workflow}
use durablego.Engine.Cancel.{cancel_row, cancel_each, cancel_running, cancel_found, cancel}
use durablego.Engine.Steps.Valid.{EngineIsValid}
use durablego.Spec.Invariant.{IsListed}

-- A row of a workflow that is cancelled: cancelled if it waits, and otherwise as it was.
abbrev pub settled : Activity → Activity
settled a =
    if is_ready a.status || is_retry_pending a.status
    then record a { status = ActivityStatus.cancelled }
    else a

settled_again : (a : Activity) → settled (settled a) ≡ settled a
settled_again a = elim (Bool-cases (is_ready a.status || is_retry_pending a.status)) [
  | inl t ↦ rw t refl
  | inr f ↦ rw (f, f) refl
]

-- The row under `id` is settled, the other activities and the workflows are as they were.
abbrev Settles : String → Activity → Engine → Engine → Type 0
Settles id a e f =
    (get id f.activities ≡ some (settled a))
    × ((j : String) → id ≢ j → get j f.activities ≡ get j e.activities)
    × (f.workflows ≡ e.workflows)

cancel_row_lem :
    (wid id : String) (a : Activity) (e : Engine)
    → get id e.activities ≡ some a
    → (f : Engine) × (cancel_row wid id a e ≡ some (tt, f)) × Settles id a e f
unfolding cancel_row append_event
cancel_row_lem wid id a e h = elim (Bool-cases (is_ready a.status || is_retry_pending a.status)) [
  | inl t ↦
      rw t
        (_, refl, (get-put_self id _ e.activities, λ j n. get-put_ne id j _ e.activities n, refl))
  | inr f ↦ rw f (e, refl, (h, λ j n. refl, refl))
]

-- The rows under `ids` are settled, the other activities and the workflows are as they were.
abbrev SettlesAll : List String → Engine → Engine → Type 0
SettlesAll ids e f =
    ((id : String) (a : Activity)
      → get id e.activities ≡ some a
      → (In id ids × (get id f.activities ≡ some (settled a)))
        ⊎ (¬ In id ids × (get id f.activities ≡ some a)))
    × (f.workflows ≡ e.workflows)

some_injective : {a b : Activity} → some a ≡ some b → a ≡ b
some_injective e = ground arith

SettlesAll-cons :
    (id : String) (ids : List String) (a : Activity) (e f g : Engine)
    → get id e.activities ≡ some a
    → Settles id a e f
    → SettlesAll ids f g
    → SettlesAll (id ∷ ids) e g
SettlesAll-cons id ids a e f g h (here, others, same) (rest, same') = (rows, same' ∙ same)
  where
    rows :
        (j : String) (b : Activity)
        → get j e.activities ≡ some b
        → (In j (id ∷ ids) × (get j g.activities ≡ some (settled b)))
          ⊎ (¬ In j (id ∷ ids) × (get j g.activities ≡ some b))
    rows j b hj = elim (Bool-cases (text_eq id j)) [
      | inl hit ↦
          let eq : id ≡ j = (text_eq_iff id j).0 hit in
          let a≡b : a ≡ b = some_injective (sym h ∙ ap (λ i. get i e.activities) eq ∙ hj) in
          let done : get id g.activities ≡ some (settled a) = elim (rest id (settled a) here) [
            | inl (_, r) ↦ r ∙ ap some (settled_again a)
            | inr (_, r) ↦ r
          ] in
          inl (
            inl (sym eq),
            ap (λ i. get i g.activities) (sym eq) ∙ done ∙ ap (λ x. some (settled x)) a≡b,
          )
      | inr miss ↦
          let apart : id ≢ j = λ e. absurd (ground (arith, (text_eq_iff id j).1 e)) in
          elim (rest j b (others j apart ∙ hj)) [
            | inl (m, r) ↦ inl (inr m, r)
            | inr (n, r) ↦ inr (λ m. elim m [ inl e ↦ apart (sym e) | inr i ↦ n i ], r)
          ]
    ]

abbrev IsKnown : Engine → String → Type 0
IsKnown e id = (a : Activity) × (get id e.activities ≡ some a)

Settles-IsKnown :
    (id : String) (a : Activity) (e f : Engine)
    → Settles id a e f
    → (j : String) → IsKnown e j
    → IsKnown f j
Settles-IsKnown id a e f (here, others, _) j (b, hj) = elim (Bool-cases (text_eq id j)) [
  | inl hit ↦ (settled a, ap (λ i. get i f.activities) (sym ((text_eq_iff id j).0 hit)) ∙ here)
  | inr miss ↦ (b, others j (λ e. absurd (ground (arith, (text_eq_iff id j).1 e))) ∙ hj)
]

cancel_each_lem :
    (wid : String) (ids : List String) (e : Engine)
    → All (IsKnown e) ids
    → (f : Engine) × (cancel_each wid ids e ≡ some (tt, f)) × SettlesAll ids e f
unfolding cancel_each
cancel_each_lem wid [] e k = (e, refl, (λ id a h. inr (λ m. m, h), refl))
cancel_each_lem wid (id ∷ ids) e ((a, h), k) =
    let (f, r, s) = cancel_row_lem wid id a e h in
    let (g, q, t) = cancel_each_lem wid ids f (All-map ids (Settles-IsKnown id a e f s) k) in
    (g, rw (h, ◌>>=◌, try_gets) (rw (r, ◌>>=◌) q), SettlesAll-cons id ids a e f g h s t)

-- Cancel of a running workflow is accepted, and the workflow is cancelled. Each activity of it is
-- cancelled if it is ready or waits for a retry, and otherwise stays as it is, and each activity of
-- another workflow stays as it is.
pub cancel_lem :
    (wid id : String) (w : Workflow) (a : Activity) (e : Engine)
    → EngineIsValid e
    → get wid e.workflows ≡ some w
    → w.status ≡ WorkflowStatus.running
    → get id e.activities ≡ some a
    → (f : Engine) × (cancel wid e ≡ some (none, f))
      × ((u : Workflow) × (get wid f.workflows ≡ some u) × (u.status ≡ WorkflowStatus.cancelled))
      × (((a.workflow_id ≡ wid) × (get id f.activities ≡ some (settled a)))
          ⊎ ((a.workflow_id ≢ wid) × (get id f.activities ≡ some a)))
unfolding cancel cancel_found cancel_running append_event
cancel_lem wid id w a e v h live ha =
    let e' =
      set_workflow wid (record w { status = WorkflowStatus.cancelled; updated_at = e.now e.reads })
        (tick e) in
    let listed = v.rows.listed wid in
    let (f, r, (rows, same)) =
      cancel_each_lem wid (ids_of e.board wid) e'
        (All-map (ids_of e.board wid) (λ i (u, hu, _). (u, hu)) listed) in
    (
      append_event wid "" "workflow.cancelled" "workflow cancelled" f,
      rw h (rw (live, r, ◌>>=◌) refl),
      (_, ap (get wid) same ∙ get-put_self wid _ e.workflows, refl),
      elim (rows id a ha) [
        | inl (m, q) ↦
            let (u, hu, home) = All-In (IsListed e.board wid) (ids_of e.board wid) listed id m in
            let a≡u : a ≡ u = some_injective (sym ha ∙ hu) in
            inl (ap (λ x. x.workflow_id) a≡u ∙ home, q)
        | inr (n, q) ↦
            inr (λ home. n (subst (λ i. In id (ids_of e.board i)) home (v.rows.indexed id a ha)), q)
      ],
    )
