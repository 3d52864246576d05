-- ===== src/Spec/Dependencies.antt =====
-- The tests of the engine on the rows of a workflow decide what the specification says.
use durablego.Base.{
  String, ◌≡◌, refl, ◌↔◌, ◌⊎◌, inl, inr, Bool, true, false, List, [], ◌∷◌, Option, some, Map, get,
  All, In, All-map, Bool-cases, text_eq, text_eq_iff, arith,
}
use durablego.Types.{Activity, ActivityStatus, is_completed}
use durablego.Board.{
  Board, ids_of, upstream_complete, all_upstream_complete, dependencies_complete, all_completed,
}
use durablego.Spec.Move.{IsDone, DepDone, DepsDone}
use durablego.Spec.Invariant.{IsListed}

pub is_completed_iff :
    (s : ActivityStatus) → (is_completed s ≡ true) ↔ (s ≡ ActivityStatus.completed)
is_completed_iff s = ground arith

abbrev IsKnown : Map Activity → String → Type 0
IsKnown m id = (u : Activity) × (get id m ≡ some u)

-- The test returned, and returned true exactly where `P` holds.
abbrev pub Decides : Option Bool → Type 0 → Type 0
Decides o P = (r : Bool) × (o ≡ some r) × ((r ≡ true) ↔ P)

module _ (m : Map Activity) (dep : String) where
  abbrev Every : List String → Type 0
  Every ids =
      All
        (λ id.
          (u : Activity) → get id m ≡ some u → u.name ≡ dep → u.status ≡ ActivityStatus.completed)
        ids

  abbrev Found : List String → Type 0
  Found ids = (id : String) × In id ids × ((u : Activity) × (get id m ≡ some u) × (u.name ≡ dep))

  Found-cons : (id : String) (ids : List String) → Found ids → Found (id ∷ ids)
  Found-cons id ids (j, i, f) = (j, inr i, f)

  -- A row of another name says nothing.
  skip :
      (id : String) (ids : List String) (u : Activity)
      → get id m ≡ some u
      → text_eq u.name dep ≡ false
      → Found (id ∷ ids)
      → Found ids
  skip id ids u e other (j, inl here, (v, ev, named)) =
      let ev' : get id m ≡ some v = rw here at ev in
      absurd (ground (arith, (text_eq_iff u.name dep).1))
  skip id ids u e other (j, inr i, f) = (j, i, f)

  Every-other :
      (id : String) (u : Activity)
      → get id m ≡ some u
      → text_eq u.name dep ≡ false
      → (v : Activity) → get id m ≡ some v
      → v.name ≡ dep
      → v.status ≡ ActivityStatus.completed
  Every-other id u e other v ev named = absurd (ground (arith, (text_eq_iff u.name dep).1))

  upstream_complete-decides :
      (found : Bool) (ids : List String)
      → All (IsKnown m) ids
      → Decides (upstream_complete m dep found ids) (Every ids × ((found ≡ true) ⊎ Found ids))
  unfolding upstream_complete
  upstream_complete-decides found [] k =
      (found, refl, (λ h. (tt, inl h), λ (_, h). elim h [ inl e ↦ e | inr (_, i, _) ↦ absurd i ]))
  upstream_complete-decides found (id ∷ ids) ((u, e), k) = elim (Bool-cases (text_eq u.name dep)) [
    | inl named ↦
        let n : u.name ≡ dep = (text_eq_iff u.name dep).0 named in
        elim (Bool-cases (is_completed u.status)) [
          | inl done ↦
              let d : u.status ≡ ActivityStatus.completed = (is_completed_iff u.status).0 done in
              let (r, er, iff) = upstream_complete-decides true ids k in
              (
                r,
                ground (arith, er),
                (
                  λ h. ((λ v ev _. ground arith, (iff.0 h).0), inr (id, inl refl, (u, e, n))),
                  λ (every, _). iff.1 (every.1, inl refl),
                ),
              )
          | inr undone ↦
              (false, ground arith, (λ h. absurd (cc), λ (every, _). ground (arith, every.0 u e n)))
        ]
    | inr other ↦
        let (r, er, iff) = upstream_complete-decides found ids k in
        (
          r,
          ground (arith, er),
          (
            λ h. (
              (Every-other id u e other, (iff.0 h).0),
              elim ((iff.0 h).1) [ inl f ↦ inl f | inr f ↦ inr (Found-cons id ids f) ],
            ),
            λ (every, f).
                iff.1 (every.1, elim f [ inl t ↦ inl t | inr g ↦ inr (skip id ids u e other g) ]),
          ),
        )
  ]

module _ (b : Board) (wid : String) (known : All (IsKnown b.activities) (ids_of b wid)) where
  upstream_complete-DepDone :
      (dep : String)
      → Decides (upstream_complete b.activities dep false (ids_of b wid)) (DepDone b wid dep)
  upstream_complete-DepDone dep =
      let (r, e, iff) = upstream_complete-decides b.activities dep false (ids_of b wid) known in
      (
        r,
        e,
        (
          λ h. record { every = (iff.0 h).0; found = found_true ((iff.0 h).1) },
          λ d. iff.1 (d.every, inr d.found),
        ),
      )
    where
      found_true :
          (false ≡ true) ⊎ Found b.activities dep (ids_of b wid)
          → Found b.activities dep (ids_of b wid)
      found_true (inl f) = absurd (cc)
      found_true (inr f) = f

  both-decide :
      (dep : String) (deps : List String)
      → Decides (upstream_complete b.activities dep false (ids_of b wid)) (DepDone b wid dep)
      → Decides (all_upstream_complete b.activities (ids_of b wid) deps) (All (DepDone b wid) deps)
      → Decides
          (all_upstream_complete b.activities (ids_of b wid) (dep ∷ deps))
          (All (DepDone b wid) (dep ∷ deps))
  unfolding all_upstream_complete
  both-decide dep deps (true, e, iff) (r, er, more) =
      (r, ground (arith, er), (λ h. (iff.0 refl, more.0 h), λ d. more.1 d.1))
  both-decide dep deps (false, e, iff) _ = (false, ground arith, (λ h. absurd (cc), λ d. iff.1 d.0))

  all_upstream_complete-decides :
      (deps : List String)
      → Decides (all_upstream_complete b.activities (ids_of b wid) deps) (All (DepDone b wid) deps)
  unfolding all_upstream_complete
  all_upstream_complete-decides [] = (true, refl, (λ _. tt, λ _. refl))
  all_upstream_complete-decides (dep ∷ deps) =
      both-decide dep deps (upstream_complete-DepDone dep) (all_upstream_complete-decides deps)

-- Where the ids of the row's workflow all lead to rows of that workflow, the test on the row returns,
-- and it is true exactly if each name in the row's dependencies is met: some row of the workflow has
-- the name, and every one that has it is completed.
pub dependencies_complete-decides :
    (b : Board) (a : Activity)
    → All (IsListed b a.workflow_id) (ids_of b a.workflow_id)
    → Decides (dependencies_complete a b) (DepsDone b a)
unfolding dependencies_complete
dependencies_complete-decides b a k =
    all_upstream_complete-decides b a.workflow_id
      (All-map (ids_of b a.workflow_id) (λ id (u, e, _). (u, e)) k) a.depends_on

all_completed-known :
    (b : Board) (ids : List String)
    → All (IsKnown b.activities) ids
    → Decides (all_completed b.activities ids) (All (IsDone b) ids)
unfolding all_completed
all_completed-known b [] k = (true, refl, (λ _. tt, λ _. refl))
all_completed-known b (id ∷ ids) ((u, e), k) = elim (Bool-cases (is_completed u.status)) [
  | inl done ↦
      let (r, er, iff) = all_completed-known b ids k in
      (
        r,
        ground (arith, er),
        (λ h. ((u, e, (is_completed_iff u.status).0 done), iff.0 h), λ d. iff.1 d.1),
      )
  | inr undone ↦ (false, ground arith, (λ h. absurd (cc), λ ((v, ev, d), _). ground arith))
]

pub all_completed-decides :
    (b : Board) (wid : String)
    → All (IsListed b wid) (ids_of b wid)
    → Decides (all_completed b.activities (ids_of b wid)) (All (IsDone b) (ids_of b wid))
all_completed-decides b wid k =
    all_completed-known b (ids_of b wid) (All-map (ids_of b wid) (λ id (u, e, _). (u, e)) k)
