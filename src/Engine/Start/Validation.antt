-- ===== src/Engine/Start/Validation.antt =====
-- The validation of a definition accepts exactly the well-formed ones, and a refused Start changes
-- nothing.
use durablego.Base.{
  String, ◌≡◌, ◌≢◌, refl, sym, ◌⊎◌, inl, inr, ◌↔◌, true, List, [], ◌∷◌, none, some, All, In,
  text_eq, text_eq_iff, arith, Bool-cases, concat,
}
use durablego.Types.{WorkflowDefinition, ActivityDefinition, invalid_transition, ok, err}
use durablego.Engine.Start.{contains, check_names, check_deps, check_all_deps, validate}

contains_iff : (names : List String) (x : String) → (contains names x ≡ true) ↔ In x names
unfolding contains
contains_iff [] x = (λ h. absurd (cc), λ h. absurd h)
contains_iff (y ∷ ys) x =
    let (there, back) = contains_iff ys x in
    (
      λ h. elim (Bool-cases (text_eq y x)) [
        | inl hit ↦ inl (sym ((text_eq_iff y x).0 hit))
        | inr miss ↦ inr (there (ground arith))
      ],
      λ m. elim m [ inl e ↦ ground (arith, text_eq_iff y x) | inr n ↦ ground (arith, back n) ],
    )

-- The names of the activities, the last first, before `seen`.
abbrev pub names_onto : List String → List ActivityDefinition → List String
names_onto seen [] = seen
names_onto seen (d ∷ ds) = names_onto (d.name ∷ seen) ds

-- No activity lacks a name, or has one of `seen` or of an activity before it.
abbrev pub AreNamed : List String → List ActivityDefinition → Type 0
AreNamed seen [] = Unit {0}
AreNamed seen (d ∷ ds) = (d.name ≢ "") × ¬ In d.name seen × AreNamed (d.name ∷ seen) ds

-- Every activity has a name of its own, and every dependency is the name of an activity.
abbrev pub IsWellFormed : WorkflowDefinition → Type 0
IsWellFormed d =
    AreNamed [] d.activities
    × All
        (λ (x : ActivityDefinition). All (λ dep. In dep (names_onto [] d.activities)) x.depends_on)
        d.activities

check_names_iff :
    (seen : List String) (ds : List ActivityDefinition)
    → (AreNamed seen ds × (check_names seen ds ≡ ok (names_onto seen ds)))
      ⊎ (¬ AreNamed seen ds
          × ((why : String) × (check_names seen ds ≡ err (invalid_transition why))))
unfolding check_names
check_names_iff seen [] = inl (tt, refl)
check_names_iff seen (d ∷ ds) = elim (Bool-cases (text_eq d.name "")) [
  | inl nameless ↦
      inr (
        λ n. n.0 ((text_eq_iff d.name "").0 nameless),
        ("activity name required", rw nameless refl),
      )
  | inr named ↦ elim (Bool-cases (contains seen d.name)) [
    | inl again ↦ inr (
      λ n. n.1 ((contains_iff seen d.name).0 again),
      (concat "duplicate activity " d.name, rw (named, again) refl),
    )
    | inr new ↦ elim (check_names_iff (d.name ∷ seen) ds) [
      | inl (n, r) ↦ inl (
        (
          λ e. absurd (ground (arith, (text_eq_iff d.name "").1 e)),
          λ m. absurd (ground (arith, (contains_iff seen d.name).1 m)),
          n,
        ),
        rw (named, new) r,
      )
      | inr (n, (why, r)) ↦ inr (λ k. n k.2, (why, rw (named, new) r))
    ]
  ]
]

check_deps_iff :
    (names deps : List String)
    → (All (λ dep. In dep names) deps × (check_deps names deps ≡ none))
      ⊎ (¬ All (λ dep. In dep names) deps
          × ((why : String) × (check_deps names deps ≡ some (invalid_transition why))))
unfolding check_deps
check_deps_iff names [] = inl (tt, refl)
check_deps_iff names (dep ∷ deps) = elim (Bool-cases (contains names dep)) [
  | inl known ↦ elim (check_deps_iff names deps) [
    | inl (k, r) ↦ inl (((contains_iff names dep).0 known, k), rw known r)
    | inr (n, (why, r)) ↦ inr (λ k. n k.1, (why, rw known r))
  ]
  | inr unknown ↦ inr (
    λ k. absurd (ground (arith, (contains_iff names dep).1 k.0)),
    (concat "unknown dependency " dep, rw unknown refl),
  )
]

check_all_deps_iff :
    (names : List String) (ds : List ActivityDefinition)
    → (All (λ (x : ActivityDefinition). All (λ dep. In dep names) x.depends_on) ds
        × (check_all_deps names ds ≡ none))
      ⊎ (¬ All (λ (x : ActivityDefinition). All (λ dep. In dep names) x.depends_on) ds
          × ((why : String) × (check_all_deps names ds ≡ some (invalid_transition why))))
unfolding check_all_deps
check_all_deps_iff names [] = inl (tt, refl)
check_all_deps_iff names (d ∷ ds) = elim (check_deps_iff names d.depends_on) [
  | inr (n, (why, r)) ↦ inr (λ k. n k.0, (why, ground arith))
  | inl (k, r) ↦ elim (check_all_deps_iff names ds) [
    | inl (ks, rs) ↦ inl ((k, ks), ground arith)
    | inr (n, (why, rs)) ↦ inr (λ q. n q.1, (why, ground arith))
  ]
]

-- The validation of Start passes exactly the well-formed definitions, and reports an invalid
-- transition for each other.
pub validate_cases :
    (d : WorkflowDefinition)
    → (IsWellFormed d × (validate d ≡ none))
      ⊎ (¬ IsWellFormed d × ((why : String) × (validate d ≡ some (invalid_transition why))))
unfolding validate
validate_cases d = elim (check_names_iff [] d.activities) [
  | inr (n, (why, r)) ↦ inr (λ w. n w.0, (why, ground arith))
  | inl (n, r) ↦ elim (check_all_deps_iff (names_onto [] d.activities) d.activities) [
    | inl (k, rk) ↦ inl ((n, k), ground arith)
    | inr (m, (why, rk)) ↦ inr (λ w. m w.1, (why, ground arith))
  ]
]
