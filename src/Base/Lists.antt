-- ===== src/Base/Lists.antt =====
-- Predicates on lists by recursion, which compute to tuples and sums.
use Prim.Native.Nat.{ℕ, suc, ◌≤◌}
use mathlib.Core.Path.{◌≡◌, refl, ap, ◌∙◌}
use mathlib.Core.Logic.{◌⊎◌, inl, inr}
use mathlib.Core.List.{List, [], ◌∷◌, ◌++◌}
use mathlib.Core.Bool.{Bool, true, false, ◌||◌}
use mathlib.Core.Option.{Option, none, some}
use durablego.Base.Tests.{if◌then◌else◌, Bool-cases}
use native.Mathlib.Omega.{arith}

abbrev pub length {ℓ} : {A : Type ℓ} → List A → ℕ
length [] = 0
length (x ∷ xs) = suc (length xs)

abbrev pub All {ℓ κ} : {A : Type ℓ} → (A → Type κ) → List A → Type κ
All P [] = Unit
All P (x ∷ xs) = P x × All P xs

-- Membership, with the place kept.
abbrev pub In : {A : Type 0} → A → List A → Type 0
In a [] = ⊥
In a (x ∷ xs) = (a ≡ x) ⊎ In a xs

pub All-append {ℓ κ} :
    {A : Type ℓ} (P : A → Type κ) (xs ys : List A) → All P xs → All P ys → All P (xs ++ ys)
All-append P [] ys hx hy = hy
All-append P (x ∷ xs) ys hx hy = (hx.0, All-append P xs ys hx.1 hy)

pub All-map {ℓ κ} :
    {A : Type ℓ} {P Q : A → Type κ} (xs : List A) → ((a : A) → P a → Q a) → All P xs → All Q xs
All-map [] f h = tt
All-map (x ∷ xs) f h = (f x h.0, All-map xs f h.1)

pub All-In : {A : Type 0} (P : A → Type 0) (xs : List A) → All P xs → (a : A) → In a xs → P a
All-In P [] h a m = absurd m
All-In {A} P (x ∷ xs) h a m = elim m [ inl e ↦ back e h.0 | inr later ↦ All-In P xs h.1 a later ]
  where
    back : a ≡ x → P x → P a
    back e p = rw e p

pub All-of_In : {A : Type 0} {P : A → Type 0} (xs : List A) → ((a : A) → In a xs → P a) → All P xs
All-of_In [] f = tt
All-of_In (x ∷ xs) f = (f x (inl refl), All-of_In xs (λ a m. f a (inr m)))

pub In-append_left : {A : Type 0} (a : A) (xs ys : List A) → In a xs → In a (xs ++ ys)
In-append_left a [] ys m = absurd m
In-append_left a (x ∷ xs) ys (inl e) = inl e
In-append_left a (x ∷ xs) ys (inr m) = inr (In-append_left a xs ys m)

pub In-append_right : {A : Type 0} (a : A) (xs ys : List A) → In a ys → In a (xs ++ ys)
In-append_right a [] ys m = m
In-append_right a (x ∷ xs) ys m = inr (In-append_right a xs ys m)

abbrev pub map {ℓ κ} : {A : Type ℓ} {B : Type κ} → (A → B) → List A → List B
map f [] = []
map f (x ∷ xs) = f x ∷ map f xs

-- The elements that pass a test, in their order.
abbrev pub filter {ℓ} : {A : Type ℓ} → (A → Bool) → List A → List A
filter p [] = []
filter p (x ∷ xs) = let rest = filter p xs in if p x then x ∷ rest else rest

abbrev pub any {ℓ} : {A : Type ℓ} → (A → Bool) → List A → Bool
any p [] = false
any p (x ∷ xs) = p x || any p xs

-- The first element that passes.
abbrev pub find {ℓ} : {A : Type ℓ} → (A → Bool) → List A → Option A
find p [] = none
find p (x ∷ xs) = let rest = find p xs in if p x then some x else rest

-- Insertion in front of the first element that is not before it, and the sort by insertion.
abbrev pub insert_by {ℓ} : {A : Type ℓ} → (A → A → Bool) → A → List A → List A
insert_by before x [] = x ∷ []
insert_by before x (y ∷ ys) =
    let rest = insert_by before x ys in if before y x then y ∷ rest else x ∷ y ∷ ys

abbrev pub sort_by {ℓ} : {A : Type ℓ} → (A → A → Bool) → List A → List A
sort_by before [] = []
sort_by before (x ∷ xs) = insert_by before x (sort_by before xs)

abbrev pub mapped {ℓ κ} : {A : Type ℓ} {B : Type κ} → (A → B) → Option A → Option B
mapped f none = none
mapped f (some a) = some (f a)

module _ {A : Type 0} (test : A → Bool) where
  -- A change that the test does not see.
  pub find-map :
      (g : A → A)
      → ((a : A) → test (g a) ≡ test a)
      → (xs : List A) → find test (map g xs) ≡ mapped g (find test xs)
  find-map g same [] = refl
  find-map g same (x ∷ xs) = elim (Bool-cases (test x)) [
    | inl hit ↦ rw (same x, hit) refl
    | inr miss ↦ rw (same x, miss) (find-map g same xs)
  ]

  pub find-append_found :
      (xs ys : List A) (a : A) → find test xs ≡ some a → find test (xs ++ ys) ≡ some a
  find-append_found [] ys a h = absurd (cc)
  find-append_found (x ∷ xs) ys a h = elim (Bool-cases (test x)) [
    | inl hit ↦ rw hit (rw hit at h)
    | inr miss ↦ rw miss (find-append_found xs ys a (rw miss at h))
  ]

  pub find-append_new : (xs ys : List A) → find test xs ≡ none → find test (xs ++ ys) ≡ find test ys
  find-append_new [] ys h = refl
  find-append_new (x ∷ xs) ys h = elim (Bool-cases (test x)) [
    | inl hit ↦ absurd (ground arith)
    | inr miss ↦ rw miss (find-append_new xs ys (rw miss at h))
  ]

  -- What is found passes.
  pub find-test : (xs : List A) (a : A) → find test xs ≡ some a → test a ≡ true
  find-test [] a h = absurd (cc)
  find-test (x ∷ xs) a h = elim (Bool-cases (test x)) [
    | inl hit ↦ ground arith
    | inr miss ↦ find-test xs a (rw miss at h)
  ]

pub In-map :
    {A B : Type 0} (f : A → B) (xs : List A) (b : B)
    → In b (map f xs)
    → (a : A) × In a xs × (b ≡ f a)
In-map f [] b m = absurd m
In-map f (x ∷ xs) b (inl e) = (x, inl refl, e)
In-map f (x ∷ xs) b (inr m) = let (a, i, e) = In-map f xs b m in (a, inr i, e)

pub In-append : {A : Type 0} (a : A) (xs ys : List A) → In a (xs ++ ys) → In a xs ⊎ In a ys
In-append a [] ys m = inr m
In-append a (x ∷ xs) ys (inl e) = inl (inl e)
In-append a (x ∷ xs) ys (inr m) = elim (In-append a xs ys m) [ inl l ↦ inl (inr l) | inr r ↦ inr r ]

module _ {A : Type 0} (test : A → Bool) where
  pub In-filter : (xs : List A) (a : A) → In a (filter test xs) → In a xs × (test a ≡ true)
  In-filter [] a m = absurd m
  In-filter (x ∷ xs) a m = elim (Bool-cases (test x)) [
    | inr miss ↦ let (i, t) = In-filter xs a (rw miss at m) in (inr i, t)
    | inl hit ↦ elim (rw hit at m) as (λ _. In a (x ∷ xs) × (test a ≡ true)) [
      | inl e ↦ (inl e, ap test e ∙ hit)
      | inr l ↦ let (i, t) = In-filter xs a l in (inr i, t)
    ]
  ]

  pub filter-In : (xs : List A) (a : A) → In a xs → test a ≡ true → In a (filter test xs)
  filter-In [] a m t = absurd m
  filter-In (x ∷ xs) a m t = elim (Bool-cases (test x)) [
    | inl hit ↦ rw hit (elim m [ inl e ↦ inl e | inr l ↦ inr (filter-In xs a l t) ])
    | inr miss ↦ elim m [
      | inl e ↦ absurd (ground (arith, ap test e))
      | inr l ↦ rw miss (filter-In xs a l t)
    ]
  ]

module _ {A : Type 0} (before : A → A → Bool) where
  pub In-insert_by :
      (x : A) (ys : List A) (a : A) → In a (insert_by before x ys) → (a ≡ x) ⊎ In a ys
  In-insert_by x [] a (inl e) = inl e
  In-insert_by x [] a (inr m) = absurd m
  In-insert_by x (y ∷ ys) a m = elim (Bool-cases (before y x)) [
    | inl later ↦ elim (rw later at m) as (λ _. (a ≡ x) ⊎ In a (y ∷ ys)) [
      | inl e ↦ inr (inl e)
      | inr l ↦ elim (In-insert_by x ys a l) [ inl e ↦ inl e | inr i ↦ inr (inr i) ]
    ]
    | inr here ↦ rw here at m
  ]

  pub In-sort_by : (xs : List A) (a : A) → In a (sort_by before xs) → In a xs
  In-sort_by [] a m = m
  In-sort_by (x ∷ xs) a m = elim (In-insert_by x (sort_by before xs) a m) [
    | inl e ↦ inl e
    | inr i ↦ inr (In-sort_by xs a i)
  ]

-- The head of a sorted list is least, by a key that the test respects.
module _ {A : Type 0} (before : A → A → Bool) (key : A → ℕ) where
  abbrev pub IsLeast : A → List A → Type 0
  IsLeast x ys = All (λ y. key x ≤ key y) ys

  abbrev pub HeadIsLeast : List A → Type 0
  HeadIsLeast [] = Unit {0}
  HeadIsLeast (x ∷ xs) = IsLeast x (x ∷ xs)

  insert_by-IsLeast :
      (y x : A) (zs : List A) → key y ≤ key x → IsLeast y zs → IsLeast y (insert_by before x zs)
  insert_by-IsLeast y x [] h k = (h, tt)
  insert_by-IsLeast y x (z ∷ zs) h k = elim (Bool-cases (before z x)) [
    | inl later ↦ rw later (k.0, insert_by-IsLeast y x zs h k.1)
    | inr here ↦ rw here (h, k)
  ]

  insert_by-HeadIsLeast :
      ((x y : A) → before y x ≡ true → key y ≤ key x)
      → ((x y : A) → before y x ≡ false → key x ≤ key y)
      → (x : A) (ys : List A) → HeadIsLeast ys
      → HeadIsLeast (insert_by before x ys)
  insert_by-HeadIsLeast yes_le no_le x [] h = (omega arith, tt)
  insert_by-HeadIsLeast yes_le no_le x (y ∷ ys) h = elim (Bool-cases (before y x)) [
    | inl later ↦ rw later (h.0, insert_by-IsLeast y x ys (yes_le x y later) h.1)
    | inr here ↦
        rw here
          (omega arith, (no_le x y here, All-map ys (λ z l. omega (arith, l, no_le x y here)) h.1))
  ]

  pub sort_by-HeadIsLeast :
      ((x y : A) → before y x ≡ true → key y ≤ key x)
      → ((x y : A) → before y x ≡ false → key x ≤ key y)
      → (xs : List A) → HeadIsLeast (sort_by before xs)
  sort_by-HeadIsLeast yes_le no_le [] = tt
  sort_by-HeadIsLeast yes_le no_le (x ∷ xs) =
      insert_by-HeadIsLeast yes_le no_le x (sort_by before xs) (sort_by-HeadIsLeast yes_le no_le xs)

module _ {A : Type 0} (before : A → A → Bool) where
  insert_by-In_self : (x : A) (ys : List A) → In x (insert_by before x ys)
  insert_by-In_self x [] = inl refl
  insert_by-In_self x (y ∷ ys) = elim (Bool-cases (before y x)) [
    | inl later ↦ rw later (inr (insert_by-In_self x ys))
    | inr here ↦ rw here (inl refl)
  ]

  insert_by-In : (x : A) (ys : List A) (a : A) → In a ys → In a (insert_by before x ys)
  insert_by-In x [] a m = absurd m
  insert_by-In x (y ∷ ys) a m = elim (Bool-cases (before y x)) [
    | inl later ↦ rw later (elim m [ inl e ↦ inl e | inr i ↦ inr (insert_by-In x ys a i) ])
    | inr here ↦ rw here (inr m)
  ]

  pub sort_by-In : (xs : List A) (a : A) → In a xs → In a (sort_by before xs)
  sort_by-In [] a m = m
  sort_by-In (x ∷ xs) a (inl e) = rw e (insert_by-In_self x (sort_by before xs))
  sort_by-In (x ∷ xs) a (inr m) = insert_by-In x (sort_by before xs) a (sort_by-In xs a m)
