-- ===== src/Base/Maps.antt =====
-- Go's map[string]V as an association list with one entry for each key.
use Prim.Native.String.{String}
use mathlib.Core.Path.{◌≡◌, refl, sym, subst₂}
use mathlib.Core.Logic.{◌≢◌, ◌⊎◌, inl, inr}
use mathlib.Core.Option.{Option, none, some}
use mathlib.Core.List.{List, [], ◌∷◌}
use native.Mathlib.Omega.{arith}
use text.Mathlib.Text.{◌==◌}
use text.Mathlib.TextEquality.{eq_iff}
use durablego.Base.Tests.{if◌then◌else◌, Bool-cases}
use durablego.Base.Lists.{In}

abbrev pub Map : Type 0 → Type 0
Map V = List (String × V)

module _ {V : Type 0} where
  unfoldable pub get : String → Map V → Option V
  get k [] = none
  get k ((j, v) ∷ m) = if j == k then some v else get k m

  unfoldable pub put : String → V → Map V → Map V
  put k v [] = (k, v) ∷ []
  put k v ((j, w) ∷ m) = if j == k then (k, v) ∷ m else (j, w) ∷ put k v m

  unfoldable pub keys : Map V → List String
  keys [] = []
  keys ((j, v) ∷ m) = j ∷ keys m

  pub get-put :
      (k j : String) (v : V) (m : Map V) → get j (put k v m) ≡ (if k == j then some v else get j m)
  unfolding get put
  get-put k j v [] = refl
  get-put k j v ((i, w) ∷ m) = ground (arith, eq_iff k j, eq_iff i k, eq_iff i j, get-put k j v m)

  pub get-put_self : (k : String) (v : V) (m : Map V) → get k (put k v m) ≡ some v
  get-put_self k v m = rw (get-put k k v m, (eq_iff k k).1 refl)

  pub get-put_ne : (k j : String) (v : V) (m : Map V) → k ≢ j → get j (put k v m) ≡ get j m
  get-put_ne k j v m h = ground (arith, get-put k j v m, eq_iff k j)

  -- What is under a key after a write: the value written, or what was there before.
  pub get-put_cases :
      (k j : String) (v w : V) (m : Map V)
      → get j (put k v m) ≡ some w
      → ((k ≡ j) × (v ≡ w)) ⊎ ((k ≢ j) × (get j m ≡ some w))
  get-put_cases k j v w m h = elim (Bool-cases (k == j)) [
    | inl hit ↦ inl ((eq_iff k j).0 hit, ground (arith, get-put k j v m))
    | inr miss ↦ inr (λ e. ground (arith, (eq_iff k j).1 e), ground (arith, get-put k j v m))
  ]

  pub In-keys : (k : String) (m : Map V) → In k (keys m) → (v : V) × (get k m ≡ some v)
  unfolding get keys
  In-keys k [] h = absurd h
  In-keys k ((j, w) ∷ m) h = elim (Bool-cases (j == k)) [
    | inl hit ↦ (w, rw hit)
    | inr miss ↦
        rw miss
          (In-keys k m (elim h [ inl e ↦ absurd (ground (arith, eq_iff j k)) | inr later ↦ later ]))
  ]

  pub In-keys_of_get : (k : String) (v : V) (m : Map V) → get k m ≡ some v → In k (keys m)
  unfolding get keys
  In-keys_of_get k v [] h = absurd (cc)
  In-keys_of_get k v ((j, w) ∷ m) h = elim (Bool-cases (j == k)) [
    | inl hit ↦ inl (sym ((eq_iff j k).0 hit))
    | inr miss ↦ inr (In-keys_of_get k v m (rw miss at h))
  ]

  -- A write that respects a reflexive relation, seen from any key.
  pub put-relates :
      (R : V → V → Type 0) (k j : String) (v v' w : V) (m : Map V)
      → ((u : V) → R u u)
      → get k m ≡ some v
      → R v v'
      → get j m ≡ some w
      → (w' : V) × (get j (put k v' m) ≡ some w') × R w w'
  put-relates R k j v v' w m reflexive e r h = elim (Bool-cases (k == j)) [
    | inl hit ↦
        let k≡j : k ≡ j = (eq_iff k j).0 hit in
        let v≡w : v ≡ w = ground arith in (v', ground (arith, get-put k j v' m), rw v≡w at r)
    | inr miss ↦ (w, ground (arith, get-put k j v' m), reflexive w)
  ]

  -- A write under a new key hides nothing.
  pub get-put_new :
      (k j : String) (v w : V) (m : Map V)
      → get k m ≡ none
      → get j m ≡ some w
      → get j (put k v m) ≡ some w
  get-put_new k j v w m e h = ground (arith, get-put k j v m, eq_iff k j)

  -- What holds of all entries holds after a write of a value of which it holds.
  pub put-Forall {κ} :
      (P : String → V → Type κ) (k : String) (v : V) (m : Map V)
      → P k v
      → ((j : String) (w : V) → get j m ≡ some w → P j w)
      → (j : String) (w : V) → get j (put k v m) ≡ some w
      → P j w
  put-Forall P k v m p all j w h = elim (get-put_cases k j v w m h) [
    | inl (k≡j, v≡w) ↦ subst₂ P k≡j v≡w p
    | inr (_, old) ↦ all j w old
  ]

  -- A write to a key in use, or to another key, leaves a missing key missing.
  pub get-put_absent :
      (k j : String) (v v' : V) (m : Map V)
      → get k m ≡ some v
      → get j m ≡ none
      → get j (put k v' m) ≡ none
  get-put_absent k j v v' m e h = ground (arith, get-put k j v' m, eq_iff k j)

-- A nil slice for a missing key.
abbrev pub items : {A : Type 0} → Option (List A) → List A
items none = []
items (some xs) = xs
