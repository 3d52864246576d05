-- ===== src/Base/Order.antt =====
-- The order of texts by the numbers of their characters, as in Go's < on strings.
use Prim.Native.Nat.{◌<◌, Ordering, compare as compare_ℕ}
use Prim.Native.Char.{Char, code}
use Prim.Native.String.{String, [], compare}
use Prim.Native.String
use Prim.Native.String.compare as compare_clauses
use mathlib.Core.Path.{◌≡◌, refl, sym, ap, ◌∙◌, subst}
use mathlib.Core.Logic.{◌⊎◌, inl, inr}
use mathlib.Core.Bool.{true, false}
use native.Mathlib.Omega.{arith, compare-lt, compare-gt}
use text.Mathlib.Text.{is_le}
use text.Mathlib.TextEquality.{codes_equal}

-- The first text comes before the second one, or is the same.
pub data AtMost : String → String → Type 0 where
  first_ends : {t : String} → AtMost [] t
  less : {c d : Char} {s t : String} → code c < code d → AtMost (String.◌∷◌ c s) (String.◌∷◌ d t)
  alike : {c : Char} {s t : String} → AtMost s t → AtMost (String.◌∷◌ c s) (String.◌∷◌ c t)

pub AtMost-refl : (s : String) → AtMost s s
AtMost-refl [] = first_ends
AtMost-refl (String.◌∷◌ c s) = alike (AtMost-refl s)

pub AtMost-trans : {s t u : String} → AtMost s t → AtMost t u → AtMost s u
AtMost-trans first_ends k = first_ends
AtMost-trans (less h) (less k) = less (omega (arith, h, k))
AtMost-trans (less h) (alike k) = less h
AtMost-trans (alike h) (less k) = less k
AtMost-trans (alike h) (alike k) = alike (AtMost-trans h k)

alike_at :
    (c d : Char) (s t : String) → c ≡ d → AtMost s t → AtMost (String.◌∷◌ c s) (String.◌∷◌ d t)
alike_at c d s t e h = subst (λ x. AtMost (String.◌∷◌ c s) (String.◌∷◌ x t)) e (alike h)

-- What the comparison decides.
pub is_le_cases :
    (s t : String)
    → ((is_le (compare s t) ≡ true) × AtMost s t) ⊎ ((is_le (compare s t) ≡ false) × AtMost t s)
is_le_cases [] [] = inl (refl, first_ends)
is_le_cases [] (String.◌∷◌ d t) = inl (ap is_le (compare_clauses.nil-cons d t), first_ends)
is_le_cases (String.◌∷◌ c s) [] = inr (ap is_le (compare_clauses.cons-nil c s), first_ends)
is_le_cases (String.◌∷◌ c s) (String.◌∷◌ d t) =
    by_code (compare_ℕ (code c) (code d)) refl (is_le_cases s t)
  where
    unfold_ :
        (o : Ordering)
        → compare_ℕ (code c) (code d) ≡ o
        → is_le (compare (String.◌∷◌ c s) (String.◌∷◌ d t)) ≡ is_le (String.then o (compare s t))
    unfold_ o e =
        ap is_le (compare_clauses.cons-cons c d s t)
        ∙ ap (λ x. is_le (String.then x (compare s t))) e

    by_code :
        (o : Ordering)
        → compare_ℕ (code c) (code d) ≡ o
        → ((is_le (compare s t) ≡ true) × AtMost s t) ⊎ ((is_le (compare s t) ≡ false) × AtMost t s)
        → ((is_le (compare (String.◌∷◌ c s) (String.◌∷◌ d t)) ≡ true)
            × AtMost (String.◌∷◌ c s) (String.◌∷◌ d t))
          ⊎ ((is_le (compare (String.◌∷◌ c s) (String.◌∷◌ d t)) ≡ false)
              × AtMost (String.◌∷◌ d t) (String.◌∷◌ c s))
    by_code Ordering.lt e rest = inl (unfold_ Ordering.lt e, less (compare-lt (code c) (code d) e))
    by_code Ordering.gt e rest = inr (unfold_ Ordering.gt e, less (compare-gt (code c) (code d) e))
    by_code Ordering.eq e rest =
        let same : c ≡ d = codes_equal c d e in
        elim rest [
          | inl (h, k) ↦ inl (unfold_ Ordering.eq e ∙ h, alike_at c d s t same k)
          | inr (h, k) ↦ inr (unfold_ Ordering.eq e ∙ h, alike_at d c t s (sym same) k)
        ]
