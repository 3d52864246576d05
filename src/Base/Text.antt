-- ===== src/Base/Text.antt =====
-- Texts, and the decimal formats that the source prints: %d and %06d.
use Prim.Native.Nat.{ℕ, zero, suc, ◌+◌, ◌-◌, ◌*◌, ◌/◌, ◌%◌, ◌≤◌, ◌<◌}
use Prim.Native.Char.{Char, code}
use Prim.Native.String.{String, []}
use Prim.Native.String
use mathlib.Core.Path.{◌≡◌, refl, sym, ap, ◌∙◌}
use mathlib.Core.Logic.{inl, inr}
use mathlib.Core.Bool.{◌&&◌}
use native.Mathlib.Omega.{arith}
use durablego.Base.Tests.{◌==◌, if◌then◌else◌, Bool-cases}

-- "" ++ "" on texts.
abbrev pub concat : String → String → String
concat s t = String.◌++◌ s t

-- The digit of a number below ten.
digit : ℕ → Char
digit zero = "0"
digit (suc zero) = "1"
digit (suc (suc zero)) = "2"
digit (suc (suc (suc zero))) = "3"
digit (suc (suc (suc (suc zero)))) = "4"
digit (suc (suc (suc (suc (suc zero))))) = "5"
digit (suc (suc (suc (suc (suc (suc zero)))))) = "6"
digit (suc (suc (suc (suc (suc (suc (suc zero))))))) = "7"
digit (suc (suc (suc (suc (suc (suc (suc (suc zero)))))))) = "8"
digit (suc (suc (suc (suc (suc (suc (suc (suc (suc d))))))))) = "9"

-- At least `width` digits of `n`, before `suffix`; `fuel` bounds the digits.
digits : ℕ → ℕ → ℕ → String → String
unfolding digit
digits zero width n suffix = suffix
digits (suc fuel) width n suffix =
    let rest = digits fuel (width - 1) (n / 10) (String.◌∷◌ (digit (n % 10)) suffix) in
    if n == 0 && width == 0 then suffix else rest

-- %d of a number that is not negative, and %06d.
unfoldable pub decimal : ℕ → String
unfolding digits
decimal n = digits (n + 1) 1 n ""

unfoldable pub padded : ℕ → String
unfolding digits
padded n = digits (n + 6) 6 n ""

-- The number that a text of digits denotes, read after `acc`.
value_from : ℕ → String → ℕ
value_from acc String.[] = acc
value_from acc (String.◌∷◌ c s) = value_from (acc * 10 + (code c - 48)) s

code-digit : (d : ℕ) → d < 10 → code (digit d) - 48 ≡ d
unfolding digit
code-digit zero h = refl
code-digit (suc zero) h = refl
code-digit (suc (suc zero)) h = refl
code-digit (suc (suc (suc zero))) h = refl
code-digit (suc (suc (suc (suc zero)))) h = refl
code-digit (suc (suc (suc (suc (suc zero))))) h = refl
code-digit (suc (suc (suc (suc (suc (suc zero)))))) h = refl
code-digit (suc (suc (suc (suc (suc (suc (suc zero))))))) h = refl
code-digit (suc (suc (suc (suc (suc (suc (suc (suc zero)))))))) h = refl
code-digit (suc (suc (suc (suc (suc (suc (suc (suc (suc zero))))))))) h = refl
code-digit (suc (suc (suc (suc (suc (suc (suc (suc (suc (suc d)))))))))) h = absurd (omega arith)

-- With enough fuel the digits denote the number.
value_from-digits :
    (fuel width n : ℕ) (suffix : String)
    → n + width ≤ fuel
    → value_from 0 (digits fuel width n suffix) ≡ value_from n suffix
unfolding digits value_from
value_from-digits zero width n suffix h = ap (λ m. value_from m suffix) (omega arith)
value_from-digits (suc fuel) width n suffix h = elim (Bool-cases (n == 0 && width == 0)) [
  | inl done ↦ rw done (ap (λ m. value_from m suffix) (ground arith))
  | inr more ↦ rw more (
      value_from-digits fuel (width - 1) (n / 10) (String.◌∷◌ (digit (n % 10)) suffix)
        (ground arith)
      ∙ ap (λ m. value_from m suffix) (omega (arith, code-digit (n % 10) (omega arith))))
]

-- Different numbers print differently.
pub padded_injective : (m n : ℕ) → padded m ≡ padded n → m ≡ n
unfolding padded value_from
padded_injective m n e =
    sym (value_from-digits (m + 6) 6 m "" (omega arith))
    ∙ ap (value_from 0) e
    ∙ value_from-digits (n + 6) 6 n "" (omega arith)

padded_seven : padded 7 ≡ "000007"
unfolding padded
padded_seven = refl

decimal_twelve : decimal 1200 ≡ "1200"
unfolding decimal
decimal_twelve = refl
