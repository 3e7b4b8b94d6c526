-- ===== src/Prelude/Decimal.antt =====
-- The decimal text of a number, as `to_string` writes it.
use Prim.Native.Nat.{ℕ, zero, suc, ◌+◌, ◌-◌, ◌*◌, ◌/◌, ◌%◌, ◌^◌, ◌<◌}
use mathlib.Core.Path.{◌≡◌, refl, ap, ◌∙◌}
use mathlib.Core.Logic.{inl, inr}
use mathlib.Core.Bool.{true, false}
use mathlib.Core.Option.{some}
use mathlib.Core.List.{[], ◌∷◌, ◌++◌}
use native.Mathlib.Omega.{arith}
use rust_xpra.Prelude.Tests.{◌==◌, if◌then◌else◌, Bool-cases}
use rust_xpra.Prelude.Text.{Bytes, contains, is_empty, is_digit, digits_value, parse_unsigned}

-- At most `fuel` digits.
unfoldable pub decimal : ℕ → ℕ → Bytes
decimal zero n = []
decimal (suc fuel) n =
    let rest = decimal fuel (n / 10) in (if n / 10 == 0 then [] else rest) ++ ((b'0' + n % 10) ∷ [])

abbrev pub AreDigits : Bytes → Type 0
AreDigits [] = Unit
AreDigits (c ∷ s) = (is_digit c ≡ true) × AreDigits s

pub AreDigits-append : (s t : Bytes) → AreDigits s → AreDigits t → AreDigits (s ++ t)
AreDigits-append [] t h k = k
AreDigits-append (c ∷ s) t h k = (h.0, AreDigits-append s t h.1 k)

pub AreDigits-decimal : (fuel n : ℕ) → AreDigits (decimal fuel n)
unfolding decimal
AreDigits-decimal zero n = tt
AreDigits-decimal (suc fuel) n = elim (Bool-cases (n / 10 == 0)) [
  | inl z ↦ rw z (ground arith, tt)
  | inr z ↦ rw z (
      AreDigits-append (decimal fuel (n / 10)) ((b'0' + n % 10) ∷ [])
        (AreDigits-decimal fuel (n / 10)) (ground arith, tt))
]

contains-AreDigits : (s : Bytes) (c : ℕ) → is_digit c ≡ false → AreDigits s → contains s c ≡ false
contains-AreDigits [] c h k = refl
contains-AreDigits (a ∷ s) c h k = ground (arith, contains-AreDigits s c h)

-- A number is written with digits only.
pub contains-decimal : (fuel n c : ℕ) → is_digit c ≡ false → contains (decimal fuel n) c ≡ false
contains-decimal fuel n c h = contains-AreDigits (decimal fuel n) c h (AreDigits-decimal fuel n)

digits_value-append :
    (s : Bytes) (m v c : ℕ)
    → digits_value m s ≡ some v
    → is_digit c ≡ true
    → digits_value m (s ++ (c ∷ [])) ≡ some (v * 10 + (c - b'0'))
digits_value-append [] m v c h k = ground arith
digits_value-append (a ∷ s) m v c h k =
    ground (arith, digits_value-append s (m * 10 + (a - b'0')) v c)

digits_value-decimal : (fuel n : ℕ) → n < 10 ^ fuel → digits_value 0 (decimal fuel n) ≡ some n
unfolding decimal
digits_value-decimal zero n h = ground arith
digits_value-decimal (suc fuel) n h = elim (Bool-cases (n / 10 == 0)) [
  | inl z ↦ rw z (ground arith)
  | inr z ↦ rw z (
      digits_value-append (decimal fuel (n / 10)) 0 (n / 10) (b'0' + n % 10)
        (digits_value-decimal fuel (n / 10) (omega arith)) (ground arith)
      ∙ ap some (omega arith))
]

-- The digits are read without a sign before them.
parse_unsigned-AreDigits :
    (m n : ℕ) (c : ℕ) (s : Bytes)
    → AreDigits (c ∷ s)
    → digits_value 0 (c ∷ s) ≡ some n
    → n < m
    → parse_unsigned m (c ∷ s) ≡ some n
parse_unsigned-AreDigits m n c [] d h l = rw h (ground arith)
parse_unsigned-AreDigits m n c (x ∷ s) d h l =
    let no_plus : (c == b'+') ≡ false = ground (arith, d.0) in rw (no_plus, h) (ground arith)

parse_unsigned-value :
    (m n : ℕ) (s : Bytes)
    → AreDigits s
    → is_empty s ≡ false
    → digits_value 0 s ≡ some n
    → n < m
    → parse_unsigned m s ≡ some n
parse_unsigned-value m n [] d e h l = cc e
parse_unsigned-value m n (c ∷ s) d e h l = parse_unsigned-AreDigits m n c s d h l

append_some : (s : Bytes) (c : ℕ) → is_empty (s ++ (c ∷ [])) ≡ false
append_some [] c = refl
append_some (a ∷ s) c = refl

some-decimal : (fuel n : ℕ) → is_empty (decimal (suc fuel) n) ≡ false
unfolding decimal
some-decimal fuel n =
    append_some (if n / 10 == 0 then [] else decimal fuel (n / 10)) (b'0' + n % 10)

-- What is written is read back.
pub parse_unsigned-decimal :
    (m fuel n : ℕ) → n < 10 ^ suc fuel → n < m → parse_unsigned m (decimal (suc fuel) n) ≡ some n
parse_unsigned-decimal m fuel n h l =
    parse_unsigned-value m n (decimal (suc fuel) n) (AreDigits-decimal (suc fuel) n)
      (some-decimal fuel n) (digits_value-decimal (suc fuel) n h) l
