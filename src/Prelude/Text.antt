-- ===== src/Prelude/Text.antt =====
-- Byte strings and texts as lists of numbers: the `str` and `[u8]` operations that the sources use.
use Prim.Native.Nat.{ℕ, ◌+◌, ◌-◌, ◌*◌, ◌<◌}
use Prim.Native.Char.{code}
use Prim.Native.String.{String}
use mathlib.Core.Path.{◌≡◌, refl}
use mathlib.Core.Bool.{Bool, true, false, ◌&&◌, ◌||◌}
use mathlib.Core.Option.{Option, none, some}
use mathlib.Core.Option
use mathlib.Core.List.{List, [], ◌∷◌, map}
use rust_xpra.Prelude.Lists.{length, drop}
use native.Mathlib.Omega.{arith}
use rust_xpra.Prelude.Tests.{◌==◌, ltb, leb, if◌then◌else◌}

abbrev pub Bytes : Type 0
Bytes = List ℕ

-- The bytes of an ASCII text.
abbrev pub codes : String → Bytes
codes String.[] = []
codes (String.◌∷◌ c s) = code c ∷ codes s

abbrev pub bytes_eq : Bytes → Bytes → Bool
bytes_eq [] [] = true
bytes_eq [] (b ∷ bs) = false
bytes_eq (a ∷ as') [] = false
bytes_eq (a ∷ as') (b ∷ bs) = (a == b) && bytes_eq as' bs

-- `s.starts_with(p)`
abbrev pub starts_with : Bytes → Bytes → Bool
starts_with s [] = true
starts_with [] (b ∷ p) = false
starts_with (a ∷ s) (b ∷ p) = (a == b) && starts_with s p

-- `s.contains(c)` for one character
abbrev pub contains : Bytes → ℕ → Bool
contains [] c = false
contains (a ∷ s) c = (a == c) || contains s c

abbrev pub is_empty : Bytes → Bool
is_empty [] = true
is_empty (a ∷ s) = false

abbrev pub lower : ℕ → ℕ
lower c = if leb b'A' c && leb c b'Z' then c + 32 else c

-- `a.eq_ignore_ascii_case(b)`
abbrev pub eq_ignore_case : Bytes → Bytes → Bool
eq_ignore_case a b = bytes_eq (map lower a) (map lower b)

-- `s.split_once(c)`: at the first `c`, which is dropped
abbrev pub split_once : Bytes → ℕ → Option (Bytes × Bytes)
split_once [] c = none
split_once (a ∷ s) c =
    let rest = split_once s c in
    if a == c then some ([], s) else Option.map (λ (p : Bytes × Bytes). (a ∷ p.0, p.1)) rest

-- `s.rsplit_once(c)`: at the last `c`, which is dropped
abbrev pub rsplit_once : Bytes → ℕ → Option (Bytes × Bytes)
rsplit_once [] c = none
rsplit_once (a ∷ s) c = elim (rsplit_once s c) [
  | some p ↦ some (a ∷ p.0, p.1)
  | none ↦ if a == c then some ([], s) else none
]

pub bytes_eq→eq : (a b : Bytes) → bytes_eq a b ≡ true → a ≡ b
bytes_eq→eq [] [] h = refl
bytes_eq→eq [] (b ∷ bs) h = ground arith
bytes_eq→eq (a ∷ as') [] h = ground arith
bytes_eq→eq (a ∷ as') (b ∷ bs) h = ground (arith, bytes_eq→eq as' bs)

pub bytes_eq_refl : (a : Bytes) → bytes_eq a a ≡ true
bytes_eq_refl [] = refl
bytes_eq_refl (a ∷ as') = ground (arith, bytes_eq_refl as')

-- A byte string: every element below 256.
abbrev pub AllBytes : Bytes → Type 0
AllBytes [] = Unit
AllBytes (b ∷ bs) = (b < 256) × AllBytes bs

-- `s.find(p)` with what stands before and behind it
abbrev pub split_at : Bytes → Bytes → Option (Bytes × Bytes)
split_at p [] = none
split_at p (a ∷ s) =
    let rest = split_at p s in
    if starts_with (a ∷ s) p
    then some ([], drop (length p) (a ∷ s))
    else Option.map (λ (q : Bytes × Bytes). (a ∷ q.0, q.1)) rest

-- What stands before the first `c`, and what begins with it.
abbrev pub break_at : ℕ → Bytes → Bytes × Bytes
break_at c [] = ([], [])
break_at c (a ∷ s) =
    let (before, from) = break_at c s in if a == c then ([], a ∷ s) else (a ∷ before, from)

-- `s.trim_start_matches(c)`
abbrev pub trim_start : ℕ → Bytes → Bytes
trim_start c [] = []
trim_start c (a ∷ s) = let rest = trim_start c s in if a == c then rest else a ∷ s

-- `char::is_whitespace`: the characters of Unicode's property White_Space
abbrev pub is_whitespace : ℕ → Bool
is_whitespace c =
    (leb 0x9 c && leb c 0xd)
    || (c == 0x20)
    || (c == 0x85)
    || (c == 0xa0)
    || (c == 0x1680)
    || (leb 0x2000 c && leb c 0x200a)
    || (c == 0x2028)
    || (c == 0x2029)
    || (c == 0x202f)
    || (c == 0x205f)
    || (c == 0x3000)

-- `s.trim_start()` and `s.trim_end()`
abbrev pub trim_left : Bytes → Bytes
trim_left [] = []
trim_left (c ∷ s) = let rest = trim_left s in if is_whitespace c then rest else c ∷ s

abbrev pub trim_right : Bytes → Bytes
trim_right [] = []
trim_right (c ∷ s) =
    let rest = trim_right s in if is_empty rest && is_whitespace c then [] else c ∷ rest

-- `char::is_control`
abbrev pub is_control : ℕ → Bool
is_control c = leb c 0x1f || (leb 0x7f c && leb c 0x9f)

abbrev pub is_digit : ℕ → Bool
is_digit c = leb b'0' c && leb c b'9'

-- The value of decimal digits, which continue a number `n`.
abbrev pub digits_value : ℕ → Bytes → Option ℕ
digits_value n [] = some n
digits_value n (c ∷ s) =
    let rest = digits_value (n * 10 + (c - b'0')) s in if is_digit c then rest else none

abbrev pub below : ℕ → Option ℕ → Option ℕ
below m none = none
below m (some n) = if ltb n m then some n else none

-- `s.parse::<u…>()` for the unsigned type with `m` values: digits, behind at most one `+`.
abbrev pub parse_unsigned : ℕ → Bytes → Option ℕ
parse_unsigned m [] = none
parse_unsigned m (c ∷ []) = below m (digits_value 0 (c ∷ []))
parse_unsigned m (c ∷ d ∷ s) = below m (digits_value 0 (if c == b'+' then d ∷ s else c ∷ d ∷ s))
