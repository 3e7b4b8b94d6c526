-- ===== src/Prelude/Bits.antt =====
-- Laws of the bit operations at variables: each is described by its lowest digit, and the laws
-- follow by induction on a bound for the numbers.
use Prim.Native.Nat.{
  ℕ, zero, suc, ◌+◌, ◌*◌, ◌/◌, ◌%◌, ◌^◌, ◌≤◌, ◌<◌, min, max, differ, digits, bitwise, bit_and,
  bit_or, bit_xor, bit_and-bitwise, bit_or-bitwise, bit_xor-bitwise,
}
use mathlib.Core.Path.{◌≡◌, refl, ap, ◌∙◌}
use native.Mathlib.Nat.{pow-suc}
use native.Mathlib.Omega.{arith}

module _ (z : ℕ → ℕ) (f : ℕ → ℕ → ℕ) where
  -- Any fuel that the first number does not pass gives one result.
  digits_enough : (n m a b : ℕ) → a ≤ n → a ≤ m → digits z f n a b ≡ digits z f m a b
  digits_enough zero zero zero b p q = refl
  digits_enough zero (suc m) zero b p q = refl
  digits_enough (suc n) zero zero b p q = refl
  digits_enough (suc n) (suc m) zero b p q = refl
  digits_enough zero m (suc a) b p q = absurd (omega arith)
  digits_enough (suc n) zero (suc a) b p q = absurd (omega arith)
  digits_enough (suc n) (suc m) (suc a) b p q =
      omega (arith, digits_enough n m (suc a / 2) (b / 2) (omega arith) (omega arith))

  digits_low :
      (a b : ℕ)
      → bitwise z f (suc a) b ≡ bitwise z f (suc a / 2) (b / 2) * 2 + f (suc a % 2) (b % 2)
  digits_low a b =
      omega (arith, digits_enough a (suc a / 2) (suc a / 2) (b / 2) (omega arith) (omega arith))

pub and_low : (a b : ℕ) → bit_and a b ≡ bit_and (a / 2) (b / 2) * 2 + min (a % 2) (b % 2)
and_low zero b = simp bit_and-bitwise (omega arith)
and_low (suc a) b = simp bit_and-bitwise (digits_low (λ y. 0) min a b)

pub or_low : (a b : ℕ) → bit_or a b ≡ bit_or (a / 2) (b / 2) * 2 + max (a % 2) (b % 2)
or_low zero b = simp bit_or-bitwise (omega arith)
or_low (suc a) b = simp bit_or-bitwise (digits_low (λ y. y) max a b)

pub xor_low : (a b : ℕ) → bit_xor a b ≡ bit_xor (a / 2) (b / 2) * 2 + differ (a % 2) (b % 2)
xor_low zero b = simp bit_xor-bitwise (omega arith)
xor_low (suc a) b = simp bit_xor-bitwise (digits_low (λ y. y) differ a b)

-- The digits of a number and their exclusive or.
differ_cancel : (x y : ℕ) → x < 2 → y < 2 → (differ (differ x y) y ≡ x) × (differ x y < 2)
differ_cancel zero zero p q = (refl, omega arith)
differ_cancel zero (suc zero) p q = (refl, omega arith)
differ_cancel zero (suc (suc y)) p q = absurd (omega arith)
differ_cancel (suc zero) zero p q = (refl, omega arith)
differ_cancel (suc zero) (suc zero) p q = (refl, omega arith)
differ_cancel (suc zero) (suc (suc y)) p q = absurd (omega arith)
differ_cancel (suc (suc x)) y p q = absurd (omega arith)

half_xor : (a b : ℕ) → (bit_xor a b / 2 ≡ bit_xor (a / 2) (b / 2))
half_xor a b = omega (arith, xor_low a b, differ_cancel (a % 2) (b % 2) (omega arith) (omega arith))

odd_xor : (a b : ℕ) → bit_xor a b % 2 ≡ differ (a % 2) (b % 2)
odd_xor a b = omega (arith, xor_low a b, differ_cancel (a % 2) (b % 2) (omega arith) (omega arith))

-- A mask that is applied twice is undone.
xor_cancel_below : (n a b : ℕ) → a ≤ n → b ≤ n → bit_xor (bit_xor a b) b ≡ a
xor_cancel_below zero zero zero p q = refl
xor_cancel_below zero zero (suc b) p q = absurd (omega arith)
xor_cancel_below zero (suc a) b p q = absurd (omega arith)
xor_cancel_below (suc n) a b p q =
    rw (xor_low (bit_xor a b) b, half_xor a b, odd_xor a b)
      (omega (
        arith,
        xor_cancel_below n (a / 2) (b / 2) (omega arith) (omega arith),
        differ_cancel (a % 2) (b % 2) (omega arith) (omega arith),
      ))

-- The exclusive or of two numbers of `k` digits has `k` digits.
pub xor_lt : (k a b : ℕ) → a < 2 ^ k → b < 2 ^ k → bit_xor a b < 2 ^ k
xor_lt zero zero zero p q = omega arith
xor_lt zero zero (suc b) p q = absurd (omega arith)
xor_lt zero (suc a) b p q = absurd (omega arith)
xor_lt (suc k) a b p q = omega (
  arith,
  pow-suc 2 k,
  xor_low a b,
  differ_cancel (a % 2) (b % 2) (omega arith) (omega arith),
  xor_lt k (a / 2) (b / 2) (omega (arith, pow-suc 2 k)) (omega (arith, pow-suc 2 k)),
)

pub xor_cancel : (a b : ℕ) → bit_xor (bit_xor a b) b ≡ a
xor_cancel a b = xor_cancel_below (a + b) a b (omega arith) (omega arith)

and_none : (n a : ℕ) → a ≤ n → bit_and a 0 ≡ 0
and_none n zero p = refl
and_none zero (suc a) p = absurd (omega arith)
and_none (suc n) (suc a) p = omega (arith, and_low (suc a) 0, and_none n (suc a / 2) (omega arith))

-- A mask of ones keeps the remainder.
pub and_one : (a : ℕ) → bit_and a 1 ≡ a % 2
and_one a = omega (arith, and_low a 1, and_none (a / 2) (a / 2) (omega arith))

pub and_three : (a : ℕ) → bit_and a 3 ≡ a % 4
and_three a = omega (arith, and_low a 3, and_one (a / 2))

and_seven : (a : ℕ) → bit_and a 7 ≡ a % 8
and_seven a = omega (arith, and_low a 7, and_three (a / 2))

pub bit_and_nibble : (a : ℕ) → bit_and a 0xf ≡ a % 16
bit_and_nibble a = omega (arith, and_low a 15, and_seven (a / 2))

and_31 : (a : ℕ) → bit_and a 31 ≡ a % 32
and_31 a = omega (arith, and_low a 31, bit_and_nibble (a / 2))

and_63 : (a : ℕ) → bit_and a 63 ≡ a % 64
and_63 a = omega (arith, and_low a 63, and_31 (a / 2))

pub bit_and_seven_bits : (a : ℕ) → bit_and a 0x7f ≡ a % 128
bit_and_seven_bits a = omega (arith, and_low a 127, and_63 (a / 2))

pub bit_and_byte : (a : ℕ) → bit_and a 0xff ≡ a % 256
bit_and_byte a = omega (arith, and_low a 255, bit_and_seven_bits (a / 2))

-- `|` of a number below `2 ^ k` and a multiple of `2 ^ k` is their sum.
pub or_disjoint : (k a b : ℕ) → a < 2 ^ k → bit_or a (b * 2 ^ k) ≡ a + b * 2 ^ k
or_disjoint zero zero b h = omega (arith, bit_or-bitwise 0 (b * 1))
or_disjoint zero (suc a) b h = absurd (omega arith)
or_disjoint (suc k) a b h =
    let doubled : b * 2 ^ suc k ≡ 2 * (b * 2 ^ k) =
      omega (arith, ap (λ (t : ℕ). b * t) (pow-suc 2 k)) in
    omega (
      arith,
      or_low a (b * 2 ^ suc k),
      doubled,
      pow-suc 2 k,
      or_disjoint k (a / 2) b (omega (arith, pow-suc 2 k)),
      ap (λ (t : ℕ). bit_or (a / 2) t) (half_of doubled),
    )
  where
    half_of : b * 2 ^ suc k ≡ 2 * (b * 2 ^ k) → b * 2 ^ suc k / 2 ≡ b * 2 ^ k
    half_of e = omega arith

-- The highest bit of a byte, tested and set.
and_2 : (a : ℕ) → bit_and a 2 ≡ a / 2 % 2 * 2
and_2 a = omega (arith, and_low a 2, and_one (a / 2))

and_8 : (a : ℕ) → bit_and a 8 ≡ a / 8 % 2 * 8
and_8 a = omega (arith, and_low a 8, and_low (a / 2) 4, and_2 (a / 2 / 2))

and_32 : (a : ℕ) → bit_and a 32 ≡ a / 32 % 2 * 32
and_32 a = omega (arith, and_low a 32, and_low (a / 2) 16, and_8 (a / 2 / 2))

pub bit_and_top : (a : ℕ) → a < 256 → bit_and a 0x80 ≡ a / 128 * 128
bit_and_top a h = omega (arith, and_low a 128, and_low (a / 2) 64, and_32 (a / 2 / 2))

or_bit : (k a : ℕ) → a < 2 ^ k → bit_or (2 ^ k) a ≡ 2 ^ k + a
or_bit zero zero h = refl
or_bit zero (suc a) h = absurd (omega arith)
or_bit (suc k) a h =
    let half : 2 ^ suc k / 2 ≡ 2 ^ k = omega (arith, pow-suc 2 k) in
    let even : 2 ^ suc k % 2 ≡ 0 = omega (arith, pow-suc 2 k) in
    or_low (2 ^ suc k) a
    ∙ rw (half, even) (omega (arith, or_bit k (a / 2) (omega (arith, pow-suc 2 k)), pow-suc 2 k))

pub bit_or_top : (a : ℕ) → a < 128 → bit_or 0x80 a ≡ 128 + a
bit_or_top a h = or_bit 7 a h
