-- ===== src/Client/Mmap/Written.antt =====
-- The bytes that mmap.rs writes into the area, and those that it leaves.
use rust_xpra.Prelude.Bits.{bit_and_byte}
use rust_xpra.Prelude.{
  ℕ, zero, suc, ◌+◌, ◌/◌, ◌%◌, ◌^◌, ◌≤◌, ◌<◌, ◌≡◌, refl, ap, ◌⊎◌, ◌≢◌, ◌∙◌, [], ◌∷◌, arith, inl,
  Bytes, length, get_or, set, length-set, take, drop, bit_and,
}
use rust_xpra.Client.Mmap.{write_bytes}

get_or-set_self : (xs : Bytes) (i v : ℕ) → i < length xs → get_or (set xs i v) i 0 ≡ v
get_or-set_self [] i v h = absurd (omega arith)
get_or-set_self (x ∷ xs) zero v h = refl
get_or-set_self (x ∷ xs) (suc i) v h = get_or-set_self xs i v (omega arith)

get_or-set_ne : (xs : Bytes) (i j v : ℕ) → i ≢ j → get_or (set xs i v) j 0 ≡ get_or xs j 0
get_or-set_ne [] i j v h = refl
get_or-set_ne (x ∷ xs) zero zero v h = absurd (h refl)
get_or-set_ne (x ∷ xs) zero (suc j) v h = refl
get_or-set_ne (x ∷ xs) (suc i) zero v h = refl
get_or-set_ne (x ∷ xs) (suc i) (suc j) v h = get_or-set_ne xs i j v (λ e. h (ap suc e))

pub length-write_bytes :
    (left at value : ℕ) (area : Bytes) → length (write_bytes left at value area) ≡ length area
unfolding write_bytes
length-write_bytes zero at value area = refl
length-write_bytes (suc left) at value area =
    length-write_bytes left (at + 1) (value / 2 ^ 8) (set area at (bit_and value 0xff))
    ∙ length-set area at (bit_and value 0xff)

-- The bytes before and behind the written ones stay.
pub write_bytes_outside :
    (left at value : ℕ) (area : Bytes) (j : ℕ)
    → (j < at) ⊎ (at + left ≤ j)
    → get_or (write_bytes left at value area) j 0 ≡ get_or area j 0
unfolding write_bytes
write_bytes_outside zero at value area j h = refl
write_bytes_outside (suc left) at value area j h =
    write_bytes_outside left (at + 1) (value / 2 ^ 8) (set area at (bit_and value 0xff)) j
      (ground arith)
    ∙ get_or-set_ne area at j (bit_and value 0xff) (ground arith)

drop-set : (xs : Bytes) (k i v : ℕ) → i < k → drop k (set xs i v) ≡ drop k xs
drop-set xs zero i v h = absurd (omega arith)
drop-set [] (suc k) i v h = refl
drop-set (x ∷ xs) (suc k) zero v h = refl
drop-set (x ∷ xs) (suc k) (suc i) v h = drop-set xs k i v (omega arith)

take-set : (xs : Bytes) (k i v : ℕ) → k ≤ i → take k (set xs i v) ≡ take k xs
take-set xs zero i v h = refl
take-set [] (suc k) i v h = refl
take-set (x ∷ xs) (suc k) zero v h = absurd (omega arith)
take-set (x ∷ xs) (suc k) (suc i) v h = ap (λ t. x ∷ t) (take-set xs k i v (omega arith))

pub drop-write_bytes :
    (left at value k : ℕ) (area : Bytes)
    → at + left ≤ k
    → drop k (write_bytes left at value area) ≡ drop k area
unfolding write_bytes
drop-write_bytes zero at value k area h = refl
drop-write_bytes (suc left) at value k area h =
    drop-write_bytes left (at + 1) (value / 2 ^ 8) k (set area at (bit_and value 0xff))
      (omega arith)
    ∙ drop-set area k at (bit_and value 0xff) (omega arith)

pub take-write_bytes :
    (left at value k : ℕ) (area : Bytes)
    → k ≤ at
    → take k (write_bytes left at value area) ≡ take k area
unfolding write_bytes
take-write_bytes zero at value k area h = refl
take-write_bytes (suc left) at value k area h =
    take-write_bytes left (at + 1) (value / 2 ^ 8) k (set area at (bit_and value 0xff))
      (omega arith)
    ∙ take-set area k at (bit_and value 0xff) h

-- The bytes from `at` on are the digits of `value`, lowest first.
abbrev pub AreDigits : Bytes → ℕ → ℕ → ℕ → Type 0
AreDigits area at zero value = Unit
AreDigits area at (suc left) value =
    (get_or area at 0 ≡ value % 256) × AreDigits area (at + 1) left (value / 256)

pub write_bytes-AreDigits :
    (left at value : ℕ) (area : Bytes)
    → at + left ≤ length area
    → AreDigits (write_bytes left at value area) at left value
unfolding write_bytes
write_bytes-AreDigits zero at value area h = tt
write_bytes-AreDigits (suc left) at value area h = (
  write_bytes_outside left (at + 1) (value / 2 ^ 8) (set area at (bit_and value 0xff)) at
        (inl (omega arith))
      ∙ get_or-set_self area at (bit_and value 0xff) (omega arith)
      ∙ bit_and_byte value,
  write_bytes-AreDigits left (at + 1) (value / 2 ^ 8) (set area at (bit_and value 0xff))
      (omega (arith, length-set area at (bit_and value 0xff))),
)
