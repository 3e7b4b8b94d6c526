-- ===== src/Prelude/Endian.antt =====
-- Numbers as bytes, most significant first.
use native.Mathlib.Nat.{pow-suc}
use Prim.Native.Nat.{ℕ, zero, suc, ◌+◌, ◌*◌, ◌/◌, ◌%◌, ◌^◌, ◌<◌}
use mathlib.Core.Path.{◌≡◌, refl, sym, ap, ◌∙◌}
use mathlib.Core.List.{[], ◌∷◌, ◌++◌, append-nil, append_assoc}
use native.Mathlib.Omega.{arith}
use rust_xpra.Prelude.Lists.{length, length-append}
use rust_xpra.Prelude.Text.{Bytes}

-- `to_be_bytes` of a number of `n` bytes
unfoldable pub to_be_bytes : ℕ → ℕ → Bytes
to_be_bytes zero v = []
to_be_bytes (suc n) v = to_be_bytes n (v / 256) ++ (v % 256 ∷ [])

unfoldable pub from_be : ℕ → Bytes → ℕ
from_be v [] = v
from_be v (b ∷ bs) = from_be (v * 256 + b) bs

unfoldable pub from_be_bytes : Bytes → ℕ
from_be_bytes bs = from_be 0 bs

pub length-to_be_bytes : (n v : ℕ) → length (to_be_bytes n v) ≡ n
unfolding to_be_bytes
length-to_be_bytes zero v = refl
length-to_be_bytes (suc n) v =
    omega (
      arith,
      length-append (to_be_bytes n (v / 256)) (v % 256 ∷ []),
      length-to_be_bytes n (v / 256),
    )

from_be-to_be_bytes :
    (n v acc : ℕ) (bs : Bytes)
    → v < 256 ^ n
    → from_be acc (to_be_bytes n v ++ bs) ≡ from_be (acc * 256 ^ n + v) bs
unfolding to_be_bytes from_be
from_be-to_be_bytes zero v acc bs h = ap (λ (t : ℕ). from_be t bs) (omega arith)
from_be-to_be_bytes (suc n) v acc bs h =
    rw (append_assoc (to_be_bytes n (v / 256)) (v % 256 ∷ []) bs) (
      from_be-to_be_bytes n (v / 256) acc (v % 256 ∷ bs) (omega (arith, pow-suc 256 n))
      ∙ ap (λ (t : ℕ). from_be t bs) next_digit)
  where
    next_digit : (acc * 256 ^ n + v / 256) * 256 + v % 256 ≡ acc * 256 ^ suc n + v
    next_digit = omega (arith, ap (λ (t : ℕ). acc * t) (pow-suc 256 n))

pub from_be_bytes-to_be_bytes : (n v : ℕ) → v < 256 ^ n → from_be_bytes (to_be_bytes n v) ≡ v
unfolding from_be_bytes from_be
from_be_bytes-to_be_bytes n v h =
    ap (λ t. from_be 0 t) (sym (append-nil (to_be_bytes n v)))
    ∙ from_be-to_be_bytes n v 0 [] h
    ∙ omega arith
