-- ===== src/Net/Packet/Fields.antt =====
-- What the typed accessors of packet.rs return, and when they panic.
use mathlib.Core.Option
use rust_xpra.Prelude.{
  ℕ, ◌-◌, ◌^◌, ◌<◌, ◌≡◌, refl, ap, ◌↔◌, Option, none, some, arith, Bytes, get_elem?,
}
use rust_xpra.Prelude.Int.{ℤ, pos, negsuc, ◌≤ℤ◌}
use rust_xpra.Net.Packet.{
  Yaml, Packet, real, integer, string, boolean, array, hash, other, get, yaml_u32, yaml_i32,
  yaml_u64, yaml_hash_str, get_u32, get_i32, get_u64, get_i64, yaml_i64, get_hash_str,
}

-- A field that is not there, or a dictionary without the key.
abbrev pub IsMissing : Option Yaml → Bytes → Type 0
IsMissing none k = Unit
IsMissing (some (hash es)) k = get es k ≡ none
IsMissing (some _) k = ⊥

map-none : {A B : Type 0} (f : A → B) (o : Option A) → (Option.map f o ≡ none) ↔ (o ≡ none)
map-none f none = (λ _. refl, λ _. refl)
map-none f (some a) = (λ h. cc, λ h. cc)

missing :
    (o : Option Yaml) (k : Bytes) → (Option.bind o (λ y. yaml_hash_str y k) ≡ none) ↔ IsMissing o k
unfolding yaml_hash_str Option.bind
missing none k = (λ _. tt, λ _. refl)
missing (some (hash es)) k = map-none _ (get es k)
missing (some (real s)) k = (λ h. cc, λ h. absurd h)
missing (some (integer i)) k = (λ h. cc, λ h. absurd h)
missing (some (string s)) k = (λ h. cc, λ h. absurd h)
missing (some (boolean b)) k = (λ h. cc, λ h. absurd h)
missing (some (array ys)) k = (λ h. cc, λ h. absurd h)
missing (some other) k = (λ h. cc, λ h. absurd h)

-- `get_hash_str` panics exactly when the field is not there, or is a dictionary without the key: a
-- missing key is not read as an empty text.
pub get_hash_str_panics :
    (p : Packet) (i : ℕ) (k : Bytes)
    → (get_hash_str p i k ≡ none) ↔ IsMissing (get_elem? p.main i) k
unfolding get_hash_str
get_hash_str_panics p i k = missing (get_elem? p.main i) k

yaml_u32-lt : (y : Yaml) → yaml_u32 y < 2 ^ 32
unfolding yaml_u32
yaml_u32-lt (integer (pos n)) = omega arith
yaml_u32-lt (integer (negsuc n)) = omega arith
yaml_u32-lt y = omega arith

yaml_i32_range : (y : Yaml) → (negsuc (2 ^ 31 - 1) ≤ℤ yaml_i32 y) × (yaml_i32 y ≤ℤ pos (2 ^ 31 - 1))
unfolding yaml_i32
yaml_i32_range (integer (pos n)) = ground arith
yaml_i32_range (integer (negsuc n)) = ground arith
yaml_i32_range y = omega arith

yaml_i32_same :
    (z : ℤ) → negsuc (2 ^ 31 - 1) ≤ℤ z → z ≤ℤ pos (2 ^ 31 - 1) → yaml_i32 (integer z) ≡ z
unfolding yaml_i32
yaml_i32_same (pos n) lo hi = ground arith
yaml_i32_same (negsuc n) lo hi = ground arith

-- The accessors of machine integers truncate into their type's range.
pub accessor_ranges :
    (p : Packet) (i : ℕ) (y : Yaml)
    → get_elem? p.main i ≡ some y
    → (get_u32 p i ≡ some (yaml_u32 y))
      × (yaml_u32 y < 2 ^ 32)
      × (get_i32 p i ≡ some (yaml_i32 y))
      × (negsuc (2 ^ 31 - 1) ≤ℤ yaml_i32 y)
      × (yaml_i32 y ≤ℤ pos (2 ^ 31 - 1))
unfolding get_u32 get_i32
accessor_ranges p i y h = (rw h, yaml_u32-lt y, rw h, (yaml_i32_range y).0, (yaml_i32_range y).1)

-- An integer of the 32-bit signed range is read as itself by both signed accessors.
pub signed_exact :
    (p : Packet) (i : ℕ) (z : ℤ)
    → get_elem? p.main i ≡ some (integer z)
    → negsuc (2 ^ 31 - 1) ≤ℤ z
    → z ≤ℤ pos (2 ^ 31 - 1)
    → (get_i32 p i ≡ some z) × (get_i64 p i ≡ some z)
unfolding get_i32 get_i64 yaml_i64
signed_exact p i z h lo hi = (rw h (ap some (yaml_i32_same z lo hi)), rw h refl)

-- An integer of the 32-bit unsigned range is read as itself by all but the 32-bit signed accessor.
pub unsigned_exact :
    (p : Packet) (i n : ℕ)
    → get_elem? p.main i ≡ some (integer (pos n))
    → n < 2 ^ 32
    → (get_u32 p i ≡ some n) × (get_u64 p i ≡ some n) × (get_i64 p i ≡ some (pos n))
unfolding get_u32 get_u64 get_i64 yaml_i64 yaml_u32 yaml_u64
unsigned_exact p i n h small =
    (rw h (ap some (omega arith)), rw h (ap some (omega arith)), rw h refl)
