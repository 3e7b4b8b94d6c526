-- ===== src/Client/Monitors.antt =====
-- src/client/client.rs: the local monitors, and what is told to the server of them. The rectangles
-- are those of the list that `local_monitors` makes of winit's monitors.
pub mod Layout
mod Tests
use rust_xpra.Prelude.{
  ℕ, zero, suc, ◌+◌, ◌-◌, ◌*◌, ◌^◌, Bool, true, false, not, ◌&&◌, ◌||◌, Option, none, some, List,
  [], ◌∷◌, if◌then◌else◌, Bytes, ltb,
}
use rust_xpra.Prelude.Int.{
  ℤ, pos, negsuc, ◌+ℤ◌, ◌-ℤ◌, ltb_ℤ, leb_ℤ, min_ℤ, max_ℤ, pos_part, to_signed, to_unsigned,
}

-- `x`, `y`, `width`, `height` of `geometry`
pub record MonitorInfo : Type 0 where
  pub name : Bytes
  pub primary : Bool
  pub x : ℤ
  pub y : ℤ
  pub width : ℕ
  pub height : ℕ
  pub refresh_rate_millihertz : Option ℕ

-- The guard of `monitor_relative_position`, in 64 bits.
pub holds_point : MonitorInfo → ℤ → ℤ → Bool
holds_point m x y =
    (leb_ℤ m.x x && ltb_ℤ x (m.x +ℤ pos m.width)) && (leb_ℤ m.y y && ltb_ℤ y (m.y +ℤ pos m.height))

-- `x - mx`, which wraps in a release build.
pub sub_i32 : ℤ → ℤ → ℤ
sub_i32 a b = to_signed (2 ^ 31) (to_unsigned (2 ^ 32) (a -ℤ b))

-- The loop from the `index`th monitor on.
pub relative_from : ℕ → List MonitorInfo → ℤ → ℤ → Option (ℕ × ℤ × ℤ)
relative_from index [] x y = none
relative_from index (m ∷ ms) x y =
    let rest = relative_from (index + 1) ms x y in
    if holds_point m x y then some (index, sub_i32 x m.x, sub_i32 y m.y) else rest

pub monitor_relative_position : List MonitorInfo → ℤ → ℤ → Option (ℕ × ℤ × ℤ)
monitor_relative_position monitors x y = relative_from 0 monitors x y

-- `(left, top, right, bottom)`
pub record Bounds : Type 0 where
  pub left : ℤ
  pub top : ℤ
  pub right : ℤ
  pub bottom : ℤ

pub rectangle : MonitorInfo → Bounds
rectangle m = record {
  left = m.x;
  top = m.y;
  right = m.x +ℤ pos m.width;
  bottom = m.y +ℤ pos m.height;
}

pub join : Option Bounds → Bounds → Bounds
join none r = r
join (some b) r = record {
  left = min_ℤ b.left r.left;
  top = min_ℤ b.top r.top;
  right = max_ℤ b.right r.right;
  bottom = max_ℤ b.bottom r.bottom;
}

pub bounds_of : Option Bounds → List MonitorInfo → Option Bounds
bounds_of bounds [] = bounds
bounds_of bounds (m ∷ ms) = bounds_of (some (join bounds (rectangle m))) ms

-- An axis of the box: `none` where the server would refuse it.
pub extent : ℤ → Option ℕ
extent (pos (suc n)) = if ltb (suc n) 32768 then some (suc n) else none
extent _ = none

both : Option ℕ → Option ℕ → Option (ℕ × ℕ)
both (some w) (some h) = some (w, h)
both _ _ = none

pub size_of : Option Bounds → Option (ℕ × ℕ)
unfolding both
size_of none = none
size_of (some b) = both (extent (b.right -ℤ b.left)) (extent (b.bottom -ℤ b.top))

pub total_display_size : List MonitorInfo → Option (ℕ × ℕ)
total_display_size monitors = size_of (bounds_of none monitors)
