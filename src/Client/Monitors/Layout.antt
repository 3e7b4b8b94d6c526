-- ===== src/Client/Monitors/Layout.antt =====
-- Where points and monitors lie.

use rust_xpra.Prelude.{
  some_injective, ℕ, zero, suc, ◌+◌, ◌^◌, ◌<◌, ◌≡◌, refl, ap, true, false, Bool-cases, &&_split,
  inl, inr, ◌&&◌, Option, none, some, List, [], ◌∷◌, leb→le, ltb→lt, arith, get_elem?,
}
use rust_xpra.Prelude.Int.{
  ℤ, pos, negsuc, ◌+ℤ◌, ◌-ℤ◌, ◌≤ℤ◌, ltb_ℤ, leb_ℤ, to_signed, to_unsigned, pos_part, neg_part,
  int_laws,
}
use rust_xpra.Client.Monitors.{
  MonitorInfo, holds_point, sub_i32, relative_from, monitor_relative_position, Bounds, rectangle,
  join, bounds_of, extent, both, size_of, total_display_size,
}

-- No monitor before the `k`th holds the point.
abbrev pub AreElsewhere : ℕ → List MonitorInfo → ℤ → ℤ → Type 0
AreElsewhere zero ms x y = Unit
AreElsewhere (suc k) [] x y = Unit
AreElsewhere (suc k) (m ∷ ms) x y = (holds_point m x y ≡ false) × AreElsewhere k ms x y

-- A position on the `k`th of the monitors, relative to it.
pub record IsOn (ms : List MonitorInfo) (x y : ℤ) (k : ℕ) (dx dy : ℤ) : Type 0 where
  pub monitor : MonitorInfo
  pub found : get_elem? ms k ≡ some monitor
  pub right_of : pos 0 ≤ℤ dx
  pub below : pos 0 ≤ℤ dy
  pub inside_x : pos_part dx < monitor.width
  pub inside_y : pos_part dy < monitor.height
  pub back_x : monitor.x +ℤ dx ≡ x
  pub back_y : monitor.y +ℤ dy ≡ y
  pub first : AreElsewhere k ms x y

-- Sizes of at most 2 ^ 31 - 1 pixels.
abbrev pub AreScreens : List MonitorInfo → Type 0
AreScreens [] = Unit
AreScreens (m ∷ ms) = (m.width < 2 ^ 31) × (m.height < 2 ^ 31) × AreScreens ms

wrapped :
    (d : ℤ) (n : ℕ)
    → pos 0 ≤ℤ d
    → pos_part d < n + neg_part d
    → n < 2 ^ 31
    → (to_signed (2 ^ 31) (to_unsigned (2 ^ 32) d) ≡ d) × (pos_part d < n)
wrapped (pos m) n h k small = ground arith
wrapped (negsuc m) n h k small = absurd (omega arith)

-- One axis of a point inside a monitor.
axis :
    (at from : ℤ) (size : ℕ)
    → leb_ℤ from at && ltb_ℤ at (from +ℤ pos size) ≡ true
    → size < 2 ^ 31
    → (pos 0 ≤ℤ sub_i32 at from)
      × (pos_part (sub_i32 at from) < size)
      × (from +ℤ sub_i32 at from ≡ at)
unfolding sub_i32
axis at from size h small =
    let (low, high) = &&_split (leb_ℤ from at) (ltb_ℤ at (from +ℤ pos size)) h in
    let above : from ≤ℤ at = leb→le _ _ low in
    let below = ltb→lt _ _ high in
    let positive : pos 0 ≤ℤ at -ℤ from = omega (int_laws, above) in
    let (same, inside) = wrapped (at -ℤ from) size positive (omega (int_laws, below)) small in
    rw same (positive, inside, omega int_laws)

relative_from-IsOn :
    (ms : List MonitorInfo) (index k : ℕ) (x y dx dy : ℤ)
    → AreScreens ms
    → relative_from index ms x y ≡ some (k, dx, dy)
    → (j : ℕ) × (k ≡ index + j) × IsOn ms x y j dx dy
unfolding relative_from holds_point
relative_from-IsOn [] index k x y dx dy s h = cc h
relative_from-IsOn (m ∷ ms) index k x y dx dy s h = elim (Bool-cases (holds_point m x y)) [
  | inl e ↦
      let t : (index, sub_i32 x m.x, sub_i32 y m.y) ≡ (k, dx, dy) = some_injective (rw e at h) in
      let (across, down) = &&_split _ _ e in
      let (right_of, inside_x, back_x) = axis x m.x m.width across s.0 in
      let (below, inside_y, back_y) = axis y m.y m.height down s.1 in
      let ex : sub_i32 x m.x ≡ dx = ap (λ (u : ℕ × ℤ × ℤ). u.1) t in
      let ey : sub_i32 y m.y ≡ dy = ap (λ (u : ℕ × ℤ × ℤ). u.2) t in
      (
        0,
        omega (arith, ap (λ (u : ℕ × ℤ × ℤ). u.0) t),
        rw (← ex, ← ey)
            (record {
              monitor = m;
              found = refl;
              right_of = right_of;
              below = below;
              inside_x = inside_x;
              inside_y = inside_y;
              back_x = back_x;
              back_y = back_y;
              first = tt;
            }),
      )
  | inr e ↦
      let (j, at, on) = relative_from-IsOn ms (index + 1) k x y dx dy s.2 (rw e at h) in
      (
        suc j,
        omega (arith, at),
        record {
          monitor = on.monitor;
          found = on.found;
          right_of = on.right_of;
          below = on.below;
          inside_x = on.inside_x;
          inside_y = on.inside_y;
          back_x = on.back_x;
          back_y = on.back_y;
          first = (e, on.first);
        },
      )
]

-- Where every monitor is less than 2^31 pixels wide and high, a position that is found is on the first
-- monitor that holds the point, inside its rectangle, and leads back to the point from that monitor's
-- corner.
pub monitor_relative_position-IsOn :
    (ms : List MonitorInfo) (k : ℕ) (x y dx dy : ℤ)
    → AreScreens ms
    → monitor_relative_position ms x y ≡ some (k, dx, dy)
    → IsOn ms x y k dx dy
unfolding monitor_relative_position
monitor_relative_position-IsOn ms k x y dx dy s h =
    let (j, at, on) = relative_from-IsOn ms 0 k x y dx dy s h in
    let same : k ≡ j = omega (arith, at) in rw same on

-- The monitor lies inside the box.
pub record IsInside (b : Bounds) (m : MonitorInfo) : Type 0 where
  pub left : b.left ≤ℤ m.x
  pub top : b.top ≤ℤ m.y
  pub right : m.x +ℤ pos m.width ≤ℤ b.right
  pub bottom : m.y +ℤ pos m.height ≤ℤ b.bottom

-- One box holds the other.
record Covers (b c : Bounds) : Type 0 where
  left : b.left ≤ℤ c.left
  top : b.top ≤ℤ c.top
  right : c.right ≤ℤ b.right
  bottom : c.bottom ≤ℤ b.bottom

abbrev pub AreInside : Bounds → List MonitorInfo → Type 0
AreInside b [] = Unit
AreInside b (m ∷ ms) = IsInside b m × AreInside b ms

join_old : (b r : Bounds) → Covers (join (some b) r) b
unfolding join
join_old b r = ground arith

join_new : (o : Option Bounds) (m : MonitorInfo) → IsInside (join o (rectangle m)) m
unfolding join rectangle
join_new none m = ground arith
join_new (some b) m = ground arith

bounds_of-Covers :
    (b : Bounds) (ms : List MonitorInfo)
    → (c : Bounds) × (bounds_of (some b) ms ≡ some c) × Covers c b × AreInside c ms
unfolding bounds_of
bounds_of-Covers b [] = (b, refl, ground arith, tt)
bounds_of-Covers b (m ∷ ms) =
    let (c, e, covers, inside) = bounds_of-Covers (join (some b) (rectangle m)) ms in
    let old = join_old b (rectangle m) in
    let new = join_new (some b) m in
    (
      c,
      e,
      record {
        left = omega (arith, covers.left, old.left);
        top = omega (arith, covers.top, old.top);
        right = omega (arith, covers.right, old.right);
        bottom = omega (arith, covers.bottom, old.bottom);
      },
      (
        record {
          left = omega (arith, covers.left, new.left);
          top = omega (arith, covers.top, new.top);
          right = omega (arith, covers.right, new.right);
          bottom = omega (arith, covers.bottom, new.bottom);
        },
        inside,
      ),
    )

extent-some : (d : ℤ) (n : ℕ) → extent d ≡ some n → (d ≡ pos n) × (0 < n) × (n < 32768)
unfolding extent
extent-some (pos zero) n h = cc h
extent-some (pos (suc d)) n h = ground (arith, h)
extent-some (negsuc d) n h = cc h

both-some : (a b : Option ℕ) (w h : ℕ) → both a b ≡ some (w, h) → (a ≡ some w) × (b ≡ some h)
unfolding both
both-some (some a) (some b) w h e = (
  ap some (ap (λ (u : ℕ × ℕ). u.0) (some_injective e)),
  ap some (ap (λ (u : ℕ × ℕ). u.1) (some_injective e)),
)
both-some none b w h e = cc e
both-some (some a) none w h e = cc e

-- A box of `w` by `h` pixels around all monitors, of a size that the server accepts.
pub record IsScreen (ms : List MonitorInfo) (w h : ℕ) (b : Bounds) : Type 0 where
  pub all : AreInside b ms
  pub wide : b.right -ℤ b.left ≡ pos w
  pub high : b.bottom -ℤ b.top ≡ pos h
  pub some_width : 0 < w
  pub some_height : 0 < h
  pub width_fits : w < 32768
  pub height_fits : h < 32768

-- A size that is reported is that of a box around all monitors, and one that the server accepts.
pub total_display_size-IsScreen :
    (ms : List MonitorInfo) (w h : ℕ)
    → total_display_size ms ≡ some (w, h)
    → (b : Bounds) × IsScreen ms w h b
unfolding total_display_size size_of bounds_of join
total_display_size-IsScreen [] w h e = cc e
total_display_size-IsScreen (m ∷ ms) w h e =
    let (b, found, covers, inside) = bounds_of-Covers (rectangle m) ms in
    let new = join_new none m in
    let sized = rw found at e in
    let (across, down) =
      both-some (extent (b.right -ℤ b.left)) (extent (b.bottom -ℤ b.top)) w h sized in
    let x = extent-some (b.right -ℤ b.left) w across in
    let y = extent-some (b.bottom -ℤ b.top) h down in
    (
      b,
      record {
        all = (
          record {
            left = omega (arith, covers.left, new.left);
            top = omega (arith, covers.top, new.top);
            right = omega (arith, covers.right, new.right);
            bottom = omega (arith, covers.bottom, new.bottom);
          },
          inside,
        );
        wide = x.0;
        high = y.0;
        some_width = x.1;
        some_height = y.1;
        width_fits = x.2;
        height_fits = y.2;
      },
    )
