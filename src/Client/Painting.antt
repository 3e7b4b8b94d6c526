-- ===== src/Client/Painting.antt =====
-- src/client/window.rs and src/client/paint.rs: the pixels of a window and of the drawn dialogs. A
-- write or a read out of range panics, which is `none`.
pub mod Bounds
mod Tests
use rust_xpra.Prelude.{
  ℕ, zero, suc, ◌+◌, ◌-◌, ◌*◌, ◌/◌, ◌%◌, ◌^◌, Bool, true, false, not, ◌&&◌, ◌||◌, Option, none,
  some, List, [], ◌∷◌, if◌then◌else◌, leb, ltb, ◌==◌, Bytes, codes, bytes_eq, length, get_elem?,
  set, drop, replicate, max,
}
use rust_xpra.Prelude.Int.{
  ℤ, pos, negsuc, ◌+ℤ◌, ◌-ℤ◌, pos_part, ltb_ℤ, max_ℤ, min_ℤ, to_signed, to_unsigned,
}

-- The arithmetic of `i32`
abbrev pub i32 : ℤ → ℤ
i32 z = to_signed (2 ^ 31) (to_unsigned (2 ^ 32) z)

-- The pixels of a window, of `width` in each row.
pub record Surface : Type 0 where
  pub width : ℕ
  pub height : ℕ
  pub framebuffer : List ℕ

-- `framebuffer[off] = color`
pub put : Surface → ℕ → ℕ → Option Surface
put s off color =
    if ltb off (length s.framebuffer)
    then some (record s { framebuffer = set s.framebuffer off color })
    else none

-- The surface of a new window, `vec![0u32; (rw * rh) as usize]`, with a product of `u32`, and its change.
pub create_surface : ℕ → ℕ → Surface
create_surface width height = record {
  width = max width 1;
  height = max height 1;
  framebuffer = replicate (max width 1 * max height 1 % 2 ^ 32) 0;
}

-- Whether the system's surface takes the size is a parameter.
pub resize_surface : Bool → ℕ → ℕ → Surface → Surface
resize_surface resizes width height s =
    if (max width 1 == s.width) && (max height 1 == s.height)
    then s
    else if resizes
    then create_surface width height
    else s

-- `to_pixel`, from the four bytes at an offset
pub to_pixel : Bool → Bytes → Option ℕ
to_pixel bgra (a ∷ b ∷ c ∷ d ∷ rest) =
    some (if bgra then c * 65536 + b * 256 + a else a * 65536 + b * 256 + c)
to_pixel bgra _ = none

pub is_bgra : Bytes → Bool
is_bgra coding =
    bytes_eq coding (codes "jpeg")
    || bytes_eq coding (codes "h264")
    || bytes_eq coding (codes "webp")
    || bytes_eq coding (codes "mmap")

-- `v < 0 || v as u32 >= limit`
pub is_outside : ℤ → ℕ → Bool
is_outside (negsuc n) limit = true
is_outside (pos n) limit = leb limit n

abbrev pub then_put : Surface → ℕ → Option ℕ → Option Surface
then_put s off none = none
then_put s off (some px) = put s off px

-- One pixel of the image, at the column `col` of the row that begins at `start` of the pixels.
pub paint_pixel : Surface → Bool → Bytes → (x : ℤ) (dst_y start col : ℕ) → Option Surface
paint_pixel s bgra pixels x dst_y start col =
    let dst_x = i32 (x +ℤ pos col) in
    let painted =
      then_put s (dst_y * s.width + pos_part dst_x)
        (to_pixel bgra (drop ((start + col * 4) % 2 ^ 64) pixels)) in
    if is_outside dst_x s.width then some s else painted

-- The `n` columns from `col` on.
pub paint_columns : Surface → Bool → Bytes → (x : ℤ) (dst_y start n col : ℕ) → Option Surface
paint_columns s bgra pixels x dst_y start zero col = some s
paint_columns s bgra pixels x dst_y start (suc n) col =
    elim (paint_pixel s bgra pixels x dst_y start col) [
      | none ↦ none
      | some t ↦ paint_columns t bgra pixels x dst_y start n (suc col)
    ]

pub paint_row : Surface → Bool → Bytes → (x y : ℤ) (w row : ℕ) → Option Surface
paint_row s bgra pixels x y w row =
    let dst_y = i32 (y +ℤ pos row) in
    let painted = paint_columns s bgra pixels x (pos_part dst_y) (row * w * 4 % 2 ^ 64) w 0 in
    if is_outside dst_y s.height then some s else painted

-- The `n` rows from `row` on.
pub paint_rows : Surface → Bool → Bytes → (x y : ℤ) (w n row : ℕ) → Option Surface
paint_rows s bgra pixels x y w zero row = some s
paint_rows s bgra pixels x y w (suc n) row = elim (paint_row s bgra pixels x y w row) [
  | none ↦ none
  | some t ↦ paint_rows t bgra pixels x y w n (suc row)
]

-- Without the border that a debug build draws. The products are those of `usize`, which wrap.
pub paint_pixels : Surface → (x y : ℤ) (w h : ℕ) → Bytes → Bytes → Option Surface
paint_pixels s x y w h coding pixels =
    let painted = paint_rows s (is_bgra coding) pixels x y w h 0 in
    if ltb (length pixels) (w * h * 4 % 2 ^ 64) then some s else painted
