-- ===== src/Client/Painting/Tests.antt =====
-- Painting at concrete images.
use rust_xpra.Prelude.{◌≡◌, refl, some, [], ◌∷◌, codes, arith}
use rust_xpra.Prelude.Int.{pos, negsuc, ◌+ℤ◌}
use rust_xpra.Client.Painting.{
  Surface, create_surface, put, to_pixel, is_bgra, is_outside, paint_pixel, paint_columns,
  paint_row, paint_rows, paint_pixels,
}
use rust_xpra.Client.Painting.Bounds.{IsSurface, create_surface-IsSurface, paint_pixels-IsSurface}

-- Two columns of one row, of which the first falls off the left edge.
clipped :
    paint_pixels
      (create_surface 2 2)
      (negsuc 0)
      (pos 1)
      2
      1
      (codes "png")
      (9 ∷ 9 ∷ 9 ∷ 9 ∷ 1 ∷ 2 ∷ 3 ∷ 4 ∷ [])
    ≡ some (record { width = 2; height = 2; framebuffer = 0 ∷ 0 ∷ 66051 ∷ 0 ∷ [] })
unfolding paint_pixels paint_rows paint_row paint_columns paint_pixel put to_pixel is_bgra
    is_outside create_surface ◌+ℤ◌
clipped = refl

paint_pixels-IsSurface_example :
    (t : Surface) × (paint_pixels (create_surface 2 2) (negsuc 0) (pos 1) 2 1 (codes "png") (9 ∷ [])
      ≡ some t)
    × IsSurface t
    × (t.width ≡ (create_surface 2 2).width)
    × (t.height ≡ (create_surface 2 2).height)
paint_pixels-IsSurface_example =
    paint_pixels-IsSurface (create_surface 2 2) (negsuc 0) (pos 1) 2 1 (codes "png") (9 ∷ [])
      (omega arith) (create_surface-IsSurface 2 2 (omega arith))
