-- ===== src/Client/Painting/Bounds.antt =====
-- Painting stays inside the pixels of the window.
use rust_xpra.Prelude.{
  ℕ, zero, suc, ◌+◌, ◌*◌, ◌%◌, ◌^◌, ◌≤◌, ◌<◌, ◌≡◌, refl, sym, ap, ap₂, ◌∙◌, subst, some_injective,
  ◌==◌, ◌&&◌, Bool, true, false, Option, none, some, [], ◌∷◌, if◌then◌else◌, arith, ltb, lt→ltb,
  Bytes, length, length-set, length-drop, length-replicate, set, drop, max,
}
use rust_xpra.Prelude.Int.{ℤ, pos, negsuc, ◌+ℤ◌, pos_part}
use rust_xpra.Client.Painting.{
  i32, Surface, put, create_surface, resize_surface, to_pixel, is_bgra, is_outside, then_put,
  paint_pixel, paint_columns, paint_row, paint_rows, paint_pixels,
}

-- As many pixels as the size says.
pub record IsSurface (s : Surface) : Type 0 where
  pub pixels : length s.framebuffer ≡ s.width * s.height

-- A surface of the same size, which differs in the row `y` at most.
record Paints (s : Surface) (o : Option Surface) : Type 0 where
  after : Surface
  returns : o ≡ some after
  width : after.width ≡ s.width
  height : after.height ≡ s.height
  pixels : length after.framebuffer ≡ length s.framebuffer

Paints-same : (s : Surface) → Paints s (some s)
Paints-same s = record { after = s; returns = refl; width = refl; height = refl; pixels = refl }

Paints-if :
    (s : Surface) (b : Bool) (o p : Option Surface)
    → (b ≡ true → Paints s o)
    → (b ≡ false → Paints s p)
    → Paints s (if b then o else p)
Paints-if s true o p h k = h refl
Paints-if s false o p h k = k refl

put-Paints : (s : Surface) (off color : ℕ) → off < length s.framebuffer → Paints s (put s off color)
unfolding put
put-Paints s off color h = record {
  after = record s { framebuffer = set s.framebuffer off color };
  returns = put_if (ltb off (length s.framebuffer)) (lt→ltb off (length s.framebuffer) h);
  width = refl;
  height = refl;
  pixels = length-set s.framebuffer off color;
}
  where
    put_if :
        (b : Bool)
        → b ≡ true
        → (if b then some (record s { framebuffer = set s.framebuffer off color }) else none)
          ≡ some (record s { framebuffer = set s.framebuffer off color })
    put_if true e = refl
    put_if false e = cc e

some_pixel : (bgra : Bool) (b : Bytes) → 4 ≤ length b → (px : ℕ) × (to_pixel bgra b ≡ some px)
unfolding to_pixel
some_pixel bgra (a ∷ b ∷ c ∷ d ∷ rest) h = (_, refl)
some_pixel bgra (a ∷ b ∷ c ∷ []) h = absurd (omega arith)
some_pixel bgra (a ∷ b ∷ []) h = absurd (omega arith)
some_pixel bgra (a ∷ []) h = absurd (omega arith)
some_pixel bgra [] h = absurd (omega arith)

inside : (v : ℤ) (limit : ℕ) → is_outside v limit ≡ false → pos_part v < limit
unfolding is_outside
inside (pos n) limit h = ground (arith, h)
inside (negsuc n) limit h = cc h

offset_bound : (x y w h : ℕ) → x < w → y < h → y * w + x < w * h
offset_bound x y w zero a b = absurd (omega arith)
offset_bound x zero w (suc h) a b = omega arith
offset_bound x (suc y) w (suc h) a b = omega (arith, offset_bound x y w h a (omega arith))

source_bound : (col row w h : ℕ) → col < w → row < h → row * w * 4 + col * 4 + 4 ≤ w * h * 4
source_bound col row w h a b = omega (arith, offset_bound col row w h a b)

small : (n : ℕ) → n < 2 ^ 64 → n % 2 ^ 64 ≡ n
small n h = omega arith

-- Painting a surface that a step has painted already.
Paints-bind :
    (s : Surface) (o : Option Surface) (f : Surface → Option Surface)
    → Paints s o
    → ((t : Surface)
        → t.width ≡ s.width
        → t.height ≡ s.height
        → length t.framebuffer ≡ length s.framebuffer
        → Paints t (f t))
    → Paints s (elim o [ none ↦ none | some t ↦ f t ])
Paints-bind s o f p k =
    let q = k p.after p.width p.height p.pixels in
    record {
      after = q.after;
      returns = ap (λ (r : Option Surface). bound r f) p.returns ∙ q.returns;
      width = q.width ∙ p.width;
      height = q.height ∙ p.height;
      pixels = q.pixels ∙ p.pixels;
    }
  where
    bound : Option Surface → (Surface → Option Surface) → Option Surface
    bound o f = elim o [ none ↦ none | some t ↦ f t ]

kept :
    (s t : Surface)
    → IsSurface s
    → t.width ≡ s.width
    → t.height ≡ s.height
    → length t.framebuffer ≡ length s.framebuffer
    → IsSurface t
kept s t i w h p = record { pixels = p ∙ i.pixels ∙ ap₂ (λ a b. a * b) (sym w) (sym h) }

-- The rows and columns of an image that has all its pixels.
module _ (bgra : Bool) (pixels : Bytes) (x y : ℤ) (w h : ℕ) (fits : w * h * 4 < 2 ^ 64)
    (enough : w * h * 4 ≤ length pixels) where
  paint_pixel-Paints :
      (s : Surface) (dst_y row col : ℕ)
      → IsSurface s
      → dst_y < s.height
      → row < h
      → col < w
      → Paints s (paint_pixel s bgra pixels x dst_y (row * w * 4 % 2 ^ 64) col)
  unfolding paint_pixel
  paint_pixel-Paints s dst_y row col i a b c =
      let here = source_bound col row w h c b in
      let start : row * w * 4 % 2 ^ 64 ≡ row * w * 4 =
        small (row * w * 4) (omega (arith, here, fits)) in
      let place : (row * w * 4 + col * 4) % 2 ^ 64 ≡ row * w * 4 + col * 4 =
        small (row * w * 4 + col * 4) (omega (arith, here, fits)) in
      rw (start, place)
        (Paints-if s (is_outside (i32 (x +ℤ pos col)) s.width) _ _ (λ e. Paints-same s)
          λ e.
            let off = dst_y * s.width + pos_part (i32 (x +ℤ pos col)) in
            let (px, p) =
              some_pixel bgra (drop (row * w * 4 + col * 4) pixels)
                (omega (arith, enough, here, length-drop (row * w * 4 + col * 4) pixels)) in
            found off (to_pixel bgra (drop (row * w * 4 + col * 4) pixels)) px p (
              put-Paints s off px (
                omega (
                  arith,
                  i.pixels,
                  offset_bound (pos_part (i32 (x +ℤ pos col))) dst_y s.width s.height
                      (inside (i32 (x +ℤ pos col)) s.width e) a,
                ))))
    where
      found :
          (off : ℕ) (o : Option ℕ) (px : ℕ)
          → o ≡ some px
          → Paints s (put s off px)
          → Paints s (then_put s off o)
      found off none px e p = cc e
      found off (some q) px e p = subst (λ v. Paints s (put s off v)) (sym (some_injective e)) p

  paint_columns-Paints :
      (s : Surface) (dst_y row n col : ℕ)
      → IsSurface s
      → dst_y < s.height
      → row < h
      → n + col ≤ w
      → Paints s (paint_columns s bgra pixels x dst_y (row * w * 4 % 2 ^ 64) n col)
  unfolding paint_columns
  paint_columns-Paints s dst_y row zero col i a b c = Paints-same s
  paint_columns-Paints s dst_y row (suc n) col i a b c =
      Paints-bind s _ (λ t. paint_columns t bgra pixels x dst_y (row * w * 4 % 2 ^ 64) n (suc col))
        (paint_pixel-Paints s dst_y row col i a b (omega arith))
        λ t p q r.
          paint_columns-Paints t dst_y row n (suc col) (kept s t i p q r) (omega (arith, q)) b
            (omega arith)

  paint_row-Paints :
      (s : Surface) (row : ℕ) → IsSurface s → row < h → Paints s (paint_row s bgra pixels x y w row)
  unfolding paint_row
  paint_row-Paints s row i b =
      Paints-if s (is_outside (i32 (y +ℤ pos row)) s.height) _ _ (λ e. Paints-same s)
        λ e.
          paint_columns-Paints s (pos_part (i32 (y +ℤ pos row))) row w 0 i
            (inside (i32 (y +ℤ pos row)) s.height e) b (omega arith)

  paint_rows-Paints :
      (s : Surface) (n row : ℕ)
      → IsSurface s
      → n + row ≤ h
      → Paints s (paint_rows s bgra pixels x y w n row)
  unfolding paint_rows
  paint_rows-Paints s zero row i b = Paints-same s
  paint_rows-Paints s (suc n) row i b =
      Paints-bind s _ (λ t. paint_rows t bgra pixels x y w n (suc row))
        (paint_row-Paints s row i (omega arith))
        λ t p q r. paint_rows-Paints t n (suc row) (kept s t i p q r) (omega arith)

-- Painting an image of less than 2^64 bytes, at any place and with any pixels, on a surface with as many
-- pixels as its size says never panics, and leaves a surface of the same size with as many pixels as
-- its size says.
pub paint_pixels-IsSurface :
    (s : Surface) (x y : ℤ) (w h : ℕ) (coding pixels : Bytes)
    → w * h * 4 < 2 ^ 64
    → IsSurface s
    → (t : Surface) × (paint_pixels s x y w h coding pixels ≡ some t)
      × IsSurface t
      × (t.width ≡ s.width)
      × (t.height ≡ s.height)
unfolding paint_pixels
paint_pixels-IsSurface s x y w h coding pixels fits i =
    let p =
      Paints-if s (ltb (length pixels) (w * h * 4)) _ _ (λ e. Paints-same s)
        λ e.
          paint_rows-Paints (is_bgra coding) pixels x y w h fits (ground (arith, e)) s h 0 i
            (omega arith) in
    rw (small (w * h * 4) fits)
      (p.after, p.returns, kept s p.after i p.width p.height p.pixels, p.width, p.height)

-- A new surface and one of another size, of less than 2^32 pixels, have as many as their sizes say.
pub create_surface-IsSurface :
    (width height : ℕ)
    → max width 1 * max height 1 < 2 ^ 32
    → IsSurface (create_surface width height)
unfolding create_surface
create_surface-IsSurface width height fits = record {
  pixels =
      length-replicate (max width 1 * max height 1 % 2 ^ 32) 0
      ∙ mod_small (max width 1 * max height 1) fits;
}
  where
    mod_small : (n : ℕ) → n < 2 ^ 32 → n % 2 ^ 32 ≡ n
    mod_small n h = omega arith

pub resize_surface-IsSurface :
    (resizes : Bool) (width height : ℕ) (s : Surface)
    → max width 1 * max height 1 < 2 ^ 32
    → IsSurface s
    → IsSurface (resize_surface resizes width height s)
unfolding resize_surface
resize_surface-IsSurface resizes width height s fits i =
    chosen ((max width 1 == s.width) && (max height 1 == s.height)) resizes
  where
    chosen :
        (b c : Bool) → IsSurface (if b then s else if c then create_surface width height else s)
    chosen true c = i
    chosen false true = create_surface-IsSurface width height fits
    chosen false false = i
