-- ===== src/Client/Mmap/Image/Guards.antt =====
-- Which draws mmap.rs accepts, and that the image is right where it does.
use rust_xpra.Prelude.{
  ℕ, ◌+◌, ◌-◌, ◌*◌, ◌%◌, ◌^◌, ◌≤◌, ◌<◌, ◌≡◌, refl, ap, true, not, List, [], ◌∷◌, ◌==◌, ◌||◌, leb,
  ltb, Bytes, length, length-append, ok, arith, Ensures, Ensures-guard, Ensures-bind, Ensures-ok,
  Ensures-weaken, leb→le, le→leb,
}
use rust_xpra.Client.Mmap.{header_size}
use rust_xpra.Client.Mmap.Image.{
  Chunk, slice, available, copy_rows, destride, out_of_range, empty_image, width_overflows,
  small_rowstride, too_small,
}
use rust_xpra.Client.Mmap.Image.Pixels.{logical, InArea, length-slice}
use rust_xpra.Client.Mmap.Image.Packed.{
  stride_of, Holds, AreSizes, IsImage, IsImage-Holds, rows_mono, stride_of-lt,
}

-- The bytes of the chunks are counted, and each chunk is in range.
available_lem :
    (area : Bytes) (chunks : List Chunk) (sum : ℕ)
    → InArea area chunks
    → length area < 2 ^ 64
    → sum < 2 ^ 64
    → available (length area) chunks sum ≡ ok ((sum + length (logical area chunks)) % 2 ^ 64)
unfolding available
available_lem area [] sum i small lt = ap ok (omega arith)
available_lem area ((offset, size) ∷ chunks) sum i small lt =
    let e : not (
          ltb offset header_size
          || (leb (2 ^ 64) (offset + size) || ltb (length area) (offset + size)))
        ≡ true =
      ground arith in
    rw
      (
        e,
        available_lem area chunks ((sum + size) % 2 ^ 64) i.2 small (omega arith),
        length-append (slice area offset size) (logical area chunks),
        length-slice area offset size i.1,
      )
      (ap ok (omega arith))

available-Ensures :
    (area : Bytes) (chunks : List Chunk) (sum : ℕ)
    → Ensures
        (λ n. InArea area chunks × (n ≤ sum + length (logical area chunks)))
        (available (length area) chunks sum)
unfolding available
available-Ensures area [] sum = Ensures-ok (tt, omega arith)
available-Ensures area ((offset, size) ∷ chunks) sum =
    Ensures-guard
      (not (
        ltb offset header_size
        || (leb (2 ^ 64) (offset + size) || ltb (length area) (offset + size))))
      (out_of_range offset size)
      λ e.
        let inside : offset + size ≤ length area = ground arith in
        Ensures-weaken (available-Ensures area chunks ((sum + size) % 2 ^ 64)) λ n h. (
          (ground arith, inside, h.0),
          omega (
            arith,
            h.1,
            length-append (slice area offset size) (logical area chunks),
            length-slice area offset size inside,
          ),
        )

module _ (area : Bytes) (chunks : List Chunk) (w h rowstride : ℕ)
    (sizes : AreSizes w h rowstride) where
  required_small : ((h - 1) * stride_of w rowstride + w * 4) < 2 ^ 64
  required_small = omega (
    arith,
    rows_mono (h - 1) (2 ^ 31 - 2) (stride_of w rowstride) (omega arith),
    stride_of-lt w rowstride (omega arith) (omega arith),
  )

  -- A draw of 31-bit sizes whose chunks lie in an area of less than 2^64 bytes, have less than 2^64 bytes
  -- all together and hold the image is accepted, and the result is that image.
  pub destride-Holds :
      Holds area chunks w h rowstride
      → length area < 2 ^ 64
      → length (logical area chunks) < 2 ^ 64
      → (out : Bytes) × (destride area chunks w h rowstride ≡ ok out)
        × IsImage area chunks w h rowstride out
  unfolding destride
  destride-Holds holds small few =
      let some_pixels : not ((w == 0) || (h == 0)) ≡ true =
        ground (arith, holds.wide, holds.high) in
      let narrow : ltb (w * 4) (2 ^ 64) ≡ true = ground arith in
      let strided : leb (w * 4) (stride_of w rowstride) ≡ true = ground (arith, holds.strided) in
      let counted : (0 + length (logical area chunks)) % 2 ^ 64 ≡ length (logical area chunks) =
        omega arith in
      let required : leb (((h - 1) * stride_of w rowstride + w * 4) % 2 ^ 64)
            (length (logical area chunks))
          ≡ true =
        le→leb _ _ (omega (arith, required_small, holds.long)) in
      (
        copy_rows area chunks (stride_of w rowstride) (w * 4) 0 h,
        rw
            (
              some_pixels,
              narrow,
              strided,
              available_lem area chunks 0 holds.inside small (omega arith),
              counted,
              required,
            )
            refl,
        IsImage-Holds area chunks w h rowstride sizes holds,
      )

  -- A draw that is accepted has chunks that hold the image, and gives that image.
  pub destride-IsImage :
      (out : Bytes)
      → destride area chunks w h rowstride ≡ ok out
      → Holds area chunks w h rowstride × IsImage area chunks w h rowstride out
  unfolding destride
  destride-IsImage = (accepted).at
    where
      accepted :
          Ensures
            (λ out. Holds area chunks w h rowstride × IsImage area chunks w h rowstride out)
            (destride area chunks w h rowstride)
      accepted = Ensures-guard (not ((w == 0) || (h == 0))) (empty_image w h) λ some_pixels.
          Ensures-guard (ltb (w * 4) (2 ^ 64)) width_overflows λ narrow.
            Ensures-guard (leb (w * 4) (stride_of w rowstride))
              (small_rowstride (stride_of w rowstride) w)
              λ strided. Ensures-bind (available (length area) chunks 0) λ sum counted.
                Ensures-guard (leb (((h - 1) * stride_of w rowstride + w * 4) % 2 ^ 64) sum)
                  (too_small sum (((h - 1) * stride_of w rowstride + w * 4) % 2 ^ 64))
                  λ enough.
                    let (inside, bound) = (available-Ensures area chunks 0).at sum counted in
                    let holds : Holds area chunks w h rowstride = record {
                      inside = inside;
                      wide = ground (arith, some_pixels);
                      high = ground (arith, some_pixels);
                      strided = leb→le _ _ strided;
                      long = omega (arith, required_small, leb→le _ _ enough, bound);
                    } in
                    Ensures-ok (holds, IsImage-Holds area chunks w h rowstride sizes holds)
