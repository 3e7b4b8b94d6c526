-- ===== src/Client/Mmap/Image/Tests.antt =====
-- The theorems about the images of the shared area at a concrete draw.
use rust_xpra.Prelude.{◌≡◌, refl, List, [], ◌∷◌, ◌++◌, Bytes, replicate, arith, ok}
use rust_xpra.Client.Mmap.Image.{Chunk, destride, copy_rows, copy_logical, available}
use rust_xpra.Client.Mmap.Image.Packed.{Holds, IsImage}
use rust_xpra.Client.Mmap.Image.Guards.{destride-Holds, destride-IsImage}

-- Two rows of two pixels, ten bytes apart, in a draw that wraps around the end of the area.
abbrev area : Bytes
area =
    replicate 8 0
    ++ (1 ∷ 2 ∷ 3 ∷ 4 ∷ 5 ∷ 6 ∷ 7 ∷ 8 ∷ [])
    ++ replicate 4 0
    ++ (11 ∷ 12 ∷ 13 ∷ 14 ∷ 15 ∷ 16 ∷ 17 ∷ 18 ∷ 0 ∷ 0 ∷ [])

abbrev chunks : List Chunk
chunks = (20, 10) ∷ (8, 8) ∷ []

drawn : Holds area chunks 2 2 10
drawn = record {
  inside = (omega arith, omega arith, (omega arith, omega arith, tt));
  wide = omega arith;
  high = omega arith;
  strided = omega arith;
  long = omega arith;
}

destride-Holds_example :
    (out : Bytes) × (destride area chunks 2 2 10 ≡ ok out) × IsImage area chunks 2 2 10 out
destride-Holds_example =
    destride-Holds area chunks 2 2 10 (omega arith, omega arith, omega arith) drawn (omega arith)
      (omega arith)

abbrev image : Bytes
image = 11 ∷ 12 ∷ 13 ∷ 14 ∷ 15 ∷ 16 ∷ 17 ∷ 18 ∷ 1 ∷ 2 ∷ 3 ∷ 4 ∷ 5 ∷ 6 ∷ 7 ∷ 8 ∷ []

destride_run : destride area chunks 2 2 10 ≡ ok image
unfolding destride copy_rows copy_logical available
destride_run = refl

destride-IsImage_example : Holds area chunks 2 2 10 × IsImage area chunks 2 2 10 image
destride-IsImage_example =
    destride-IsImage area chunks 2 2 10 (omega arith, omega arith, omega arith) image destride_run
