-- ===== src/Client/Mmap/Image/Packed.antt =====
-- The images that the chunks of a draw hold, and their tightly packed copies.
use native.Mathlib.Nat.{div-add-mod, div-lt_iff_lt-mul, mod-lt}
use rust_xpra.Prelude.{
  ℕ, zero, suc, ◌+◌, ◌-◌, ◌*◌, ◌/◌, ◌%◌, ◌^◌, ◌≤◌, ◌<◌, ◌≡◌, refl, sym, ap, ◌∙◌, Bool-cases, inl,
  inr, List, [], ◌∷◌, none, arith, ◌==◌, ltb, ltb→lt, if◌then◌else◌, Bytes, length, get_elem?,
}
use rust_xpra.Client.Mmap.Image.{Chunk, copy_rows}
use rust_xpra.Client.Mmap.Image.Pixels.{logical, InArea, copy_rows_pixel, length-copy_rows, RowsFit}

-- The stride that a row stride of zero stands for.
abbrev pub stride_of : ℕ → ℕ → ℕ
stride_of w rowstride = if rowstride == 0 then w * 4 else rowstride

-- The chunks hold the image: they lie in the area, a row is no longer than the stride, and the last
-- row ends inside their bytes.
pub record Holds (area : Bytes) (chunks : List Chunk) (w h rowstride : ℕ) : Type 0 where
  pub inside : InArea area chunks
  pub wide : 0 < w
  pub high : 0 < h
  pub strided : w * 4 ≤ stride_of w rowstride
  pub long : (h - 1) * stride_of w rowstride + w * 4 ≤ length (logical area chunks)

-- Sizes as the draw packets give them: three `i32`s that are not negative.
abbrev pub AreSizes : ℕ → ℕ → ℕ → Type 0
AreSizes w h rowstride = (w < 2 ^ 31) × (h < 2 ^ 31) × (rowstride < 2 ^ 31)

-- A tightly packed copy of the image: its byte `k` is byte `k % (w * 4)` of row `k / (w * 4)`, which
-- starts a stride behind the row before it in the byte stream that the chunks form.
pub record IsImage (area : Bytes) (chunks : List Chunk) (w h rowstride : ℕ) (out : Bytes)
    : Type 0 where
  pub size : length out ≡ h * (w * 4)
  pub pixel :
      (k : ℕ)
      → get_elem? out k ≡ (
          if ltb k (h * (w * 4))
          then get_elem? (logical area chunks) (k / (w * 4) * stride_of w rowstride + k % (w * 4))
          else none)

product_bound : (a b : ℕ) → a < 2 ^ 31 → b < 2 ^ 33 → a * b < 2 ^ 64
product_bound a b h k = grind arith

pub rows_mono : (a b s : ℕ) → a ≤ b → a * s ≤ b * s
rows_mono a b s h = grind arith

pub stride_of-lt :
    (w rowstride : ℕ) → w < 2 ^ 31 → rowstride < 2 ^ 31 → stride_of w rowstride < 2 ^ 33
stride_of-lt w rowstride h k = ground arith

RowsFit-Holds :
    (area : Bytes) (chunks : List Chunk) (w h rowstride : ℕ)
    → AreSizes w h rowstride
    → Holds area chunks w h rowstride
    → RowsFit area chunks (stride_of w rowstride) (w * 4) 0 h
RowsFit-Holds area chunks w h rowstride s holds r lo hi =
    let stride = stride_of w rowstride in
    let up_to : r * stride ≤ (h - 1) * stride =
      rows_mono r (h - 1) stride (omega (arith, holds.high)) in
    let narrow : stride < 2 ^ 33 = stride_of-lt w rowstride (omega arith) (omega arith) in
    (omega (arith, holds.long), omega (arith, product_bound r stride (omega arith) narrow))

get_elem?_past : (xs : Bytes) (k : ℕ) → length xs ≤ k → get_elem? xs k ≡ none
get_elem?_past [] k h = refl
get_elem?_past (x ∷ xs) zero h = absurd (omega arith)
get_elem?_past (x ∷ xs) (suc k) h = get_elem?_past xs k (omega arith)

pub IsImage-Holds :
    (area : Bytes) (chunks : List Chunk) (w h rowstride : ℕ)
    → AreSizes w h rowstride
    → Holds area chunks w h rowstride
    → IsImage area chunks w h rowstride (copy_rows area chunks (stride_of w rowstride) (w * 4) 0 h)
IsImage-Holds area chunks w h rowstride s holds = record {
  size = size;
  pixel = λ k. elim (Bool-cases (ltb k (h * (w * 4)))) [
    | inl lt ↦ rw lt (inside k (ltb→lt _ _ lt))
    | inr past ↦ rw past (get_elem?_past out k (ground (arith, size)))
  ];
}
  where
    out : Bytes
    out = copy_rows area chunks (stride_of w rowstride) (w * 4) 0 h

    fit : RowsFit area chunks (stride_of w rowstride) (w * 4) 0 h
    fit = RowsFit-Holds area chunks w h rowstride s holds

    size : length out ≡ h * (w * 4)
    size = length-copy_rows area chunks (stride_of w rowstride) (w * 4) holds.inside 0 h fit

    inside :
        (k : ℕ)
        → k < h * (w * 4)
        → get_elem? out k
          ≡ get_elem? (logical area chunks) (k / (w * 4) * stride_of w rowstride + k % (w * 4))
    inside k lt =
        let some_bytes : 0 < w * 4 = omega (arith, holds.wide) in
        let row : k / (w * 4) < h = (div-lt_iff_lt-mul some_bytes).1 lt in
        let column : k % (w * 4) < w * 4 = mod-lt k some_bytes in
        let place : k / (w * 4) * (w * 4) + k % (w * 4) ≡ k =
          grind (arith, div-add-mod k (w * 4)) in
        let from_zero : 0 + k / (w * 4) ≡ k / (w * 4) = omega arith in
        let byte =
          copy_rows_pixel area chunks (stride_of w rowstride) (w * 4) holds.inside 0 h (k / (w * 4))
            (k % (w * 4)) fit row column in
        ap (get_elem? out) (sym place) ∙ rw from_zero at byte
