-- ===== src/Client/Mmap/Image/Pixels.antt =====
-- The image that mmap.rs copies out of the area, pixel byte by pixel byte.
use rust_xpra.Prelude.{
  ℕ, zero, suc, ◌+◌, ◌-◌, ◌*◌, ◌%◌, ◌^◌, ◌≤◌, ◌<◌, ◌≡◌, refl, ap, min, List, [], ◌∷◌, ◌++◌, ◌==◌,
  leb, if◌then◌else◌, Bytes, length, take, drop, get_elem?, length-take, length-drop, length-append,
  arith, Bool-cases, inl, inr,
}
use rust_xpra.Prelude.Slices.{
  drop-take, drop-drop, take-append_any, drop-append_any, take-take, drop_all,
  get_elem?-append_left, get_elem?-append_right, get_elem?-take, get_elem?-drop,
}
use rust_xpra.Client.Mmap.{header_size}
use rust_xpra.Client.Mmap.Image.{Chunk, slice, copy_logical, copy_rows}

-- The byte stream that the chunks form.
abbrev pub logical : Bytes → List Chunk → Bytes
logical area [] = []
logical area ((offset, size) ∷ chunks) = slice area offset size ++ logical area chunks

-- Every chunk lies behind the control words and inside the area.
abbrev pub InArea : Bytes → List Chunk → Type 0
InArea area [] = Unit
InArea area ((offset, size) ∷ chunks) =
    (header_size ≤ offset) × (offset + size ≤ length area) × InArea area chunks

pub length-slice :
    (area : Bytes) (offset size : ℕ)
    → offset + size ≤ length area
    → length (slice area offset size) ≡ size
length-slice area offset size h =
    omega (arith, length-take size (drop offset area), length-drop offset area)

slice_part :
    (area : Bytes) (offset size skip want : ℕ)
    → take want (drop skip (slice area offset size))
      ≡ slice area (offset + skip) (min (size - skip) want)
slice_part area offset size skip want =
    let e : min want (size - skip) ≡ min (size - skip) want = omega arith in
    rw
      (
        drop-take skip size (drop offset area),
        drop-drop skip offset area,
        take-take want (size - skip) (drop (offset + skip) area),
        e,
      )
      refl

later_part :
    (area : Bytes) (offset size : ℕ) (chunks : List Chunk) (skip want : ℕ)
    → length (slice area offset size) ≡ size
    → copy_logical area chunks 0 (want - min (size - skip) want)
      ≡ take (want - min (size - skip) want) (logical area chunks)
    → (if want - min (size - skip) want == 0
        then []
        else copy_logical area chunks 0 (want - min (size - skip) want))
      ≡ take (want - length (drop skip (slice area offset size))) (logical area chunks)
later_part area offset size chunks skip want len ih =
    let left : want - length (drop skip (slice area offset size)) ≡ want - min (size - skip) want =
      omega (arith, length-drop skip (slice area offset size)) in
    rw left (elim (Bool-cases (want - min (size - skip) want == 0)) [
      | inl e ↦
          let none_left : want - min (size - skip) want ≡ 0 = ground arith in rw (e, none_left) refl
      | inr e ↦ rw e ih
    ])

copy_logical_lem :
    (area : Bytes) (chunks : List Chunk) (skip want : ℕ)
    → InArea area chunks
    → skip + want ≤ length (logical area chunks)
    → copy_logical area chunks skip want ≡ take want (drop skip (logical area chunks))
unfolding copy_logical
copy_logical_lem area [] skip want i h = let nothing : want ≡ 0 = omega arith in rw nothing refl
copy_logical_lem area ((offset, size) ∷ chunks) skip want i h = elim (Bool-cases (leb size skip)) [
  | inl e ↦
      rw
        (
          e,
          copy_logical_lem area chunks (skip - size) want i.2 (ground (arith, len, all)),
          drop-append_any skip here later,
          drop_all skip here (ground (arith, len)),
          len,
        )
        refl
  | inr e ↦
      let first : skip - length here ≡ 0 = ground (arith, len) in
      rw
        (
          e,
          drop-append_any skip here later,
          first,
          take-append_any want (drop skip here) later,
          slice_part area offset size skip want,
        )
        (ap (λ (t : Bytes). slice area (offset + skip) (min (size - skip) want) ++ t)
          (later_part area offset size chunks skip want len (
            copy_logical_lem area chunks 0 (want - min (size - skip) want) i.2
              (ground (arith, len, all)))))
]
  where
    here : Bytes
    here = slice area offset size

    later : Bytes
    later = logical area chunks

    len : length here ≡ size
    len = length-slice area offset size i.1

    all : length (here ++ later) ≡ length here + length later
    all = length-append here later

-- Each row lies inside the chunks.
abbrev pub RowsFit : Bytes → List Chunk → ℕ → ℕ → ℕ → ℕ → Type 0
RowsFit area chunks stride width_bytes row left =
    (r : ℕ)
    → row ≤ r
    → r < row + left
    → (r * stride + width_bytes ≤ length (logical area chunks)) × (r * stride < 2 ^ 64)

module _ (area : Bytes) (chunks : List Chunk) (stride width_bytes : ℕ)
    (inside : InArea area chunks) where
  row_lem :
      (row : ℕ)
      → row * stride + width_bytes ≤ length (logical area chunks)
      → row * stride < 2 ^ 64
      → copy_logical area chunks (row * stride % 2 ^ 64) width_bytes
        ≡ take width_bytes (drop (row * stride) (logical area chunks))
  row_lem row h lt =
      let e : row * stride % 2 ^ 64 ≡ row * stride = omega arith in
      rw e (copy_logical_lem area chunks (row * stride) width_bytes inside h)

  length-row :
      (row : ℕ)
      → row * stride + width_bytes ≤ length (logical area chunks)
      → length (take width_bytes (drop (row * stride) (logical area chunks))) ≡ width_bytes
  length-row row h = omega (
    arith,
    length-take width_bytes (drop (row * stride) (logical area chunks)),
    length-drop (row * stride) (logical area chunks),
  )

  pub length-copy_rows :
      (row left : ℕ)
      → RowsFit area chunks stride width_bytes row left
      → length (copy_rows area chunks stride width_bytes row left) ≡ left * width_bytes
  unfolding copy_rows
  length-copy_rows row zero fit = omega arith
  length-copy_rows row (suc left) fit =
      let (long, small) = fit row (omega arith) (omega arith) in
      rw (row_lem row long small) (
        omega (
          arith,
          length-append (take width_bytes (drop (row * stride) (logical area chunks)))
              (copy_rows area chunks stride width_bytes (row + 1) left),
          length-row row long,
          length-copy_rows (row + 1) left (λ r lo hi. fit r (omega arith) (omega arith)),
        ))

  pub copy_rows_pixel :
      (row left r c : ℕ)
      → RowsFit area chunks stride width_bytes row left
      → r < left
      → c < width_bytes
      → get_elem? (copy_rows area chunks stride width_bytes row left) (r * width_bytes + c)
        ≡ get_elem? (logical area chunks) ((row + r) * stride + c)
  unfolding copy_rows
  copy_rows_pixel row zero r c fit lt ct = absurd (omega arith)
  copy_rows_pixel row (suc left) zero c fit lt ct =
      let (long, small) = fit row (omega arith) (omega arith) in
      let first : zero * width_bytes + c ≡ c = omega arith in
      let same : row * stride + c ≡ (row + zero) * stride + c = omega arith in
      rw
        (
          first,
          row_lem row long small,
          get_elem?-append_left (take width_bytes (drop (row * stride) (logical area chunks)))
              (copy_rows area chunks stride width_bytes (row + 1) left) c
              (omega (arith, length-row row long)),
          get_elem?-take width_bytes (drop (row * stride) (logical area chunks)) c ct,
          get_elem?-drop (row * stride) (logical area chunks) c,
        )
        (ap (get_elem? (logical area chunks)) same)
  copy_rows_pixel row (suc left) (suc r) c fit lt ct =
      let (long, small) = fit row (omega arith) (omega arith) in
      let head = take width_bytes (drop (row * stride) (logical area chunks)) in
      let next : suc r * width_bytes + c ≡ length head + (r * width_bytes + c) =
        omega (arith, length-row row long) in
      let same : (row + 1 + r) * stride + c ≡ (row + suc r) * stride + c = omega arith in
      rw
        (
          next,
          row_lem row long small,
          get_elem?-append_right head (copy_rows area chunks stride width_bytes (row + 1) left)
              (r * width_bytes + c),
          copy_rows_pixel (row + 1) left r c (λ q lo hi. fit q (omega arith) (omega arith))
              (omega arith) ct,
        )
        (ap (get_elem? (logical area chunks)) same)
