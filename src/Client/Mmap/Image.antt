-- ===== src/Client/Mmap/Image.antt =====
-- src/client/mmap.rs: the chunk list of a draw packet, and the image that the chunks hold.
pub mod Pixels
pub mod Packed
pub mod Guards
mod Tests
use rust_xpra.Prelude.{
  ℕ, zero, suc, ◌+◌, ◌-◌, ◌*◌, ◌%◌, ◌^◌, min, Bool, true, false, not, List, [], ◌∷◌, ◌++◌, ◌==◌,
  ◌||◌, leb, ltb, if◌then◌else◌, Bytes, length, take, drop, replicate, Result, ok, err, ◌>>=◌, ◌>>◌,
  guard,
}
use rust_xpra.Prelude.Int.{pos, negsuc}
use rust_xpra.Net.Packet.{Yaml, Items, array, integer, item, no_items}
use rust_xpra.Client.Mmap.{header_size}

pub data ImageError : Type 0 where
  no_chunk_list : ImageError
  invalid_chunk : Yaml → ImageError
  empty_chunk_list : ImageError
  empty_image : ℕ → ℕ → ImageError
  width_overflows : ImageError
  small_rowstride : ℕ → ℕ → ImageError
  out_of_range : ℕ → ℕ → ImageError
  too_small : ℕ → ℕ → ImageError

abbrev pub Chunk : Type 0
Chunk = ℕ × ℕ

parse_chunk : Yaml → Result ImageError Chunk
parse_chunk (array (item (integer (pos offset)) (item (integer (pos size)) no_items))) =
    ok (offset, size)
parse_chunk y = err (invalid_chunk y)

parse_items : Items → Result ImageError (List Chunk)
unfolding parse_chunk
parse_items no_items = ok []
parse_items (item y ys) = do c ← parse_chunk y; cs ← parse_items ys; ok (c ∷ cs)

not_empty : List Chunk → Result ImageError (List Chunk)
not_empty [] = err empty_chunk_list
not_empty (c ∷ cs) = ok (c ∷ cs)

unfoldable pub parse_chunks : Yaml → Result ImageError (List Chunk)
unfolding parse_items not_empty
parse_chunks (array ys) = do cs ← parse_items ys; not_empty cs
parse_chunks _ = err no_chunk_list

-- `&area[from..from + size]`
abbrev pub slice : Bytes → ℕ → ℕ → Bytes
slice area from size = take size (drop from area)

-- The `want` bytes that are left of `dst`, which was filled with zeros.
pub copy_logical : Bytes → List Chunk → ℕ → ℕ → Bytes
copy_logical area [] skip want = replicate want 0
copy_logical area ((offset, size) ∷ chunks) skip want =
    let next = copy_logical area chunks (skip - size) want in
    let taken = min (size - skip) want in
    let rest = copy_logical area chunks 0 (want - taken) in
    if leb size skip
    then next
    else slice area (offset + skip) taken ++ (if want - taken == 0 then [] else rest)

-- The checks on the chunks, with the sum of their lengths.
pub available : ℕ → List Chunk → ℕ → Result ImageError ℕ
available area_size [] sum = ok sum
available area_size ((offset, size) ∷ chunks) sum = do
  guard
      (not
        (ltb offset header_size || (leb (2 ^ 64) (offset + size) || ltb area_size (offset + size))))
      (out_of_range offset size)
  available area_size chunks ((sum + size) % 2 ^ 64)

pub copy_rows : Bytes → List Chunk → ℕ → ℕ → ℕ → ℕ → Bytes
copy_rows area chunks stride width_bytes row zero = []
copy_rows area chunks stride width_bytes row (suc left) =
    copy_logical area chunks (row * stride % 2 ^ 64) width_bytes
    ++ copy_rows area chunks stride width_bytes (row + 1) left

pub destride : Bytes → List Chunk → ℕ → ℕ → ℕ → Result ImageError Bytes
destride area chunks w h rowstride = do
  guard (not ((w == 0) || (h == 0))) (empty_image w h)
  guard (ltb (w * 4) (2 ^ 64)) width_overflows
  let width_bytes = w * 4
  let stride = if rowstride == 0 then width_bytes else rowstride
  guard (leb width_bytes stride) (small_rowstride stride w)
  sum ← available (length area) chunks 0
  guard (leb (((h - 1) * stride + width_bytes) % 2 ^ 64) sum)
      (too_small sum (((h - 1) * stride + width_bytes) % 2 ^ 64))
  ok (copy_rows area chunks stride width_bytes 0 h)
