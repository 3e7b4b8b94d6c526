-- ===== src/Client/Draw/Decoding.antt =====
-- Every draw is answered, and every chunk list that was read is released.
use mathlib.Core.Option
use rust_xpra.Prelude.{
  ℕ, zero, suc, ◌≤◌, ◌<◌, ◌≡◌, ◌≢◌, refl, ap, inl, inr, not, ◌&&◌, Bool-cases, some, List, [], ◌∷◌,
  Bytes, codes, is_empty, starts_with, get_elem?, length, arith, Result, ok, err,
}
use rust_xpra.Prelude.Int.{pos, pos_part}
use rust_xpra.Net.Packet.{Yaml, Packet, get_i32, yaml_i32}
use rust_xpra.Client.Mmap.{MmapArea, release}
use rust_xpra.Client.Mmap.Image.{Chunk, parse_chunks, destride}
use rust_xpra.Client.Draw.{
  DrawError, as_draw, rgb_format, unsupported_format, read_sized, read_formatted, read_mmap_pixels,
  chunk_list, read_chunks, read_mmap_draw, store,
}

-- The packet has an `index`th field.
pub has_field :
    {A : Type 0} (xs : List A) (i : ℕ) → i < length xs → (x : A) × (get_elem? xs i ≡ some x)
has_field [] i h = absurd (omega arith)
has_field (x ∷ xs) zero h = (x, refl)
has_field (x ∷ xs) (suc i) h = has_field xs i (omega arith)

-- Storing at one index keeps the others.
pub record IsStored (xs ys : List Yaml) (i : ℕ) (y : Yaml) : Type 0 where
  pub size : length ys ≡ length xs
  pub at : get_elem? ys i ≡ some y
  pub others : (j : ℕ) → i ≢ j → get_elem? ys j ≡ get_elem? xs j

pub store_lem :
    (xs : List Yaml) (i : ℕ) (y : Yaml)
    → i < length xs
    → (ys : List Yaml) × (store xs i y ≡ some ys) × IsStored xs ys i y
unfolding store
store_lem [] i y h = absurd (omega arith)
store_lem (x ∷ xs) zero y h = (y ∷ xs, refl, record { size = refl; at = refl; others = others })
  where
    others : (j : ℕ) → 0 ≢ j → get_elem? (y ∷ xs) j ≡ get_elem? (x ∷ xs) j
    others zero n = absurd (n refl)
    others (suc j) n = refl
store_lem (x ∷ xs) (suc i) y h = step (store_lem xs i y (omega arith))
  where
    step :
        ((ys : List Yaml) × (store xs i y ≡ some ys) × IsStored xs ys i y)
        → (ys : List Yaml) × (Option.map (λ t. x ∷ t) (store xs i y) ≡ some ys)
          × IsStored (x ∷ xs) ys (suc i) y
    step (ys, e, s) =
        (x ∷ ys, rw e refl, record { size = ap suc s.size; at = s.at; others = others })
      where
        others : (j : ℕ) → suc i ≢ j → get_elem? (x ∷ ys) j ≡ get_elem? (x ∷ xs) j
        others zero n = refl
        others (suc j) n = s.others j (λ e. n (ap suc e))

pub read_sized_total :
    (p : Packet) (area : MmapArea) (chunks : List Chunk)
    → 6 ≤ length p.main
    → (r : Result DrawError Bytes) × (read_sized p area chunks ≡ some r)
unfolding read_sized get_i32
read_sized_total p area chunks long =
    let (w, e) = has_field p.main 4 (omega arith) in
    let (h, f) = has_field p.main 5 (omega arith) in
    let rowstride = Option.get_or (Option.map yaml_i32 (get_elem? p.main 9)) (pos 0) in
    (
      as_draw (
          destride area.memory chunks (pos_part (yaml_i32 w)) (pos_part (yaml_i32 h))
            (pos_part rowstride)),
      rw (e, f) refl,
    )

pub read_formatted_total :
    (p : Packet) (area : MmapArea) (chunks : List Chunk) (format : Bytes)
    → 6 ≤ length p.main
    → (r : Result DrawError Bytes) × (read_formatted p area chunks format ≡ some r)
unfolding read_formatted
read_formatted_total p area chunks format long =
    elim (Bool-cases (not (is_empty format) && not (starts_with format (codes "BGR")))) [
      | inl e ↦ (err (unsupported_format format), rw e refl)
      | inr e ↦ let (r, f) = read_sized_total p area chunks long in (r, rw e f)
    ]

-- An mmap draw whose chunk list is read, in a packet with sizes and whose options are none or name
-- their pixel format, gives the chunks back to the server, whether its pixels can be used or not.
pub read_mmap_draw-release :
    (p : Packet) (area : MmapArea) (list : Yaml) (chunks : List Chunk) (format : Bytes)
    → chunk_list p ≡ some list
    → parse_chunks list ≡ ok chunks
    → rgb_format (get_elem? p.main 10) ≡ some format
    → 6 ≤ length p.main
    → (r : Result DrawError Bytes) × (read_mmap_draw p area ≡ some (r, release area chunks))
unfolding read_mmap_draw read_chunks read_mmap_pixels
read_mmap_draw-release p area list chunks format l c f long =
    let (r, e) = read_formatted_total p area chunks format long in
    (r, rw (l, read_mmap_draw, c, read_chunks, f, read_mmap_pixels, e) refl)
