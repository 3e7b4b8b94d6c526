-- ===== src/Client/Draw/Answers.antt =====
-- Each draw that the decode thread takes is answered by one packet about the same draw.
use mathlib.Core.Option
use rust_xpra.Prelude.{
  ◌≤◌, ◌≡◌, ◌≢◌, refl, ap, ◌∙◌, ◌⊎◌, inl, inr, Bool-cases, Option-cases, Result-cases, Option, none,
  some, [], ◌∷◌, Bytes, codes, bytes_eq, get_elem?, length, arith, Result, ok, err,
}
use rust_xpra.Prelude.Int.{ℤ}
use rust_xpra.Net.Packet.{
  string, Packet, get_str, get_i32, get_i64, get_bytes, yaml_str, yaml_bytes,
}
use rust_xpra.Net.Io.{find_chunk}
use rust_xpra.Client.Mmap.{MmapArea, release}
use rust_xpra.Client.Mmap.Image.{parse_chunks}
use rust_xpra.Client.Draw.{
  DrawError, image, Decoders, rgb_format, read_chunks, read_mmap_draw, chunk_list, decode,
  mmap_draw, no_area, no_h264, no_chunks, draw_bytes, decode_draw, patch, decode_packet,
  decode_round,
}
use rust_xpra.Client.Draw.Decoding.{has_field, store_lem, read_mmap_draw-release}

-- `q` tells how the draw `p` went: its type does, and its sequence, window and geometry are `p`'s.
pub record IsAnswer (p q : Packet) : Type 0 where
  pub kind :
      (get_str q 0 ≡ some (codes "draw-decoded")) ⊎ (get_str q 0 ≡ some (codes "decoding-failed"))
  pub window : get_elem? q.main 1 ≡ get_elem? p.main 1
  pub left : get_elem? q.main 2 ≡ get_elem? p.main 2
  pub top : get_elem? q.main 3 ≡ get_elem? p.main 3
  pub width : get_elem? q.main 4 ≡ get_elem? p.main 4
  pub height : get_elem? q.main 5 ≡ get_elem? p.main 5
  pub coding : get_elem? q.main 6 ≡ get_elem? p.main 6
  pub sequence : get_elem? q.main 8 ≡ get_elem? p.main 8
  pub size : length q.main ≡ length p.main

-- `q` tells what became of the draw: the pixels stand in its field 7 where it was decoded, and the
-- message of the error where it was not.
abbrev pub Tells : (DrawError → Bytes) → Result DrawError Bytes → Packet → Type 0
Tells message (ok pixels) q =
    (get_str q 0 ≡ some (codes "draw-decoded")) × (find_chunk q.raw 7 ≡ some pixels)
Tells message (err e) q =
    (get_str q 0 ≡ some (codes "decoding-failed")) × (get_str q 7 ≡ some (message e))

patch_lem :
    (message : DrawError → Bytes) (elapsed : ℤ) (p : Packet) (r : Result DrawError Bytes)
    → 9 ≤ length p.main
    → (q : Packet) × (patch message elapsed p.main r ≡ some q) × IsAnswer p q × Tells message r q
unfolding find_chunk patch get_str yaml_str
patch_lem message elapsed p (err e) long =
    let (xs, f, s) = store_lem p.main 0 (string (codes "decoding-failed")) (omega arith) in
    let (ys, g, t) = store_lem xs 7 (string (message e)) (omega (arith, s.size)) in
    (
      record { main = ys; raw = []; decode_time_us = none },
      rw (f, patch, g) refl,
      record {
        kind = inr (ap (Option.map yaml_str) (t.others 0 (λ h. omega arith) ∙ s.at));
        window = t.others 1 (λ h. omega arith) ∙ s.others 1 (λ h. omega arith);
        left = t.others 2 (λ h. omega arith) ∙ s.others 2 (λ h. omega arith);
        top = t.others 3 (λ h. omega arith) ∙ s.others 3 (λ h. omega arith);
        width = t.others 4 (λ h. omega arith) ∙ s.others 4 (λ h. omega arith);
        height = t.others 5 (λ h. omega arith) ∙ s.others 5 (λ h. omega arith);
        coding = t.others 6 (λ h. omega arith) ∙ s.others 6 (λ h. omega arith);
        sequence = t.others 8 (λ h. omega arith) ∙ s.others 8 (λ h. omega arith);
        size = t.size ∙ s.size;
      },
      (
        ap (Option.map yaml_str) (t.others 0 (λ h. omega arith) ∙ s.at),
        ap (Option.map yaml_str) t.at,
      ),
    )
patch_lem message elapsed p (ok pixels) long =
    let (xs, f, s) = store_lem p.main 0 (string (codes "draw-decoded")) (omega arith) in
    (
      record { main = xs; raw = (7, pixels) ∷ []; decode_time_us = some elapsed },
      rw (f, patch) refl,
      record {
        kind = inl (ap (Option.map yaml_str) s.at);
        window = s.others 1 (λ h. omega arith);
        left = s.others 2 (λ h. omega arith);
        top = s.others 3 (λ h. omega arith);
        width = s.others 4 (λ h. omega arith);
        height = s.others 5 (λ h. omega arith);
        coding = s.others 6 (λ h. omega arith);
        sequence = s.others 8 (λ h. omega arith);
        size = s.size;
      },
      (ap (Option.map yaml_str) s.at, refl),
    )

is_some : {A : Type 0} (o : Option A) → o ≢ none → (a : A) × (o ≡ some a)
is_some none n = absurd (n refl)
is_some (some a) n = (a, refl)

module _ (d : Decoders) where
  read_mmap_draw_total :
      (p : Packet) (area : MmapArea)
      → 9 ≤ length p.main
      → rgb_format (get_elem? p.main 10) ≢ none
      → (r : Result DrawError Bytes × MmapArea) × (read_mmap_draw p area ≡ some r)
  unfolding read_mmap_draw read_chunks
  read_mmap_draw_total p area long known = elim (Option-cases (chunk_list p)) [
    | inl l ↦ ((err no_chunks, area), rw (read_mmap_draw, l) refl)
    | inr (list, l) ↦ elim (Result-cases (parse_chunks list)) [
      | inl (chunks, c) ↦
          let (format, f) = is_some (rgb_format (get_elem? p.main 10)) known in
          let (r, e) = read_mmap_draw-release p area list chunks format l c f (omega arith) in
          ((r, release area chunks), e)
      | inr (e, c) ↦ ((err (image e), area), rw (read_mmap_draw, l, c) refl)
    ]
  ]

  mmap_draw_total :
      (p : Packet) (area : Option MmapArea)
      → 9 ≤ length p.main
      → rgb_format (get_elem? p.main 10) ≢ none
      → (r : Result DrawError Bytes × Option MmapArea) × (mmap_draw p area ≡ some r)
  unfolding mmap_draw
  mmap_draw_total p none long known = ((err no_area, none), refl)
  mmap_draw_total p (some area) long known =
      let (r, e) = read_mmap_draw_total p area long known in ((r.0, some r.1), rw e refl)

  decode_draw_total :
      (coding payload : Bytes) (p : Packet) (area : Option MmapArea)
      → 9 ≤ length p.main
      → rgb_format (get_elem? p.main 10) ≢ none
      → (r : Result DrawError Bytes × Option MmapArea) × (decode_draw d coding payload p area
          ≡ some r)
  unfolding decode_draw mmap_draw
  decode_draw_total coding payload p area long known =
      elim (Bool-cases (bytes_eq coding (codes "h264"))) [
        | inl e ↦ ((err no_h264, area), rw e refl)
        | inr e ↦ elim (Bool-cases (bytes_eq coding (codes "mmap"))) [
          | inl f ↦ let (r, g) = mmap_draw_total p area long known in (r, rw (e, f) g)
          | inr f ↦ ((decode d coding payload, area), rw (e, f) refl)
        ]
      ]

draw_bytes_total :
    (base64 : Bytes → Option Bytes) (coding : Bytes) (p : Packet)
    → 9 ≤ length p.main
    → (b : Bytes) × (draw_bytes base64 coding p ≡ some b)
unfolding draw_bytes get_bytes
draw_bytes_total base64 coding p long = elim (Bool-cases (bytes_eq coding (codes "mmap"))) [
  | inl e ↦ ([], rw e refl)
  | inr e ↦ elim (Option-cases (find_chunk p.raw 7)) [
    | inl f ↦
        let (y, g) = has_field p.main 7 (omega arith) in
        (yaml_bytes base64 y, rw (e, get_bytes, f, g) refl)
    | inr (v, f) ↦ (v, rw (e, get_bytes, f) refl)
  ]
]

-- The decode thread posts one packet for each draw that has the nine fields that it reads and whose
-- options, if there are any, name a pixel format. The packet tells the window, the geometry and the
-- sequence of the draw, and what decoding it with the draw's encoding gave: that the draw was decoded,
-- with the pixels, or that it failed, with the message of the error.
pub decode_round-IsAnswer :
    (base64 : Bytes → Option Bytes) (d : Decoders) (message : DrawError → Bytes) (elapsed : ℤ)
    (p : Packet) (area : Option MmapArea)
    → get_str p 0 ≡ some (codes "draw")
    → 9 ≤ length p.main
    → rgb_format (get_elem? p.main 10) ≢ none
    → (q : Packet) × (area' : Option MmapArea) × (decode_round base64 d message elapsed p area
        ≡ some (some q, area'))
      × IsAnswer p q
      × (coding : Bytes) × (payload : Bytes) × (r : Result DrawError Bytes) × (get_str p 6
          ≡ some coding)
      × (draw_bytes base64 coding p ≡ some payload)
      × (decode_draw d coding payload p area ≡ some (r, area'))
      × Tells message r q
unfolding decode_round decode_packet get_i64 get_i32 get_str
decode_round-IsAnswer base64 d message elapsed p area draw long known =
    let (wid, e1) = has_field p.main 1 (omega arith) in
    let (w, e4) = has_field p.main 4 (omega arith) in
    let (h, e5) = has_field p.main 5 (omega arith) in
    let (c, e6) = has_field p.main 6 (omega arith) in
    let (s, e8) = has_field p.main 8 (omega arith) in
    let (b, f) = draw_bytes_total base64 (yaml_str c) p long in
    let ((r, area'), g) = decode_draw_total d (yaml_str c) b p area long known in
    let (q, k, a, tells) = patch_lem message elapsed p r long in
    (
      q,
      area',
      rw (draw, decode_packet, e1, e4, e5, e6, f, e8, g, k) refl,
      a,
      yaml_str c,
      b,
      r,
      ap (Option.map yaml_str) e6,
      f,
      g,
      tells,
    )
