-- ===== src/Net/Io/Reassembly.antt =====
-- What the receive loop of io.rs makes of the frames that a server sends: the chunks first, the
-- main packet last.
use rust_xpra.Prelude.{
  ℕ, zero, suc, ◌+◌, ◌^◌, ◌<◌, ◌≡◌, refl, Bool, false, Option, none, some, List, [], ◌∷◌, ◌++◌,
  ◌==◌, ◌||◌, arith, if◌then◌else◌, Bytes, length, append_assoc, ok, err, bit_and, Bool-cases, inl,
  inr, ◌∙◌, ◌-◌,
}
use rust_xpra.Net.Io.{
  Frame, RawPacket, Chunks, contains_key, find_chunk, decompress, main_packet, chunk_packet,
  read_loop, read_packet, write_packet,
}
use rust_xpra.Net.Io.Frames.{wire, frame-wire, write_packet-wire}

-- What goes over the wire before the main packet.
abbrev pub wires : List Frame → Bytes
wires [] = []
wires (f ∷ fs) = wire f ++ wires fs

-- Some frame has this index.
abbrev pub occurs : ℕ → List Frame → Bool
occurs i [] = false
occurs i (f ∷ fs) = (f.index == i) || occurs i fs

-- Chunks as the protocol allows them: indices from 1 to 15, no two alike, sizes in four bytes.
abbrev pub AreChunks : List Frame → Type 0
AreChunks [] = Unit
AreChunks (f ∷ fs) =
    (0 < f.index)
    × (f.index < 16)
    × (length f.payload < 2 ^ 32)
    × (occurs f.index fs ≡ false)
    × AreChunks fs

module _ (lz4 : Bytes → Option Bytes) where
  -- The bytes that a frame stands for, if they can be had.
  abbrev pub content : Frame → Option Bytes
  content f =
      if f.compression == 0
      then some f.payload
      else elim (decompress lz4 f.compression f.payload) [ ok raw ↦ some raw | err e ↦ none ]

  -- What was sent for the field `i`.
  abbrev pub sent : ℕ → List Frame → Option Bytes
  sent i [] = none
  sent i (f ∷ fs) = if f.index == i then content f else sent i fs

  hold : Option Bytes → ℕ → Chunks → Chunks
  hold none i held = held
  hold (some raw) i held = (i, raw) ∷ held

  held_after : Chunks → List Frame → Chunks
  held_after held [] = held
  held_after held (f ∷ fs) = held_after (hold (content f) f.index held) fs

  -- None of the frames has an index that is held already.
  abbrev Unheld : Chunks → List Frame → Type 0
  Unheld held [] = Unit
  Unheld held (f ∷ fs) = (contains_key held f.index ≡ false) × Unheld held fs

  Unheld-hold :
      (o : Option Bytes) (i : ℕ) (held : Chunks) (fs : List Frame)
      → occurs i fs ≡ false
      → Unheld held fs
      → Unheld (hold o i held) fs
  unfolding hold contains_key
  Unheld-hold none i held fs h u = u
  Unheld-hold (some raw) i held [] h u = tt
  Unheld-hold (some raw) i held (f ∷ fs) h u =
      (ground (arith, u.0), Unheld-hold (some raw) i held fs (ground arith) u.1)

  chunk_packet_lem :
      (f : Frame) (received : ℕ) (held : Chunks)
      → received < 4
      → contains_key held f.index ≡ false
      → chunk_packet lz4 f.index f.compression f.payload received held
        ≡ ok (hold (content f) f.index held)
  unfolding chunk_packet hold
  chunk_packet_lem f received held h u = ground arith

  read_loop_chunk :
      (f : Frame) (fuel received : ℕ) (held : Chunks) (rest : Bytes)
      → 0 < f.index
      → f.index < 16
      → length f.payload < 2 ^ 32
      → received + 1 < 4
      → contains_key held f.index ≡ false
      → read_loop lz4 (suc fuel) received held (wire f ++ rest)
        ≡ read_loop lz4 fuel (received + 1) (hold (content f) f.index held) rest
  unfolding read_loop
  read_loop_chunk f fuel received held rest pos i n h u =
      rw (frame-wire f rest i n, read_loop)
        (ground (arith, chunk_packet_lem f (received + 1) held h u))

  read_loop-wires :
      (fs : List Frame) (fuel left received : ℕ) (held : Chunks) (rest : Bytes)
      → AreChunks fs
      → Unheld held fs
      → received + length fs < 4
      → fuel ≡ length fs + left
      → read_loop lz4 fuel received held (wires fs ++ rest)
        ≡ read_loop lz4 left (received + length fs) (held_after held fs) rest
  unfolding held_after
  read_loop-wires [] fuel left received held rest c u h e = ground arith
  read_loop-wires (f ∷ fs) zero left received held rest c u h e = absurd (omega arith)
  read_loop-wires (f ∷ fs) (suc fuel) left received held rest c u h e =
      rw
        (
          append_assoc (wire f) (wires fs) rest,
          read_loop_chunk f fuel received held (wires fs ++ rest) c.0 c.1 c.2 (omega arith) u.0,
          read_loop-wires fs fuel left (received + 1) (hold (content f) f.index held) rest c.4
              (Unheld-hold (content f) f.index held fs c.3 u.1) (omega arith) (omega arith),
        )
        (ground arith)

  -- What is found for a field is what was sent for it.
  sent_absent : (i : ℕ) (fs : List Frame) → occurs i fs ≡ false → sent i fs ≡ none
  sent_absent i [] h = refl
  sent_absent i (f ∷ fs) h = ground (arith, sent_absent i fs)

  abbrev or_else : Option Bytes → Option Bytes → Option Bytes
  or_else none d = d
  or_else (some raw) d = some raw

  find-hold :
      (o : Option Bytes) (j i : ℕ) (held : Chunks)
      → find_chunk (hold o j held) i
        ≡ (if j == i then or_else o (find_chunk held i) else find_chunk held i)
  unfolding find_chunk hold
  find-hold none j i held = ground arith
  find-hold (some raw) j i held = refl

  find-held_after :
      (i : ℕ) (fs : List Frame) (held : Chunks)
      → AreChunks fs
      → find_chunk (held_after held fs) i ≡ or_else (sent i fs) (find_chunk held i)
  unfolding held_after
  find-held_after i [] held c = refl
  find-held_after i (f ∷ fs) held c =
      rw
        (
          find-held_after i fs (hold (content f) f.index held) c.4,
          find-hold (content f) f.index i held,
        )
        (elim (Bool-cases (f.index == i)) [
          | inl e ↦ rw (e, sent_absent i fs (ground (arith, c.3))) refl
          | inr e ↦ rw e refl
        ])

  or_else-none : (o : Option Bytes) → or_else o none ≡ o
  or_else-none none = refl
  or_else-none (some raw) = refl

  Unheld-nil : (fs : List Frame) → Unheld [] fs
  unfolding contains_key
  Unheld-nil [] = tt
  Unheld-nil (f ∷ fs) = (refl, Unheld-nil fs)

  read_loop_main :
      (m : Frame) (d : Bytes) (fuel received : ℕ) (held : Chunks) (rest : Bytes)
      → m.index ≡ 0
      → length m.payload < 2 ^ 32
      → (bit_and m.flags 4 == 0) ≡ false
      → content m ≡ some d
      → read_loop lz4 (suc fuel) received held (wire m ++ rest)
        ≡ some (ok (record { payload = d; chunks = held }, rest))
  unfolding main_packet read_loop
  read_loop_main m d fuel received held rest i n y e =
      rw (frame-wire m rest (omega arith) n, read_loop) (ground arith)

  -- A main packet behind at most three chunks is read whole, and what follows it is left alone: the
  -- packet has the main frame's content, and under each index what was sent for that field, a chunk
  -- that does not decompress being dropped.
  pub read_packet-wires :
      (fs : List Frame) (m : Frame) (d rest : Bytes)
      → AreChunks fs
      → length fs < 4
      → m.index ≡ 0
      → length m.payload < 2 ^ 32
      → (bit_and m.flags 4 == 0) ≡ false
      → content m ≡ some d
      → (p : RawPacket) × (read_packet lz4 (wires fs ++ wire m ++ rest) ≡ some (ok (p, rest)))
        × (p.payload ≡ d)
        × ((i : ℕ) → find_chunk p.chunks i ≡ sent i fs)
  unfolding read_packet find_chunk
  read_packet-wires fs m d rest c few i n y e = (
    record { payload = d; chunks = held_after [] fs },
    rw (append_assoc (wires fs) (wire m) rest) (
        rw
          (read_loop-wires fs 4 (suc (3 - length fs)) 0 [] (wire m ++ rest) c (Unheld-nil fs)
            (omega arith) (omega arith))
          (read_loop_main m d (3 - length fs) _ (held_after [] fs) rest i n y e)),
    refl,
    λ j. find-held_after j fs [] c ∙ or_else-none (sent j fs),
  )

  -- What this client writes is read back by the same framing, with no chunks.
  pub read_packet-write_packet :
      (d rest : Bytes)
      → length d < 2 ^ 32
      → read_packet lz4 (write_packet d ++ rest)
        ≡ some (ok (record { payload = d; chunks = [] }, rest))
  unfolding read_packet
  read_packet-write_packet d rest n = rw (write_packet-wire d) (
      read_loop_main (record { flags = 4; compression = 0; index = 0; payload = d }) d 3 0 [] rest
        refl n refl refl)
