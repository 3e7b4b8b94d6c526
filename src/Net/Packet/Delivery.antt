-- ===== src/Net/Packet/Delivery.antt =====
-- From the frames on the wire to the bytes of a packet's field.
use mathlib.Core.Option
use rust_xpra.Prelude.{
  ℕ, ◌≡◌, refl, sym, ◌∙◌, ap, Bool, false, Option, none, some, List, [], ◌∷◌, ◌++◌, ◌==◌, arith,
  Bytes, get_elem?, ok, length, ◌<◌, ◌^◌, bit_and, Bool-cases, inl, inr,
}
use rust_xpra.Net.Io.{Frame, RawPacket, Chunks, find_chunk, read_packet}
use rust_xpra.Net.Io.Frames.{wire}
use rust_xpra.Net.Io.Reassembly.{wires, AreChunks, content, sent, read_packet-wires}
use rust_xpra.Net.Packet.{Packet, get_bytes, yaml_bytes, remove_chunk, parse_packet, Yaml}

find_chunk-remove_chunk : (m : Chunks) (i : ℕ) → find_chunk (remove_chunk m i) i ≡ none
unfolding remove_chunk find_chunk
find_chunk-remove_chunk [] i = refl
find_chunk-remove_chunk ((j, v) ∷ m) i = elim (Bool-cases (j == i)) [
  | inl e ↦ rw e (find_chunk-remove_chunk m i)
  | inr e ↦ rw e (rw e (find_chunk-remove_chunk m i))
]

module _ (base64 : Bytes → Option Bytes) where
  -- What the field itself holds, with the packet left as it is.
  abbrev pub inline : Packet → ℕ → Option (Bytes × Packet)
  inline p i = Option.map (λ y. (yaml_bytes base64 y, p)) (get_elem? p.main i)

  -- The read gives what was sent, or else what the field itself holds; the fields stay.
  abbrev pub Delivered : Packet → ℕ → Option Bytes → Type 0
  Delivered p i none = get_bytes base64 p i ≡ inline p i
  Delivered p i (some v) = (q : Packet) × (get_bytes base64 p i ≡ some (v, q)) × (q.main ≡ p.main)

  get_bytes-some :
      (p : Packet) (i : ℕ) (v : Bytes)
      → find_chunk p.raw i ≡ some v
      → get_bytes base64 p i ≡ some (v, record p { raw = remove_chunk p.raw i })
  unfolding get_bytes
  get_bytes-some p i v h = rw (h, get_bytes) refl

  get_bytes-none :
      (p : Packet) (i : ℕ) → find_chunk p.raw i ≡ none → get_bytes base64 p i ≡ inline p i
  unfolding get_bytes
  get_bytes-none p i h = rw (h, get_bytes) refl

  delivered : (p : Packet) (i : ℕ) (o : Option Bytes) → find_chunk p.raw i ≡ o → Delivered p i o
  delivered p i none h = get_bytes-none p i h
  delivered p i (some v) h = (record p { raw = remove_chunk p.raw i }, get_bytes-some p i v h, refl)

  -- A chunk is taken out of the packet once: the first read has it, the second has the field.
  pub get_bytes_twice :
      (p : Packet) (i : ℕ) (v : Bytes)
      → find_chunk p.raw i ≡ some v
      → (q : Packet) × (get_bytes base64 p i ≡ some (v, q))
        × (q.main ≡ p.main)
        × (get_bytes base64 q i ≡ inline q i)
  get_bytes_twice p i v h =
      let q : Packet = record p { raw = remove_chunk p.raw i } in
      (q, get_bytes-some p i v h, refl, get_bytes-none q i (find_chunk-remove_chunk p.raw i))

  module _ (lz4 : Bytes → Option Bytes) (from_utf8 : Bytes → Bool)
      (load : Bytes → Option (List Yaml)) where
    parse_packet_raw :
        (r : RawPacket) (p : Packet) → parse_packet from_utf8 load r ≡ ok p → p.raw ≡ r.chunks
    unfolding parse_packet
    parse_packet_raw r p h = ground arith

    -- What was sent for a field, and nothing else, is what its accessor returns after the packet has
    -- been read off the wire and parsed; a field for which nothing came is decoded in place.
    pub get_bytes-read_packet :
        (fs : List Frame) (m : Frame) (d rest : Bytes) (r : RawPacket) (p : Packet) (i : ℕ)
        → AreChunks fs
        → length fs < 4
        → m.index ≡ 0
        → length m.payload < 2 ^ 32
        → (bit_and m.flags 4 == 0) ≡ false
        → content lz4 m ≡ some d
        → read_packet lz4 (wires fs ++ wire m ++ rest) ≡ some (ok (r, rest))
        → parse_packet from_utf8 load r ≡ ok p
        → Delivered p i (sent lz4 i fs)
    get_bytes-read_packet fs m d rest r p i c few z n y e read parsed =
        let (r', read', _, found) = read_packet-wires lz4 fs m d rest c few z n y e in
        let same : r' ≡ r = cc (read, read') in
        let here : find_chunk p.raw i ≡ sent lz4 i fs =
          ap (λ (t : Chunks). find_chunk t i)
            (parse_packet_raw r p parsed ∙ ap (λ (t : RawPacket). t.chunks) (sym same))
          ∙ found i in
        delivered p i (sent lz4 i fs) here
