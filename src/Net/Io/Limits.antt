-- ===== src/Net/Io/Limits.antt =====
-- The bounds that the receive loop of io.rs keeps, whatever the peer sends.
use rust_xpra.Prelude.{
  ℕ, zero, suc, ◌+◌, ◌^◌, ◌≤◌, ◌<◌, ◌≡◌, refl, false, Option, none, some, [], ◌∷◌, ◌==◌, arith,
  Bytes, length, take, Result, ok, err, Bool-cases, inl, inr, Result-cases, ◌>>=◌,
}
use rust_xpra.Net.Io.{
  Frame, frame, RawPacket, Chunks, contains_key, IoError, main_packet, chunk_packet, read_loop,
  read_packet, write_packet, unexpected_eof,
}
use rust_xpra.Net.Io.Frames.{write_packet-wire, frame-take-wire}

-- Chunks as a packet may hold them: under indices from 1 to 15, no two alike.
abbrev pub AreHeld : Chunks → Type 0
AreHeld [] = Unit
AreHeld ((i, v) ∷ m) = (0 < i) × (i < 16) × (contains_key m i ≡ false) × AreHeld m

-- What a finished read guarantees of a packet.
abbrev pub Holds : Option (Result IoError (RawPacket × Bytes)) → Type 0
Holds none = ⊥
Holds (some (err e)) = Unit
Holds (some (ok (p, rest))) = (length p.chunks < 4) × AreHeld p.chunks

-- The index of a frame that is accepted is in range.
frame_index : (s s' : Bytes) (f : Frame) → frame s ≡ ok (f, s') → f.index < 16
unfolding frame
frame_index s s' f h = ground arith

module _ (lz4 : Bytes → Option Bytes) where
  chunk_packet_held :
      (index compression : ℕ) (payload : Bytes) (received : ℕ) (held held' : Chunks)
      → 0 < index
      → index < 16
      → AreHeld held
      → length held < received
      → chunk_packet lz4 index compression payload received held ≡ ok held'
      → AreHeld held' × (length held' ≤ received) × (received < 4)
  unfolding chunk_packet
  chunk_packet_held index compression payload received held held' p q a l h = ground arith

  main_packet_chunks :
      (f : Frame) (held : Chunks) (p : RawPacket)
      → main_packet lz4 f.flags f.compression f.payload held ≡ ok p
      → p.chunks ≡ held
  unfolding main_packet
  main_packet_chunks f held p h = ground arith

  main_packet-Holds :
      (f : Frame) (held : Chunks) (s : Bytes)
      → length held < 4
      → AreHeld held
      → Holds (some (main_packet lz4 f.flags f.compression f.payload held >>= λ p. ok (p, s)))
  main_packet-Holds f held s l a =
      elim (Result-cases (main_packet lz4 f.flags f.compression f.payload held)) [
        | inl (p, q) ↦ rw q (rw (main_packet_chunks f held p q) (l, a))
        | inr (e, q) ↦ rw q tt
      ]

  read_loop-Holds :
      (fuel received : ℕ) (held : Chunks) (s : Bytes)
      → fuel + received ≡ 4
      → length held ≤ received
      → received < 4
      → AreHeld held
      → Holds (read_loop lz4 fuel received held s)
  unfolding read_loop
  read_loop-Holds zero received held s e l r a = absurd (omega arith)
  read_loop-Holds (suc fuel) received held s e l r a = elim (Result-cases (frame s)) [
    | inr (x, q) ↦ rw (q, Holds) tt
    | inl ((f, s'), q) ↦
        rw (q, Holds)
          (elim (Bool-cases (f.index == 0)) [
            | inl z ↦ rw (z, Holds) (main_packet-Holds f held s' (omega arith) a)
            | inr z ↦
                rw (z, Holds)
                  (elim (Result-cases
                    (chunk_packet lz4 f.index f.compression f.payload (received + 1) held)) [
                      | inr (x, q') ↦ rw (q', Holds) tt
                      | inl (held', q') ↦
                          rw (q', Holds)
                            (let keep =
                                chunk_packet_held f.index f.compression f.payload (received + 1)
                                  held held' (ground arith) (frame_index s s' f q) a (omega arith)
                                  q' in
                              read_loop-Holds fuel (received + 1) held' s' (omega arith)
                                (omega arith) (omega arith) keep.0)
                    ])
          ])
  ]

  -- Whatever the peer sends, the loop ends within four frames: with an error, or with a packet that
  -- holds at most three chunks, under distinct indices from 1 to 15.
  pub read_packet-Holds : (s : Bytes) → Holds (read_packet lz4 s)
  unfolding read_packet
  read_packet-Holds s = read_loop-Holds 4 0 [] s refl (omega arith) (omega arith) tt

  -- Of a packet that this client writes, no proper prefix is a packet: the stream's end is an error.
  pub read_packet_truncated :
      (d : Bytes) (n : ℕ)
      → length d < 2 ^ 32
      → n < length (write_packet d)
      → read_packet lz4 (take n (write_packet d)) ≡ some (err unexpected_eof)
  unfolding read_packet read_loop
  read_packet_truncated d n l h =
      let whole = rw (write_packet-wire d) at h in
      rw
        (
          write_packet-wire d,
          frame-take-wire (record { flags = 4; compression = 0; index = 0; payload = d }) n
              (omega arith) l (omega arith),
          read_loop,
        )
        refl
