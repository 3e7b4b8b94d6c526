-- ===== src/Net/Io/Tests.antt =====
-- Runs of io.rs's functions, and its theorems at concrete streams.
use rust_xpra.Prelude.{ℕ, ◌≡◌, refl, some, none, Option, [], ◌∷◌, ◌++◌, ok, err, Bytes, take, arith}
use rust_xpra.Net.Io.{
  Frame, RawPacket, find_chunk, read_packet, write_packet, unexpected_eof, duplicate_chunk,
  read_loop, frame, chunk_packet, contains_key, decompress, main_packet, make_header,
}
use rust_xpra.Net.Io.Frames.{wire}
use rust_xpra.Net.Io.Reassembly.{wires, sent, read_packet-wires, read_packet-write_packet}
use rust_xpra.Net.Io.Limits.{Holds, read_packet-Holds, read_packet_truncated}

-- A decompressor that knows one block.
abbrev lz4 : Bytes → Option Bytes
lz4 (b ∷ []) = some (b ∷ b ∷ [])
lz4 _ = none

abbrev main : Frame
main = record { flags = 4; compression = 0x11; index = 0; payload = 7 ∷ [] }

abbrev icon : Frame
icon = record { flags = 0; compression = 0; index = 3; payload = 1 ∷ 2 ∷ [] }

abbrev lost : Frame
lost = record { flags = 0; compression = 0x40; index = 5; payload = 9 ∷ [] }

abbrev stream : Bytes
stream = wires (icon ∷ lost ∷ []) ++ wire main ++ 42 ∷ []

reads :
    read_packet lz4 stream
    ≡ some (ok (record { payload = 7 ∷ 7 ∷ []; chunks = (3, 1 ∷ 2 ∷ []) ∷ [] }, 42 ∷ []))
unfolding read_packet read_loop frame chunk_packet contains_key decompress main_packet
reads = refl

refuses_duplicates : read_packet lz4 (wires (icon ∷ icon ∷ [])) ≡ some (err (duplicate_chunk 3))
unfolding read_packet read_loop frame chunk_packet contains_key
refuses_duplicates = refl

read_packet-wires_example :
    (p : RawPacket) × (read_packet lz4 stream ≡ some (ok (p, 42 ∷ [])))
    × (p.payload ≡ 7 ∷ 7 ∷ [])
    × ((i : ℕ) → find_chunk p.chunks i ≡ sent lz4 i (icon ∷ lost ∷ []))
unfolding decompress
read_packet-wires_example =
    read_packet-wires lz4 (icon ∷ lost ∷ []) main (7 ∷ 7 ∷ []) (42 ∷ [])
      (
        omega arith,
        omega arith,
        omega arith,
        refl,
        (omega arith, omega arith, omega arith, refl, tt),
      )
      (omega arith) refl (omega arith) refl refl

read_packet-write_packet_example :
    read_packet lz4 (write_packet (1 ∷ 2 ∷ []) ++ [])
    ≡ some (ok (record { payload = 1 ∷ 2 ∷ []; chunks = [] }, []))
read_packet-write_packet_example = read_packet-write_packet lz4 (1 ∷ 2 ∷ []) [] (omega arith)

read_packet-Holds_example : Holds (read_packet lz4 stream)
read_packet-Holds_example = read_packet-Holds lz4 stream

read_packet_truncated_case :
    read_packet lz4 (take 9 (write_packet (1 ∷ 2 ∷ []))) ≡ some (err unexpected_eof)
unfolding write_packet make_header
read_packet_truncated_case = read_packet_truncated lz4 (1 ∷ 2 ∷ []) 9 (omega arith) (omega arith)
