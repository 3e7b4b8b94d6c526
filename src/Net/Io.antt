-- ===== src/Net/Io.antt =====
-- src/net/io.rs: framing of packets on the wire.
pub mod Frames
pub mod Reassembly
pub mod Limits
mod Tests
use rust_xpra.Prelude.{
  ℕ, zero, suc, ◌+◌, ◌*◌, ◌/◌, ◌%◌, ◌^◌, ◌-◌, bit_and, Bool, true, false, Option, none, some, List,
  [], ◌∷◌, ◌++◌, ◌==◌, leb, ltb, not, if◌then◌else◌, Bytes, length, take, drop, get_or, Result, ok,
  err, ◌>>=◌, ◌>>◌, guard, codes,
}

-- The `ErrorKind`s and messages of io.rs, with the values that the messages show.
pub data IoError : Type 0 where
  unexpected_eof : IoError
  invalid_header_byte : ℕ → IoError
  invalid_chunk_index : ℕ → IoError
  unsupported_encoding : ℕ → IoError
  too_many_chunks : ℕ → IoError
  duplicate_chunk : ℕ → IoError
  unsupported_compression : ℕ → IoError
  lz4_failed : IoError

abbrev pub lz4_flag : ℕ
lz4_flag = 0x10

abbrev pub flags_yaml : ℕ
flags_yaml = 0x4

abbrev pub max_chunks : ℕ
max_chunks = 4

abbrev pub max_chunk_index : ℕ
max_chunk_index = 16

-- `HashMap<u8, Vec<u8>>`: the newest entry of a key stands first, and nothing iterates in order.
abbrev pub Chunks : Type 0
Chunks = List (ℕ × Bytes)

unfoldable pub contains_key : Chunks → ℕ → Bool
contains_key [] k = false
contains_key ((j, v) ∷ m) k = if j == k then true else contains_key m k

unfoldable pub find_chunk : Chunks → ℕ → Option Bytes
find_chunk [] k = none
find_chunk ((j, v) ∷ m) k = if j == k then some v else find_chunk m k

pub record RawPacket : Type 0 where
  pub payload : Bytes
  pub chunks : Chunks

chunk_sizes : Chunks → ℕ
chunk_sizes [] = 0
chunk_sizes ((k, v) ∷ m) = length v + chunk_sizes m

pub size : RawPacket → ℕ
unfolding chunk_sizes
size p = length p.payload + chunk_sizes p.chunks

-- `stream.read_exact`: the bytes that the peer has sent and will send, until it closes.
unfoldable pub read_exact : ℕ → Bytes → Result IoError (Bytes × Bytes)
read_exact n s = if leb n (length s) then ok (take n s, drop n s) else err unexpected_eof

-- `payload_size *= 0x100; payload_size += header[i+4]`
pub size_field : ℕ → Bytes → ℕ
size_field acc [] = acc
size_field acc (b ∷ bs) = size_field (acc * 0x100 + b) bs

-- One packet's header and payload, as far as the loop reads them before it looks at the index.
pub record Frame : Type 0 where
  pub flags : ℕ
  pub compression : ℕ
  pub index : ℕ
  pub payload : Bytes

unfoldable pub frame : Bytes → Result IoError (Frame × Bytes)
unfolding read_exact size_field
frame s = do
  (header, s') ← read_exact 8 s
  guard (get_or header 0 0 == 0x50) (invalid_header_byte (get_or header 0 0))
  guard (ltb (get_or header 3 0) max_chunk_index) (invalid_chunk_index (get_or header 3 0))
  (payload, s'') ← read_exact (size_field 0 (drop 4 header)) s'
  ok (
    record {
      flags = get_or header 1 0;
      compression = get_or header 2 0;
      index = get_or header 3 0;
      payload = payload;
    },
    s'',
  )

module _ (lz4 : Bytes → Option Bytes) where
  pub decompress : ℕ → Bytes → Result IoError Bytes
  decompress compression payload =
      if bit_and compression lz4_flag == 0
      then err (unsupported_compression compression)
      else elim (lz4 payload) [ none ↦ err lz4_failed | some raw ↦ ok raw ]

  -- The main packet, which ends the loop.
  unfoldable pub main_packet : ℕ → ℕ → Bytes → Chunks → Result IoError RawPacket
  main_packet flags compression payload chunks = do
    guard (not (bit_and flags flags_yaml == 0)) (unsupported_encoding flags)
    raw ← (if compression == 0 then ok payload else decompress compression payload)
    ok (record { payload = raw; chunks = chunks })

  -- An out-of-band chunk. One that does not decompress is dropped.
  unfoldable pub chunk_packet : ℕ → ℕ → Bytes → ℕ → Chunks → Result IoError Chunks
  chunk_packet index compression payload received chunks = do
    guard (ltb received max_chunks) (too_many_chunks received)
    guard (not (contains_key chunks index)) (duplicate_chunk index)
    if compression == 0
        then ok ((index, payload) ∷ chunks)
        else elim (decompress compression payload) [
          | ok raw ↦ ok ((index, raw) ∷ chunks)
          | err e ↦ ok chunks
        ]

  -- `loop { ... }`: `fuel` rounds, of which `received` chunks have been counted so far.
  unfoldable pub read_loop : ℕ → ℕ → Chunks → Bytes → Option (Result IoError (RawPacket × Bytes))
  read_loop zero received chunks s = none
  read_loop (suc fuel) received chunks s = elim (frame s) [
    | err e ↦ some (err e)
    | ok (f, s') ↦ elim (f.index == 0) [
      | true ↦ some (do p ← main_packet f.flags f.compression f.payload chunks; ok (p, s'))
      | false ↦ elim (chunk_packet f.index f.compression f.payload (received + 1) chunks) [
        | err e ↦ some (err e)
        | ok chunks' ↦ read_loop fuel (received + 1) chunks' s'
      ]
    ]
  ]

  -- Each round counts a chunk or ends the loop, and the count stops below `max_chunks`.
  unfoldable pub read_packet : Bytes → Option (Result IoError (RawPacket × Bytes))
  read_packet s = read_loop max_chunks 0 [] s

-- `make_header`: the size in four bytes, most significant first
pub make_header : Bytes → Bytes
make_header payload =
    let len = length payload in
    0x50
    ∷ 0x4
    ∷ 0
    ∷ 0
    ∷ bit_and (len / 2 ^ 24) 0xff % 2 ^ 8
    ∷ bit_and (len / 2 ^ 16) 0xff % 2 ^ 8
    ∷ bit_and (len / 2 ^ 8) 0xff % 2 ^ 8
    ∷ bit_and (len / 2 ^ 0) 0xff % 2 ^ 8
    ∷ []

-- The bytes that `write_packet` hands to `write_all`.
pub write_packet : Bytes → Bytes
write_packet payload = make_header payload ++ payload
