-- ===== src/Net/WebSocket.antt =====
-- src/net/websocket.rs: the frames of RFC 6455 around the packet stream. The mask keys that
-- `random_bytes4` draws and the failures of `write_frame` are parameters, the stream is the list of the
-- bytes that the server sends, and what is written is collected in order. An allocation of less
-- than 2^63 bytes is taken to succeed. TLS and the clones for threads are not modelled.
pub mod Wire
pub mod Messages
pub mod Termination
pub mod Reading
mod Tests
use rust_xpra.Prelude.{
  ℕ, zero, suc, ◌+◌, ◌-◌, ◌*◌, ◌%◌, ◌^◌, min, bit_and, bit_or, bit_xor, Bool, true, false, not,
  ◌||◌, Option, none, some, List, [], ◌∷◌, ◌++◌, ◌==◌, leb, ltb, if◌then◌else◌, Bytes, length, take,
  drop, get_or, Result, ok, err, ◌>>=◌, ◌>>◌, guard,
}
use rust_xpra.Prelude.Endian.{to_be_bytes, from_be_bytes}
use rust_xpra.Net.Io.{IoError, read_exact}

abbrev pub opcode_continuation : ℕ
opcode_continuation = 0x0

abbrev pub opcode_text : ℕ
opcode_text = 0x1

abbrev pub opcode_binary : ℕ
opcode_binary = 0x2

abbrev pub opcode_close : ℕ
opcode_close = 0x8

abbrev pub opcode_ping : ℕ
opcode_ping = 0x9

abbrev pub opcode_pong : ℕ
opcode_pong = 0xa

pub data WebSocketError : Type 0 where
  io : IoError → WebSocketError
  closed_by_peer : WebSocketError
  unsupported_opcode : ℕ → WebSocketError
  -- No error of the source but the panic of `vec![0u8; len]` for more bytes than an allocation can have.
  capacity_overflow : WebSocketError

-- `sent` counts the frames sent, each of which has drawn a mask key.
pub record WebSocketStream : Type 0 where
  pub stream : Bytes
  pub written : Bytes
  pub sent : ℕ
  pub read_buf : Bytes
  pub read_pos : ℕ

pub record Frame : Type 0 where
  pub fin : Bool
  pub opcode : ℕ
  pub payload : Bytes

-- `*b ^= mask_key[i % 4]` for each byte from the `i`th on
pub mask : ℕ → Bytes → Bytes → Bytes
mask i key [] = []
mask i key (b ∷ bs) = bit_xor b (get_or key (i % 4) 0) ∷ mask (i + 1) key bs

pub length_bytes : ℕ → Bytes
length_bytes len =
    if leb len 125
    then bit_or 0x80 (len % 2 ^ 8) ∷ []
    else if leb len 0xffff
    then bit_or 0x80 126 ∷ to_be_bytes 2 (len % 2 ^ 16)
    else bit_or 0x80 127 ∷ to_be_bytes 8 (len % 2 ^ 64)

pub masked_frame : ℕ → Bytes → Bytes → Bytes
masked_frame opcode payload mask_key =
    bit_or 0x80 opcode ∷ (length_bytes (length payload) ++ (mask_key ++ mask 0 mask_key payload))

-- `self.stream.read_exact(..)?`
pub read_stream : ℕ → Bytes → Result WebSocketError (Bytes × Bytes)
read_stream n s = elim (read_exact n s) [ ok r ↦ ok r | err e ↦ err (io e) ]

pub read_length : ℕ → Bytes → Result WebSocketError (ℕ × Bytes)
read_length len s =
    if len == 126
    then (do (ext, s') ← read_stream 2 s; ok (from_be_bytes ext, s'))
    else if len == 127
    then (do (ext, s') ← read_stream 8 s; ok (from_be_bytes ext, s'))
    else ok (len, s)

pub read_mask_key : Bool → Bytes → Result WebSocketError (Option Bytes × Bytes)
read_mask_key true s = do (mk, s') ← read_stream 4 s; ok (some mk, s')
read_mask_key false s = ok (none, s)

pub unmask : Option Bytes → Bytes → Bytes
unmask none payload = payload
unmask (some mk) payload = mask 0 mk payload

-- The part of a round of `fill_buffer` that reads one frame.
pub read_frame : Bytes → Result WebSocketError (Frame × Bytes)
read_frame s = do
  (header, s1) ← read_stream 2 s
  let first = get_or header 0 0
  let second = get_or header 1 0
  (len, s2) ← read_length (bit_and second 0x7f) s1
  (mask_key, s3) ← read_mask_key (not (bit_and second 0x80 == 0)) s2
  guard (ltb len (2 ^ 63)) capacity_overflow
  (payload, s4) ← read_stream len s3
  ok (
    record {
      fin = not (bit_and first 0x80 == 0);
      opcode = bit_and first 0x0f;
      payload = unmask mask_key payload;
    },
    s4,
  )

-- `read` once the buffer has been filled
pub take_buffered : ℕ → WebSocketStream → Bytes × WebSocketStream
take_buffered size w =
    let available = drop w.read_pos w.read_buf in
    let n = min (length available) size in
    (take n available, record w { read_pos = w.read_pos + n })

pub filled :
    ℕ → Result WebSocketError WebSocketStream → Result WebSocketError (Bytes × WebSocketStream)
filled size (ok w) = ok (take_buffered size w)
filled size (err e) = err e

-- How a round ends: another one with the message so far, or `fill_buffer` returns.
pub data Round : Type 0 where
  again : Bytes → WebSocketStream → Round
  return : Result WebSocketError WebSocketStream → Round

abbrev after_pong : Bytes → Result WebSocketError WebSocketStream → Round
after_pong message (ok w) = again message w
after_pong message (err e) = return (err e)

-- The mask key of each frame that is sent, and the error, if there is one, of writing it.
module _ (random_bytes4 : ℕ → Bytes) (write_error : ℕ → Option IoError) where
  pub send_frame : ℕ → Bytes → WebSocketStream → Result WebSocketError WebSocketStream
  send_frame opcode payload w = elim (write_error w.sent) [
    | some e ↦ err (io e)
    | none ↦ ok (record w {
      written = w.written ++ masked_frame opcode payload (random_bytes4 w.sent);
      sent = w.sent + 1;
    })
  ]

  -- `match opcode { ... }`
  pub handle : Frame → Bytes → WebSocketStream → Round
  handle f message w =
      if f.opcode == opcode_ping
      then after_pong message (send_frame opcode_pong f.payload w)
      else if f.opcode == opcode_pong
      then again message w
      else if f.opcode == opcode_close
      then return (err closed_by_peer)
      else if (f.opcode == opcode_continuation)
          || ((f.opcode == opcode_text) || (f.opcode == opcode_binary))
      then (if f.fin
          then return (ok (record w { read_buf = message ++ f.payload; read_pos = 0 }))
          else again (message ++ f.payload) w)
      else return (err (unsupported_opcode f.opcode))

  pub fill_loop : ℕ → Bytes → WebSocketStream → Option (Result WebSocketError WebSocketStream)
  fill_loop zero message w = none
  fill_loop (suc fuel) message w = elim (read_frame w.stream) [
    | err e ↦ some (err e)
    | ok (f, s) ↦ elim (handle f message (record w { stream = s })) [
      | again message' w' ↦ fill_loop fuel message' w'
      | return r ↦ some r
    ]
  ]

  -- A frame has at least two bytes, so that there are fewer rounds than bytes.
  pub fill_buffer : WebSocketStream → Option (Result WebSocketError WebSocketStream)
  fill_buffer w = fill_loop (length w.stream + 1) [] w

  -- Into a buffer of `size` bytes.
  pub read : ℕ → WebSocketStream → Option (Result WebSocketError (Bytes × WebSocketStream))
  read size w = elim (leb (length w.read_buf) w.read_pos) [
    | true ↦ elim (fill_buffer w) [ none ↦ none | some r ↦ some (filled size r) ]
    | false ↦ some (ok (take_buffered size w))
  ]

  pub write : Bytes → WebSocketStream → Result WebSocketError WebSocketStream
  write buf w = send_frame opcode_binary buf w
