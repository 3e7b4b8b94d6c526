-- ===== src/Net/WebSocket/Tests.antt =====
-- The theorems about the WebSocket at a concrete conversation.
use rust_xpra.Prelude.{
  ℕ, ◌≡◌, refl, true, false, Option, none, some, List, [], ◌∷◌, ◌++◌, Bytes, codes, arith, Result,
  ok, err,
}
use rust_xpra.Prelude.Endian.{from_be_bytes, from_be}
use rust_xpra.Net.Io.{IoError, read_exact}
use rust_xpra.Net.WebSocket.{
  Frame, WebSocketStream, WebSocketError, closed_by_peer, masked_frame, read_frame, fill_buffer,
  fill_loop, capacity_overflow, read_stream, read_length, read_mask_key, read, opcode_binary,
}
use rust_xpra.Net.WebSocket.Wire.{wire, read_frame-masked_frame}
use rust_xpra.Net.WebSocket.Messages.{wires, after, fill_buffer-message, fill_buffer-closed}
use rust_xpra.Net.WebSocket.Termination.{fill_loop_total}
use rust_xpra.Net.WebSocket.Reading.{unread, read_buffered, read_message}

abbrev key : Bytes
key = 1 ∷ 2 ∷ 3 ∷ 4 ∷ []

abbrev no_error : ℕ → Option IoError
no_error n = none

abbrev keys : ℕ → Bytes
keys n = key

read_frame-masked_frame_example :
    read_frame (masked_frame opcode_binary (codes "Pxpra") key ++ codes "rest")
    ≡ ok (record { fin = true; opcode = opcode_binary; payload = codes "Pxpra" }, codes "rest")
read_frame-masked_frame_example =
    read_frame-masked_frame opcode_binary (codes "Pxpra") key (codes "rest") (omega arith)
      (omega arith) refl

-- A fragment, a ping and the rest of the message, and the start of another frame.
abbrev first : List Frame
first =
    record { fin = false; opcode = 2; payload = codes "Px" }
    ∷ record { fin = true; opcode = 9; payload = codes "!" }
    ∷ []

abbrev last : Frame
last = record { fin = true; opcode = 0; payload = codes "pra" }

abbrev connection : WebSocketStream
connection = record {
  stream = wires first ++ (wire last ++ (130 ∷ []));
  written = [];
  sent = 0;
  read_buf = [];
  read_pos = 0;
}

fill_buffer-message_example :
    fill_buffer keys no_error connection
    ≡ some (
        ok (record (after keys connection first (130 ∷ [])) {
          read_buf = codes "Pxpra";
          read_pos = 0;
        }))
fill_buffer-message_example =
    fill_buffer-message keys no_error (λ n. refl) first last (130 ∷ []) connection
      (refl, omega arith, (refl, omega arith, tt)) refl refl (omega arith) refl

abbrev close : Frame
close = record { fin = true; opcode = 8; payload = [] }

fill_buffer-closed_case :
    fill_buffer keys no_error (record connection { stream = wires first ++ (wire close ++ []) })
    ≡ some (err closed_by_peer)
fill_buffer-closed_case =
    fill_buffer-closed keys no_error (λ n. refl) first close []
      (record connection { stream = wires first ++ (wire close ++ []) })
      (refl, omega arith, (refl, omega arith, tt)) refl (omega arith) refl

fill_loop_total_example :
    (r : Result WebSocketError WebSocketStream) × (fill_loop keys no_error 8 [] connection ≡ some r)
fill_loop_total_example = fill_loop_total keys no_error 8 [] connection (omega arith)

-- A frame that announces 2^63 bytes.
huge : read_frame (130 ∷ 127 ∷ 128 ∷ 0 ∷ 0 ∷ 0 ∷ 0 ∷ 0 ∷ 0 ∷ 0 ∷ []) ≡ err capacity_overflow
unfolding read_frame read_stream read_length read_mask_key read_exact from_be_bytes from_be
huge = refl

abbrev buffered : WebSocketStream
buffered = record connection { read_buf = codes "Pxpra"; read_pos = 1 }

buffered_case :
    (w' : WebSocketStream) × (read keys no_error 2 buffered ≡ some (ok (codes "xp", w')))
    × (unread w' ≡ codes "ra")
    × (w'.stream ≡ buffered.stream)
    × (w'.written ≡ [])
buffered_case = read_buffered keys no_error 2 buffered (omega arith)

abbrev nothing : Frame
nothing = record { fin = true; opcode = 2; payload = [] }

-- A message without bytes is read as nothing, which is how a stream ends.
read_message_case :
    (w' : WebSocketStream) × (read keys no_error 8
        (record connection { stream = wire nothing ++ codes "more" })
      ≡ some (ok ([], w')))
    × (unread w' ≡ [])
    × (w'.stream ≡ codes "more")
read_message_case =
    read_message keys no_error 8 [] nothing (codes "more")
      (record connection { stream = wire nothing ++ codes "more" }) (λ n. refl) (omega arith) tt
      refl refl (omega arith) refl
