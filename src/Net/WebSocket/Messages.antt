-- ===== src/Net/WebSocket/Messages.antt =====
-- Messages that the server sends in fragments, with pings and pongs in between.
use rust_xpra.Prelude.{
  ℕ, zero, suc, ◌+◌, ◌-◌, ◌^◌, ◌≤◌, ◌<◌, ◌≡◌, refl, sym, ap, ◌∙◌, Bool, true, false, not, ◌||◌,
  ◌&&◌, Option, none, some, List, [], ◌∷◌, ◌++◌, ◌==◌, arith, Bool-cases, inl, inr, append_assoc,
  append-nil, if◌then◌else◌, Bytes, length, length-append, Result, ok, err,
}
use rust_xpra.Net.Io.{IoError}
use rust_xpra.Net.WebSocket.{
  Frame, WebSocketError, WebSocketStream, again, return, masked_frame, read_frame, send_frame,
  handle, fill_loop, fill_buffer, opcode_ping, opcode_pong, opcode_continuation, opcode_text,
  opcode_binary, opcode_close, closed_by_peer,
}
use rust_xpra.Net.WebSocket.Wire.{wire, read_frame-wire}

abbrev pub is_data : ℕ → Bool
is_data op = (op == opcode_continuation) || ((op == opcode_text) || (op == opcode_binary))

-- A frame that does not end a message: a ping, a pong, or a fragment that is not the last.
abbrev pub is_part : Frame → Bool
is_part f =
    (f.opcode == opcode_ping) || ((f.opcode == opcode_pong) || (is_data f.opcode && not f.fin))

abbrev pub AreParts : List Frame → Type 0
AreParts [] = Unit
AreParts (f ∷ fs) = (is_part f ≡ true) × (length f.payload < 2 ^ 63) × AreParts fs

abbrev pub wires : List Frame → Bytes
wires [] = []
wires (f ∷ fs) = wire f ++ wires fs

-- What the frames bring of the message.
abbrev pub body : List Frame → Bytes
body [] = []
body (f ∷ fs) = (if is_data f.opcode then f.payload else []) ++ body fs

abbrev pub pings : List Frame → ℕ
pings [] = 0
pings (f ∷ fs) = (if f.opcode == opcode_ping then 1 else 0) + pings fs

length-wires : (fs : List Frame) (s : Bytes) → length fs ≤ length (wires fs ++ s)
length-wires [] s = omega arith
length-wires (f ∷ fs) s = omega (
  arith,
  ap (λ (t : Bytes). length t) (append_assoc (wire f) (wires fs) s),
  length-append (wire f) (wires fs ++ s),
  length-wires fs s,
)

opcode-lt : (f : Frame) → is_part f ≡ true → f.opcode < 16
opcode-lt f p = ground arith

module _ (random_bytes4 : ℕ → Bytes) where
  -- The answers to the pings: each echoes its ping's payload, under the next mask key.
  abbrev pub pongs : ℕ → List Frame → Bytes
  pongs n [] = []
  pongs n (f ∷ fs) =
      if f.opcode == opcode_ping
      then masked_frame opcode_pong f.payload (random_bytes4 n) ++ pongs (n + 1) fs
      else pongs n fs

  -- The connection after the frames `fs` have been taken off its stream.
  abbrev pub after : WebSocketStream → List Frame → Bytes → WebSocketStream
  after w fs rest = record w {
    stream = rest;
    written = w.written ++ pongs w.sent fs;
    sent = w.sent + pings fs;
  }

  same_state :
      (w : WebSocketStream) (rest x y : Bytes) (m n : ℕ)
      → x ≡ y
      → m ≡ n
      → Path WebSocketStream
          (record w { stream = rest; written = x; sent = m })
          (record w { stream = rest; written = y; sent = n })
  same_state w rest x y m n d e = rw (d, e) refl

  unchanged : (w : WebSocketStream) (rest : Bytes) → w.stream ≡ rest → w ≡ after w [] rest
  unchanged w rest here =
      let sent : w.sent ≡ w.sent + 0 = omega arith in rw (← here, append-nil w.written, ← sent) refl

module _ (random_bytes4 : ℕ → Bytes) (write_error : ℕ → Option IoError)
    (writes : (n : ℕ) → write_error n ≡ none) where
  handle_part :
      (f : Frame) (fs : List Frame) (message rest : Bytes) (w : WebSocketStream)
      → is_part f ≡ true
      → (w' : WebSocketStream) × (handle random_bytes4 write_error f message w
          ≡ again (message ++ (if is_data f.opcode then f.payload else [])) w')
        × (w'.stream ≡ w.stream)
        × (after random_bytes4 w (f ∷ fs) rest ≡ after random_bytes4 w' fs rest)
  unfolding handle send_frame
  handle_part f fs message rest w p = elim (Bool-cases (f.opcode == opcode_ping)) [
    | inl e ↦
        let plain : is_data f.opcode ≡ false = ground arith in
        (
          record w {
            written = w.written ++ masked_frame opcode_pong f.payload (random_bytes4 w.sent);
            sent = w.sent + 1;
          },
          rw (e, send_frame, writes w.sent, plain, append-nil message) refl,
          refl,
          rw e (
              same_state random_bytes4 w rest _ _ _ _
                (sym (
                  append_assoc w.written (masked_frame opcode_pong f.payload (random_bytes4 w.sent))
                    (pongs random_bytes4 (w.sent + 1) fs)))
                (omega arith)),
        )
    | inr e ↦ elim (Bool-cases (f.opcode == opcode_pong)) [
      | inl g ↦
          let plain : is_data f.opcode ≡ false = ground arith in
          (
            w,
            rw (e, g, plain, append-nil message) refl,
            refl,
            rw e (same_state random_bytes4 w rest _ _ _ _ refl (omega arith)),
          )
      | inr g ↦
          let fragment : is_data f.opcode ≡ true = ground arith in
          let open_end : f.fin ≡ false = ground arith in
          let not_close : (f.opcode == opcode_close) ≡ false = ground arith in
          (
            w,
            rw (e, g, not_close, fragment, open_end) refl,
            refl,
            rw e (same_state random_bytes4 w rest _ _ _ _ refl (omega arith)),
          )
    ]
  ]

  fill_loop-again :
      (fuel : ℕ) (message message' : Bytes) (w w' : WebSocketStream) (f : Frame) (s : Bytes)
      → read_frame w.stream ≡ ok (f, s)
      → handle random_bytes4 write_error f message (record w { stream = s }) ≡ again message' w'
      → fill_loop random_bytes4 write_error (suc fuel) message w
        ≡ fill_loop random_bytes4 write_error fuel message' w'
  unfolding fill_loop
  fill_loop-again fuel message message' w w' f s read handled = rw (read, fill_loop, handled) refl

  fill_loop-return :
      (fuel : ℕ) (message : Bytes) (w : WebSocketStream) (f : Frame) (s : Bytes)
      (r : Result WebSocketError WebSocketStream)
      → read_frame w.stream ≡ ok (f, s)
      → handle random_bytes4 write_error f message (record w { stream = s }) ≡ return r
      → fill_loop random_bytes4 write_error (suc fuel) message w ≡ some r
  unfolding fill_loop
  fill_loop-return fuel message w f s r read handled = rw (read, fill_loop, handled) refl

  fill_loop-parts :
      (fs : List Frame) (fuel : ℕ) (message rest : Bytes) (w : WebSocketStream)
      → AreParts fs
      → length fs ≤ fuel
      → w.stream ≡ wires fs ++ rest
      → fill_loop random_bytes4 write_error fuel message w
        ≡ fill_loop random_bytes4 write_error
            (fuel - length fs)
            (message ++ body fs)
            (after random_bytes4 w fs rest)
  fill_loop-parts [] fuel message rest w p enough here =
      let count : fuel - 0 ≡ fuel = omega arith in
      rw (append-nil message, count)
        (ap (λ (t : WebSocketStream). fill_loop random_bytes4 write_error fuel message t)
          (unchanged random_bytes4 w rest here))
  fill_loop-parts (f ∷ fs) zero message rest w p enough here = absurd (omega arith)
  fill_loop-parts (f ∷ fs) (suc fuel) message rest w p enough here =
      let w1 : WebSocketStream = record w { stream = wires fs ++ rest } in
      let (w', handled, kept, state) = handle_part f fs message rest w1 p.0 in
      let left : suc fuel - suc (length fs) ≡ fuel - length fs = omega arith in
      let read : read_frame w.stream ≡ ok (f, wires fs ++ rest) =
        rw (here, append_assoc (wire f) (wires fs) rest)
          (read_frame-wire f (wires fs ++ rest) (opcode-lt f p.0) p.1) in
      fill_loop-again fuel message (message ++ (if is_data f.opcode then f.payload else [])) w w' f
        (wires fs ++ rest) read handled
      ∙ fill_loop-parts fs fuel (message ++ (if is_data f.opcode then f.payload else [])) rest w'
          p.2 (omega arith) kept
      ∙ rw (left, ← append_assoc message (if is_data f.opcode then f.payload else []) (body fs))
          (ap
            (λ (t : WebSocketStream).
              fill_loop random_bytes4 write_error (fuel - length fs)
                (message ++ (if is_data f.opcode then f.payload else []) ++ body fs) t)
            (sym state))

  -- Where no write fails, a message that comes in fragments of less than 2^63 bytes, between pings and
  -- pongs of less than 2^63 bytes, is put together from its fragments in order, each ping before its
  -- end has been answered in order with its payload under the next mask key, and what follows the
  -- message is left alone.
  pub fill_buffer-message :
      (fs : List Frame) (last : Frame) (rest : Bytes) (w : WebSocketStream)
      → AreParts fs
      → is_data last.opcode ≡ true
      → last.fin ≡ true
      → length last.payload < 2 ^ 63
      → w.stream ≡ wires fs ++ (wire last ++ rest)
      → fill_buffer random_bytes4 write_error w
        ≡ some (
            ok (record (after random_bytes4 w fs rest) {
              read_buf = body fs ++ last.payload;
              read_pos = 0;
            }))
  unfolding fill_buffer handle
  fill_buffer-message fs last rest w parts carries final small here =
      let fuel = length w.stream + 1 in
      let enough : length fs < fuel =
        omega (arith, length-wires fs (wire last ++ rest), ap (λ (t : Bytes). length t) here) in
      let one_more : fuel - length fs ≡ suc (fuel - length fs - 1) = omega arith in
      let before : WebSocketStream = after random_bytes4 w fs (wire last ++ rest) in
      let not_ping : (last.opcode == opcode_ping) ≡ false = ground arith in
      let not_pong : (last.opcode == opcode_pong) ≡ false = ground arith in
      let not_close : (last.opcode == opcode_close) ≡ false = ground arith in
      fill_loop-parts fs fuel [] (wire last ++ rest) w parts (omega arith) here
      ∙ rw one_more (
          fill_loop-return (fuel - length fs - 1) (body fs) before last rest _
            (read_frame-wire last rest (ground arith) small)
            (rw (not_ping, not_pong, not_close, carries, final) refl))

  -- Where no write fails, a close frame ends the connection with an error, whatever part of a message
  -- came before it.
  pub fill_buffer-closed :
      (fs : List Frame) (last : Frame) (rest : Bytes) (w : WebSocketStream)
      → AreParts fs
      → last.opcode ≡ opcode_close
      → length last.payload < 2 ^ 63
      → w.stream ≡ wires fs ++ (wire last ++ rest)
      → fill_buffer random_bytes4 write_error w ≡ some (err closed_by_peer)
  unfolding fill_buffer handle
  fill_buffer-closed fs last rest w parts closing small here =
      let fuel = length w.stream + 1 in
      let enough : length fs < fuel =
        omega (arith, length-wires fs (wire last ++ rest), ap (λ (t : Bytes). length t) here) in
      let one_more : fuel - length fs ≡ suc (fuel - length fs - 1) = omega arith in
      let before : WebSocketStream = after random_bytes4 w fs (wire last ++ rest) in
      fill_loop-parts fs fuel [] (wire last ++ rest) w parts (omega arith) here
      ∙ rw one_more (
          fill_loop-return (fuel - length fs - 1) (body fs) before last rest _
            (read_frame-wire last rest (omega arith) small) (rw closing refl))
