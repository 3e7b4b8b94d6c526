-- ===== src/Net/WebSocket/Reading.antt =====
-- The packet stream that `read` gives, out of the messages that `fill_buffer` puts together.
use rust_xpra.Prelude.{
  ℕ, ◌^◌, ◌≤◌, ◌<◌, min, ◌≡◌, refl, ap, true, false, Option, none, some, List, ◌++◌, leb, le→leb,
  arith, Bool-cases, inl, inr, Bytes, length, take, drop, ok,
}
use rust_xpra.Prelude.Slices.{drop-drop, take_all, drop_all}
use rust_xpra.Net.Io.{IoError}
use rust_xpra.Net.WebSocket.{Frame, WebSocketStream, take_buffered, filled, read}
use rust_xpra.Net.WebSocket.Wire.{wire}
use rust_xpra.Net.WebSocket.Messages.{AreParts, is_data, wires, body, after, fill_buffer-message}

-- What of the last message has not been read yet.
abbrev pub unread : WebSocketStream → Bytes
unread w = drop w.read_pos w.read_buf

take-min : (xs : Bytes) (n : ℕ) → take (min (length xs) n) xs ≡ take n xs
take-min xs n = elim (Bool-cases (leb n (length xs))) [
  | inl e ↦ let least : min (length xs) n ≡ n = ground arith in rw least refl
  | inr e ↦
      let least : min (length xs) n ≡ length xs = ground arith in
      rw (least, take_all (length xs) xs (omega arith), take_all n xs (ground arith)) refl
]

drop-min : (xs : Bytes) (n : ℕ) → drop (min (length xs) n) xs ≡ drop n xs
drop-min xs n = elim (Bool-cases (leb n (length xs))) [
  | inl e ↦ let least : min (length xs) n ≡ n = ground arith in rw least refl
  | inr e ↦
      let least : min (length xs) n ≡ length xs = ground arith in
      rw (least, drop_all (length xs) xs (omega arith), drop_all n xs (ground arith)) refl
]

take_buffered_lem :
    (size : ℕ) (w : WebSocketStream)
    → ((take_buffered size w).0 ≡ take size (unread w))
      × (unread ((take_buffered size w).1) ≡ drop size (unread w))
unfolding take_buffered
take_buffered_lem size w = (
  take-min (unread w) size,
  rw (← drop-drop (min (length (unread w)) size) w.read_pos w.read_buf) (drop-min (unread w) size),
)

module _ (random_bytes4 : ℕ → Bytes) (write_error : ℕ → Option IoError) where
  -- While some of the last message is unread, `read` gives the next bytes of it and touches nothing
  -- but its place.
  pub read_buffered :
      (size : ℕ) (w : WebSocketStream)
      → w.read_pos < length w.read_buf
      → (w' : WebSocketStream) × (read random_bytes4 write_error size w
          ≡ some (ok (take size (unread w), w')))
        × (unread w' ≡ drop size (unread w))
        × (w'.stream ≡ w.stream)
        × (w'.written ≡ w.written)
  unfolding read take_buffered
  read_buffered size w h =
      let left : leb (length w.read_buf) w.read_pos ≡ false = ground arith in
      let (given, kept) = take_buffered_lem size w in
      (
        (take_buffered size w).1,
        rw (left, read) (ap (λ t. some (ok (t, (take_buffered size w).1))) given),
        kept,
        refl,
        refl,
      )

  -- Once it has all been read, and where no write fails, `read` gives the first bytes of the next message, or none where that
  -- message is empty.
  pub read_message :
      (size : ℕ) (fs : List Frame) (last : Frame) (rest : Bytes) (w : WebSocketStream)
      → ((n : ℕ) → write_error n ≡ none)
      → length w.read_buf ≤ w.read_pos
      → AreParts fs
      → is_data last.opcode ≡ true
      → last.fin ≡ true
      → length last.payload < 2 ^ 63
      → w.stream ≡ wires fs ++ (wire last ++ rest)
      → (w' : WebSocketStream) × (read random_bytes4 write_error size w
          ≡ some (ok (take size (body fs ++ last.payload), w')))
        × (unread w' ≡ drop size (body fs ++ last.payload))
        × (w'.stream ≡ rest)
  unfolding read filled take_buffered
  read_message size fs last rest w writes over parts carries final small here =
      let none_left : leb (length w.read_buf) w.read_pos ≡ true = le→leb _ _ over in
      let next : WebSocketStream = record (after random_bytes4 w fs rest) {
        read_buf = body fs ++ last.payload;
        read_pos = 0;
      } in
      let (given, kept) = take_buffered_lem size next in
      (
        (take_buffered size next).1,
        rw
            (
              none_left,
              read,
              fill_buffer-message random_bytes4 write_error writes fs last rest w parts carries
                  final small here,
              filled,
            )
            (ap (λ t. some (ok (t, (take_buffered size next).1))) given),
        kept,
        refl,
      )
