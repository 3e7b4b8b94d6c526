-- ===== src/Net/WebSocket/Termination.antt =====
-- The loop of `fill_buffer`, whatever the server sends.
use rust_xpra.Prelude.{
  ℕ, zero, suc, ◌+◌, ◌≤◌, ◌<◌, ◌*◌, ◌^◌, ltb, ◌≡◌, refl, ap, Bool, true, false, not, Option,
  Option-cases, some, ◌==◌, arith, inl, inr, ◌⊎◌, Bytes, bit_and, get_or, length, Result, err,
  Result-cases, Ensures, Ensures-ok, Ensures-if, Ensures-bind, Ensures-guard, Ensures-err,
}
use rust_xpra.Net.Io.{IoError, read_exact}
use rust_xpra.Net.Io.Frames.{read_exact-Ensures}
use rust_xpra.Net.WebSocket.{
  Frame, WebSocketError, WebSocketStream, Round, again, return, read_stream, read_length,
  read_mask_key, read_frame, send_frame, handle, fill_loop, capacity_overflow,
}

-- What is left of the stream after a read.
read_stream-Ensures :
    (n : ℕ) (s : Bytes) → Ensures (λ r. length r.1 + n ≡ length s) (read_stream n s)
unfolding read_stream
read_stream-Ensures n s = elim (Result-cases (read_exact n s)) [
  | inl (r, e) ↦ rw (e, read_stream) (Ensures-ok ((read_exact-Ensures n s).at r e))
  | inr (e, f) ↦ rw (f, read_stream) Ensures-err
]

read_length-Ensures :
    (len : ℕ) (s : Bytes) → Ensures (λ r. length r.1 ≤ length s) (read_length len s)
unfolding read_length
read_length-Ensures len s =
    Ensures-if (len == 126)
      (λ e.
        Ensures-bind (read_stream 2 s)
          λ r h. Ensures-ok (omega (arith, (read_stream-Ensures 2 s).at r h)))
      (λ e.
        Ensures-if (len == 127)
          (λ f.
            Ensures-bind (read_stream 8 s)
              λ r h. Ensures-ok (omega (arith, (read_stream-Ensures 8 s).at r h)))
          (λ f. Ensures-ok (omega arith)))

read_mask_key-Ensures :
    (masked : Bool) (s : Bytes) → Ensures (λ r. length r.1 ≤ length s) (read_mask_key masked s)
unfolding read_mask_key
read_mask_key-Ensures true s =
    Ensures-bind (read_stream 4 s)
      λ r h. Ensures-ok (omega (arith, (read_stream-Ensures 4 s).at r h))
read_mask_key-Ensures false s = Ensures-ok (omega arith)

read_frame-Ensures : (s : Bytes) → Ensures (λ r. length r.1 + 2 ≤ length s) (read_frame s)
unfolding read_frame
read_frame-Ensures s = Ensures-bind (read_stream 2 s) λ (header, s1) h1.
    let second = get_or header 1 0 in
    Ensures-bind (read_length (bit_and second 0x7f) s1) λ (len, s2) h2.
      Ensures-bind (read_mask_key (not (bit_and second 0x80 == 0)) s2) λ (key, s3) h3.
        Ensures-guard (ltb len (2 ^ 63)) capacity_overflow λ _.
          Ensures-bind (read_stream len s3) λ (payload, s4) h4. Ensures-ok (
            omega (
              arith,
              (read_stream-Ensures 2 s).at (header, s1) h1,
              (read_length-Ensures (bit_and second 0x7f) s1).at (len, s2) h2,
              (read_mask_key-Ensures (not (bit_and second 0x80 == 0)) s2).at (key, s3) h3,
              (read_stream-Ensures len s3).at (payload, s4) h4,
            ))

Round-cases :
    (r : Round)
    → ((m : Bytes) × (w : WebSocketStream) × (r ≡ again m w))
      ⊎ ((x : Result WebSocketError WebSocketStream) × (r ≡ return x))
Round-cases (again m w) = inl (m, w, refl)
Round-cases (return x) = inr (x, refl)

module _ (random_bytes4 : ℕ → Bytes) (write_error : ℕ → Option IoError) where
  -- A round that goes on leaves the stream as the frame left it.
  handle_stream :
      (f : Frame) (message message' : Bytes) (w w' : WebSocketStream)
      → handle random_bytes4 write_error f message w ≡ again message' w'
      → w'.stream ≡ w.stream
  unfolding handle send_frame
  handle_stream f message message' w w' h = elim (Option-cases (write_error w.sent)) [
    | inl e ↦ ground (arith, h, e)
    | inr (x, e) ↦ ground (arith, h, e)
  ]

  -- Whatever the server sends, wherever its stream ends and whatever writes fail, the loop of fill_buffer
  -- ends, with a message, an error or the panic of a payload too large to allocate, within any number of
  -- rounds that is more than half of the number of bytes of the stream.
  pub fill_loop_total :
      (fuel : ℕ) (message : Bytes) (w : WebSocketStream)
      → length w.stream < 2 * fuel
      → (r : Result WebSocketError WebSocketStream) × (fill_loop random_bytes4 write_error fuel
            message w
          ≡ some r)
  unfolding fill_loop
  fill_loop_total zero message w h = absurd (omega arith)
  fill_loop_total (suc fuel) message w h = elim (Result-cases (read_frame w.stream)) [
    | inr (e, read) ↦ (err e, rw (read, fill_loop) refl)
    | inl ((f, s), read) ↦
        elim (Round-cases (handle random_bytes4 write_error f message (record w { stream = s }))) [
          | inl (m', w', handled) ↦
              let shorter = (read_frame-Ensures w.stream).at (f, s) read in
              let kept = handle_stream f message m' (record w { stream = s }) w' handled in
              let (r, e) =
                fill_loop_total fuel m' w'
                  (omega (arith, shorter, ap (λ (t : Bytes). length t) kept)) in
              (r, rw (read, fill_loop, handled) e)
          | inr (r, handled) ↦ (r, rw (read, fill_loop, handled) refl)
        ]
  ]
