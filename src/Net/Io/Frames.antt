-- ===== src/Net/Io/Frames.antt =====
-- The eight-byte header of io.rs, written and read back.
use rust_xpra.Prelude.Bits.{bit_and_byte}
use rust_xpra.Prelude.{
  ℕ, ◌+◌, ◌/◌, ◌%◌, ◌^◌, ◌<◌, ◌≡◌, refl, [], ◌∷◌, ◌++◌, ltb, arith, ◌-◌, tests, Bool-cases, inl,
  inr, length-take, take-add-append, Bytes, length, take, take-append, drop-append, length-append,
  ok, err, leb, length-drop, Ensures, Ensures-if, Ensures-ok, Ensures-err,
}
use rust_xpra.Net.Io.{
  Frame, frame, read_exact, size_field, make_header, write_packet, unexpected_eof,
}

-- A size in four bytes, most significant first.
abbrev pub size_bytes : ℕ → Bytes
size_bytes n = n / 2 ^ 24 % 256 ∷ n / 2 ^ 16 % 256 ∷ n / 2 ^ 8 % 256 ∷ n % 256 ∷ []

-- A packet as xpra frames it on the wire.
abbrev pub wire : Frame → Bytes
wire f = 0x50 ∷ f.flags ∷ f.compression ∷ f.index ∷ (size_bytes (length f.payload) ++ f.payload)

pub read_exact-append :
    (n : ℕ) (d rest : Bytes) → length d ≡ n → read_exact n (d ++ rest) ≡ ok (d, rest)
unfolding read_exact
read_exact-append n d rest e =
    rw (← e) (ground (arith, length-append d rest, take-append d rest, drop-append d rest))

-- A read that the stream cannot fill is an end of file.
pub read_exact_short : (n : ℕ) (s : Bytes) → length s < n → read_exact n s ≡ err unexpected_eof
unfolding read_exact
read_exact_short n s h = ground arith

size_field-size_bytes : (n : ℕ) → n < 2 ^ 32 → size_field 0 (size_bytes n) ≡ n
unfolding size_field
size_field-size_bytes n h = omega arith

abbrev head_of : Frame → Bytes
head_of f = 0x50 ∷ f.flags ∷ f.compression ∷ f.index ∷ size_bytes (length f.payload)

pub frame-wire :
    (f : Frame) (rest : Bytes)
    → f.index < 16
    → length f.payload < 2 ^ 32
    → frame (wire f ++ rest) ≡ ok (f, rest)
unfolding frame
frame-wire f rest i n =
    rw
      (
        read_exact-append 8 (head_of f) (f.payload ++ rest) refl,
        size_field-size_bytes (length f.payload) n,
        read_exact-append (length f.payload) f.payload rest refl,
      )
      (ground arith)

pub write_packet-wire :
    (d : Bytes)
    → write_packet d ≡ wire (record { flags = 4; compression = 0; index = 0; payload = d })
unfolding write_packet make_header
write_packet-wire d =
    rw
      (
        bit_and_byte (length d / 2 ^ 24),
        bit_and_byte (length d / 2 ^ 16),
        bit_and_byte (length d / 2 ^ 8),
        bit_and_byte (length d / 2 ^ 0),
      )
      (ground arith)

-- A stream that ends inside a frame is an end of file.
pub frame-take-wire :
    (f : Frame) (n : ℕ)
    → f.index < 16
    → length f.payload < 2 ^ 32
    → n < 8 + length f.payload
    → frame (take n (wire f)) ≡ err unexpected_eof
unfolding frame
frame-take-wire f n i l h = elim (Bool-cases (ltb n 8)) [
  | inl short ↦
      rw (read_exact_short 8 (take n (wire f)) (omega (tests, length-take n (wire f)))) refl
  | inr long ↦
      let split : n ≡ length (head_of f) + (n - 8) = ground arith in
      rw
        (
          split,
          take-add-append (head_of f) f.payload (n - 8),
          read_exact-append 8 (head_of f) (take (n - 8) f.payload) refl,
          size_field-size_bytes (length f.payload) l,
          read_exact_short (length f.payload) (take (n - 8) f.payload)
              (ground (arith, length-take (n - 8) f.payload)),
        )
        (ground arith)
]

pub read_exact-Ensures :
    (n : ℕ) (s : Bytes) → Ensures (λ r. length r.1 + n ≡ length s) (read_exact n s)
unfolding read_exact
read_exact-Ensures n s =
    Ensures-if (leb n (length s)) (λ e. Ensures-ok (ground (arith, e, length-drop n s)))
      (λ e. Ensures-err)
