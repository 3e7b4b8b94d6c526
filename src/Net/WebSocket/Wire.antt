-- ===== src/Net/WebSocket/Wire.antt =====
-- One WebSocket frame on the wire: what the client writes and what the server sends, read back.
use rust_xpra.Prelude.{
  ℕ, suc, ◌+◌, ◌%◌, ◌^◌, ◌<◌, ◌≡◌, refl, ap, ◌∙◌, bit_and, Bool, true, false, not, [], ◌∷◌, ◌++◌,
  ◌==◌, leb, ltb, lt→ltb, arith, Bool-cases, inl, inr, append_assoc, if◌then◌else◌, Bytes, length,
  get_or, ok,
}
use rust_xpra.Prelude.Bits.{xor_cancel, bit_and_seven_bits, bit_and_nibble, bit_and_top, bit_or_top}
use rust_xpra.Prelude.Endian.{to_be_bytes, length-to_be_bytes, from_be_bytes-to_be_bytes}
use rust_xpra.Net.Io.Frames.{read_exact-append}
use rust_xpra.Net.WebSocket.{
  Frame, mask, length_bytes, masked_frame, read_stream, read_length, read_mask_key, unmask,
  read_frame,
}

-- A mask that is applied twice is undone.
pub mask-mask : (i : ℕ) (key bs : Bytes) → mask i key (mask i key bs) ≡ bs
unfolding mask
mask-mask i key [] = refl
mask-mask i key (b ∷ bs) = rw (xor_cancel b (get_or key (i % 4) 0), mask-mask (i + 1) key bs) refl

pub length-mask : (i : ℕ) (key bs : Bytes) → length (mask i key bs) ≡ length bs
unfolding mask
length-mask i key [] = refl
length-mask i key (b ∷ bs) = ap suc (length-mask (i + 1) key bs)

pub read_stream-append :
    (n : ℕ) (d rest : Bytes) → length d ≡ n → read_stream n (d ++ rest) ≡ ok (d, rest)
unfolding read_stream
read_stream-append n d rest e = rw (read_exact-append n d rest e, read_stream) refl

-- The length of a payload in a header: its part of the second byte, and the bytes behind that.
abbrev pub second_of : ℕ → ℕ
second_of len = if leb len 125 then len else if leb len 0xffff then 126 else 127

abbrev pub rest_of : ℕ → Bytes
rest_of len =
    if leb len 125 then [] else if leb len 0xffff then to_be_bytes 2 len else to_be_bytes 8 len

length_bytes_lem : (len : ℕ) → len < 2 ^ 64 → length_bytes len ≡ (128 + second_of len) ∷ rest_of len
unfolding length_bytes
length_bytes_lem len h = elim (Bool-cases (leb len 125)) [
  | inl e ↦
      let small : len % 2 ^ 8 ≡ len = ground arith in
      rw (e, small, bit_or_top len (ground arith)) refl
  | inr e ↦ elim (Bool-cases (leb len 0xffff)) [
    | inl f ↦ let small : len % 2 ^ 16 ≡ len = ground arith in rw (e, f, small) refl
    | inr f ↦ let small : len % 2 ^ 64 ≡ len = omega arith in rw (e, f, small) refl
  ]
]

second_of-lt : (len : ℕ) → second_of len < 128
second_of-lt len = ground arith

read_length-rest_of :
    (len : ℕ) (rest : Bytes)
    → len < 2 ^ 64
    → read_length (second_of len) (rest_of len ++ rest) ≡ ok (len, rest)
unfolding read_length
read_length-rest_of len rest h = elim (Bool-cases (leb len 125)) [
  | inl e ↦
      let short : (len == 126) ≡ false = ground arith in
      let shorter : (len == 127) ≡ false = ground arith in rw (e, short, shorter) refl
  | inr e ↦ elim (Bool-cases (leb len 0xffff)) [
    | inl f ↦
        rw
          (
            e,
            f,
            read_stream-append 2 (to_be_bytes 2 len) rest (length-to_be_bytes 2 len),
            from_be_bytes-to_be_bytes 2 len (ground arith),
          )
          refl
    | inr f ↦
        rw
          (
            e,
            f,
            read_stream-append 8 (to_be_bytes 8 len) rest (length-to_be_bytes 8 len),
            from_be_bytes-to_be_bytes 8 len (ground arith),
          )
          refl
  ]
]

-- What follows the two header bytes of a frame, with its mask key or without.
module _ (first len : ℕ) (body rest : Bytes) (small : len < 2 ^ 63) (long : length body ≡ len) where
  abbrev flagged : Bool
  flagged = not (bit_and first 0x80 == 0)

  read_frame_plain :
      read_frame (first ∷ second_of len ∷ (rest_of len ++ (body ++ rest)))
      ≡ ok (record { fin = flagged; opcode = bit_and first 0x0f; payload = body }, rest)
  unfolding read_frame read_mask_key unmask
  read_frame_plain =
      let fits : ltb len (2 ^ 63) ≡ true = lt→ltb _ _ small in
      let low : bit_and (second_of len) 0x7f ≡ second_of len =
        omega (arith, bit_and_seven_bits (second_of len), second_of-lt len) in
      let unmasked : bit_and (second_of len) 0x80 ≡ 0 =
        omega (
          arith,
          bit_and_top (second_of len) (omega (arith, second_of-lt len)),
          second_of-lt len,
        ) in
      rw
        (
          read_stream-append 2 (first ∷ second_of len ∷ []) (rest_of len ++ (body ++ rest)) refl,
          low,
          unmasked,
          read_length-rest_of len (body ++ rest) (omega arith),
          fits,
          read_stream-append len body rest long,
        )
        refl

  read_frame_masked :
      (key : Bytes)
      → length key ≡ 4
      → read_frame (first ∷ (128 + second_of len) ∷ (rest_of len ++ (key ++ (body ++ rest))))
        ≡ ok
            (record { fin = flagged; opcode = bit_and first 0x0f; payload = mask 0 key body }, rest)
  unfolding read_frame read_mask_key unmask
  read_frame_masked key four =
      let fits : ltb len (2 ^ 63) ≡ true = lt→ltb _ _ small in
      let below = second_of-lt len in
      let low : bit_and (128 + second_of len) 0x7f ≡ second_of len =
        omega (arith, bit_and_seven_bits (128 + second_of len), below) in
      let masked : bit_and (128 + second_of len) 0x80 ≡ 128 =
        omega (arith, bit_and_top (128 + second_of len) (omega (arith, below)), below) in
      rw
        (
          read_stream-append 2 (first ∷ (128 + second_of len) ∷ [])
              (rest_of len ++ (key ++ (body ++ rest))) refl,
          low,
          masked,
          read_length-rest_of len (key ++ (body ++ rest)) (omega arith),
          read_stream-append 4 key (body ++ rest) four,
          fits,
          read_stream-append len body rest long,
        )
        refl

-- A frame as a server sends it, without a mask.
abbrev pub top_bit : Bool → ℕ
top_bit b = if b then 128 else 0

abbrev pub wire : Frame → Bytes
wire f =
    (top_bit f.fin + f.opcode)
    ∷ second_of (length f.payload)
    ∷ (rest_of (length f.payload) ++ f.payload)

flag_read : (b : Bool) (n : ℕ) → n < 16 → not (bit_and (top_bit b + n) 0x80 == 0) ≡ b
flag_read true n h = ground (arith, bit_and_top (128 + n) (omega arith))
flag_read false n h = ground (arith, bit_and_top n (omega arith))

opcode_read : (b : Bool) (n : ℕ) → n < 16 → bit_and (top_bit b + n) 0x0f ≡ n
opcode_read true n h = omega (arith, bit_and_nibble (128 + n))
opcode_read false n h = omega (arith, bit_and_nibble (top_bit false + n))

pub read_frame-wire :
    (f : Frame) (rest : Bytes)
    → f.opcode < 16
    → length f.payload < 2 ^ 63
    → read_frame (wire f ++ rest) ≡ ok (f, rest)
read_frame-wire f rest op small = rw (append_assoc (rest_of (length f.payload)) f.payload rest) (
    read_frame_plain (top_bit f.fin + f.opcode) (length f.payload) f.payload rest small refl
    ∙ rw (flag_read f.fin f.opcode op, opcode_read f.fin f.opcode op) refl)

-- A frame of less than 2^63 bytes that the client writes is read back by the rules of fill_buffer as
-- one that is final, with its opcode of four bits and its payload, whatever its mask key of four
-- bytes, and what follows it is left alone.
pub read_frame-masked_frame :
    (opcode : ℕ) (payload key rest : Bytes)
    → opcode < 16
    → length payload < 2 ^ 63
    → length key ≡ 4
    → read_frame (masked_frame opcode payload key ++ rest)
      ≡ ok (record { fin = true; opcode = opcode; payload = payload }, rest)
unfolding masked_frame
read_frame-masked_frame opcode payload key rest op small four =
    rw
      (
        bit_or_top opcode (omega arith),
        length_bytes_lem (length payload) (omega arith),
        append_assoc (rest_of (length payload)) (key ++ mask 0 key payload) rest,
        append_assoc key (mask 0 key payload) rest,
      )
      (read_frame_masked (128 + opcode) (length payload) (mask 0 key payload) rest small
          (length-mask 0 key payload) key four
        ∙ rw (flag_read true opcode op, opcode_read true opcode op, mask-mask 0 key payload) refl)
