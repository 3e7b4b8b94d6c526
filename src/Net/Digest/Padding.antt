-- ===== src/Net/Digest/Padding.antt =====
-- What the digests append to a message, and how much a digest is.
use rust_xpra.Prelude.{
  ℕ, zero, suc, ◌+◌, ◌-◌, ◌*◌, ◌%◌, ◌^◌, ◌≤◌, ◌<◌, ◌≡◌, refl, sym, ap, ◌∙◌, inl, inr, Bool-cases,
  ◌==◌, ==_iff, [], ◌∷◌, ◌++◌, append_assoc, append-nil, Bytes, length, replicate, arith,
  length-append, length-replicate,
}
use rust_xpra.Prelude.Endian.{
  to_be_bytes, from_be_bytes, length-to_be_bytes, from_be_bytes-to_be_bytes,
}
use rust_xpra.Net.Digest.{push_zeros, pad}

-- How many zeros bring `n` bytes to 56 in a block.
unfoldable pub gap : ℕ → ℕ
gap n = (120 - n % 64) % 64

-- The loop that pads, with at least as many rounds as zeros are missing, appends the fewest zeros that
-- bring the length to 56 bytes in a block of 64.
pub push_zeros_lem :
    (fuel : ℕ) (msg : Bytes)
    → gap (length msg) ≤ fuel
    → push_zeros fuel msg ≡ msg ++ replicate (gap (length msg)) 0
unfolding push_zeros gap
push_zeros_lem zero msg h =
    let g : gap (length msg) ≡ 0 = omega arith in rw g (sym (append-nil msg))
push_zeros_lem (suc fuel) msg h = elim (Bool-cases (length msg % 64 == 56)) [
  | inl e ↦
      let e' = (==_iff (length msg % 64) 56).0 e in
      let g : gap (length msg) ≡ 0 = omega arith in rw (e, g) (sym (append-nil msg))
  | inr e ↦
      let l : length (msg ++ (0 ∷ [])) ≡ suc (length msg) =
        omega (arith, length-append msg (0 ∷ [])) in
      let n : ¬ (length msg % 64 ≡ 56) = λ u. cc (e, (==_iff (length msg % 64) 56).1 u) in
      let g : gap (length msg) ≡ suc (gap (suc (length msg))) = omega arith in
      rw e (
        push_zeros_lem fuel (msg ++ (0 ∷ [])) (rw l (omega arith))
        ∙ append_assoc msg (0 ∷ []) (replicate (gap (length (msg ++ (0 ∷ [])))) 0)
        ∙ rw (l, g) refl)
]

gap_lt : (n : ℕ) → gap n ≤ 64
unfolding gap
gap_lt n = omega arith

-- The message with the bit and the zeros.
with_zeros : Bytes → Bytes
with_zeros message = message ++ (0x80 ∷ replicate (gap (suc (length message))) 0)

length_field : Bytes → Bytes
length_field message = to_be_bytes 8 (length message * 8 % 2 ^ 64)

pad_lem : (message : Bytes) → pad message ≡ with_zeros message ++ length_field message
unfolding pad with_zeros length_field
pad_lem message =
    let l : length (message ++ (0x80 ∷ [])) ≡ suc (length message) =
      omega (arith, length-append message (0x80 ∷ [])) in
    ap (λ t. t ++ to_be_bytes 8 (length message * 8 % 2 ^ 64))
      (push_zeros_lem 64 (message ++ (0x80 ∷ [])) (gap_lt (length (message ++ (0x80 ∷ []))))
        ∙ append_assoc message (0x80 ∷ []) (replicate (gap (length (message ++ (0x80 ∷ [])))) 0)
        ∙ rw l refl)

length-with_zeros :
    (message : Bytes)
    → length (with_zeros message) ≡ length message + 1 + gap (suc (length message))
unfolding with_zeros
length-with_zeros message = omega (
  arith,
  length-append message (0x80 ∷ replicate (gap (suc (length message))) 0),
  length-replicate {A = ℕ} (gap (suc (length message))) 0,
)

length-pad : (message : Bytes) → length (pad message) ≡ length (with_zeros message) + 8
unfolding length_field
length-pad message = rw (pad_lem message) (
    omega (
      arith,
      length-append (with_zeros message) (length_field message),
      length-to_be_bytes 8 (length message * 8 % 2 ^ 64),
    ))

-- A padded message is a whole number of blocks, so the loop over its blocks reads all of it.
pub pad_whole : (message : Bytes) → length (pad message) % 64 ≡ 0
unfolding gap
pad_whole message = omega (arith, length-pad message, length-with_zeros message)

-- `p` is the padding of `message` that FIPS 180-4 asks for: behind the message one bit and the fewest
-- zeros that leave room for the length in bits, as a big-endian number of eight bytes, at the end of a
-- block of 64.
pub record IsPadded (message p : Bytes) : Type 0 where
  pub zeros : ℕ
  pub size : Bytes
  pub layout : p ≡ message ++ (0x80 ∷ (replicate zeros 0 ++ size))
  pub size_width : length size ≡ 8
  pub size_value : from_be_bytes size ≡ length message * 8
  pub whole : length p % 64 ≡ 0
  pub fewest : zeros < 64

-- A message of less than 2^61 bytes is padded as FIPS 180-4 asks: behind it come the byte 0x80, the
-- fewest zeros, and its length in bits as a big-endian number of eight bytes, which ends a block of 64
-- bytes.
pub pad-IsPadded : (message : Bytes) → length message < 2 ^ 61 → IsPadded message (pad message)
unfolding length_field with_zeros gap
pad-IsPadded message small = record {
  zeros = gap (suc (length message));
  size = length_field message;
  layout =
      pad_lem message
      ∙ append_assoc message (0x80 ∷ replicate (gap (suc (length message))) 0)
          (length_field message);
  size_width = length-to_be_bytes 8 (length message * 8 % 2 ^ 64);
  size_value =
      from_be_bytes-to_be_bytes 8 (length message * 8 % 2 ^ 64) (omega arith)
      ∙ fits (length message * 8) (omega arith);
  whole = pad_whole message;
  fewest = gap_small (suc (length message));
}
  where
    fits : (n : ℕ) → n < 2 ^ 64 → n % 2 ^ 64 ≡ n
    fits n h = omega arith

    gap_small : (n : ℕ) → gap n < 64
    gap_small n = omega arith
