-- ===== src/Client/Mmap/Tokens.antt =====
-- Tokens that mmap.rs writes into the area, and reads back.
use native.Mathlib.Nat.{mod-lt, pow-suc}
use rust_xpra.Prelude.Bits.{or_disjoint}
use rust_xpra.Prelude.{
  ℕ, zero, suc, ◌+◌, ◌-◌, ◌*◌, ◌/◌, ◌%◌, ◌^◌, ◌≤◌, ◌<◌, ◌≡◌, refl, ap, ◌∙◌, false, some, List, [],
  ◌∷◌, arith, leb→le, leb, ltb, ◌==◌, ◌||◌, Bool-cases, inl, inr, Bytes, length, get_or, take, drop,
}
use rust_xpra.Client.Mmap.{
  MmapArea, write_bytes, write_token, read_bytes, read_token, gen_token, release, header_size,
  token_bytes,
}
use rust_xpra.Client.Mmap.Written.{
  length-write_bytes, drop-write_bytes, take-write_bytes, AreDigits, write_bytes-AreDigits,
}

rows_mono : (a b s : ℕ) → a ≤ b → a * s ≤ b * s
rows_mono a b s h = grind arith

doubled8 : (n : ℕ) → 2 ^ suc (suc (suc (suc (suc (suc (suc (suc n))))))) ≡ 2 ^ n * 256
doubled8 n =
    let twice : (k : ℕ) → 2 ^ suc k ≡ 2 ^ k * 2 = λ k. omega (arith, pow-suc 2 k) in
    omega (
      arith,
      twice n,
      twice (suc n),
      twice (suc (suc n)),
      twice (suc (suc (suc n))),
      twice (suc (suc (suc (suc n)))),
      twice (suc (suc (suc (suc (suc n))))),
      twice (suc (suc (suc (suc (suc (suc n)))))),
      twice (suc (suc (suc (suc (suc (suc (suc n))))))),
    )

power_step : (i : ℕ) → 2 ^ (8 * (i + 1)) ≡ 2 ^ (8 * i) * 256
power_step i =
    let e : 8 * (i + 1) ≡ suc (suc (suc (suc (suc (suc (suc (suc (8 * i)))))))) = omega arith in
    ap (λ (t : ℕ). 2 ^ t) e ∙ doubled8 (8 * i)

-- What one more byte adds.
digit_step :
    (p token value : ℕ) → token + value % 256 * p + value / 256 * (p * 256) ≡ token + value * p
digit_step p token value =
    let e : value ≡ value % 256 + 256 * (value / 256) = omega arith in
    grind (arith, ap (λ (t : ℕ). t * p) e)

digit_below : (p token value : ℕ) → token < p → token + value % 256 * p < p * 256
digit_below p token value h =
    let e : value % 256 ≤ 255 = omega arith in grind (arith, rows_mono (value % 256) 255 p e)

next_bound : (i value : ℕ) → i < 16 → value < 256 ^ (16 - i) → value / 256 < 256 ^ (16 - (i + 1))
next_bound i value h w =
    let e : 16 - i ≡ suc (16 - (i + 1)) = omega arith in
    omega (arith, w, ap (λ (t : ℕ). 256 ^ t) e, pow-suc 256 (16 - (i + 1)))

no_more : (i value : ℕ) → 16 ≤ i → value < 256 ^ (16 - i) → value ≡ 0
no_more i value h w =
    let e : 16 - i ≡ 0 = omega arith in omega (arith, w, ap (λ (t : ℕ). 256 ^ t) e)

-- Digits are read back as the value that they are of, above what has been read already.
read_bytes-AreDigits :
    (left i at token value : ℕ) (area : Bytes)
    → AreDigits area at left value
    → token < 2 ^ (8 * i)
    → value < 256 ^ left
    → value < 256 ^ (16 - i)
    → read_bytes left i at token area ≡ some (token + value * 2 ^ (8 * i))
unfolding read_bytes
read_bytes-AreDigits zero i at token value area d t v w =
    let e : value ≡ 0 = omega arith in rw e (ap some (omega arith))
read_bytes-AreDigits (suc left) i at token value area d t v w = elim (Bool-cases (leb 16 i)) [
  | inl e ↦
      let none_left : value ≡ 0 = no_more i value (leb→le _ _ e) w in
      let byte : get_or area at 0 ≡ 0 = omega (arith, d.0) in
      let next : value / 256 ≡ 0 = omega arith in
      let sum : token + 0 * 2 ^ (8 * (i + 1)) ≡ token + 0 * 2 ^ (8 * i) = omega arith in
      let end : 16 - (i + 1) ≡ 0 = omega (arith, leb→le _ _ e) in
      rw (e, byte)
        (read_bytes-AreDigits left (i + 1) (at + 1) token (value / 256) area d.1
            (omega (arith, power_step i)) (omega (arith, pow-suc 256 left))
            (omega (arith, ap (λ (t : ℕ). 256 ^ t) end))
          ∙ rw (next, none_left, sum) refl)
  | inr e ↦
      rw (e, d.0, or_disjoint (8 * i) token (value % 256) t)
        (read_bytes-AreDigits left (i + 1) (at + 1) (token + value % 256 * 2 ^ (8 * i))
            (value / 256) area d.1 (rw (power_step i) (digit_below (2 ^ (8 * i)) token value t))
            (omega (arith, pow-suc 256 left)) (next_bound i value (ground arith) w)
          ∙ rw (power_step i) (ap some (digit_step (2 ^ (8 * i)) token value)))
]

token_fits : (count token : ℕ) → token < 2 ^ 128 → token < 256 ^ (16 - 0)
token_fits count token h = omega arith

-- A token of `count` bytes is read back by `read_token`, whatever the rest of the area holds.
pub read_token-write_token :
    (area : Bytes) (token index count : ℕ)
    → 1 ≤ count
    → index + count ≤ length area
    → length area < 2 ^ 64
    → token < 256 ^ count
    → token < 2 ^ 128
    → read_token (write_token area token index count) index count ≡ some token
unfolding read_token write_token
read_token-write_token area token index count some_bytes inside small fits wide =
    let accepted : (count == 0)
          || (leb (2 ^ 64) (index + count) || ltb (length area) (index + count))
        ≡ false =
      ground arith in
    rw (length-write_bytes count index token area, accepted)
      (read_bytes-AreDigits count 0 index 0 token (write_bytes count index token area)
          (write_bytes-AreDigits count index token area inside) (omega arith) fits
          (token_fits count token wide)
        ∙ ap some (omega arith))

-- The token that is drawn for an area of at least 16 bytes lies in the area, behind its control
-- words, which stay, and is read back from there.
pub gen_token-IsToken :
    (a : MmapArea) (first second : ℕ)
    → first < 2 ^ 64
    → header_size + token_bytes ≤ length a.memory
    → length a.memory < 2 ^ 64
    → let b = gen_token a first second in
      (length b.memory ≡ length a.memory)
      × (header_size ≤ b.token_index)
      × (b.token_index + token_bytes ≤ length b.memory)
      × (read_token b.memory b.token_index token_bytes ≡ some b.token)
      × (take header_size b.memory ≡ take header_size a.memory)
unfolding gen_token write_token
gen_token-IsToken a first second drawn long small =
    let range = length a.memory - header_size - token_bytes + 1 in
    let index = header_size + second % range in
    let inside : index + token_bytes ≤ length a.memory =
      omega (arith, long, mod-lt second {m = range} (omega (arith, long))) in
    (
      length-write_bytes token_bytes index first a.memory,
      omega arith,
      rw (length-write_bytes token_bytes index first a.memory) inside,
      read_token-write_token a.memory first index token_bytes (omega arith) inside small
          (omega arith) (omega arith),
      take-write_bytes token_bytes index first header_size a.memory (omega arith),
    )

-- The last chunk that a draw names.
abbrev pub last_end : ℕ × ℕ → List (ℕ × ℕ) → ℕ
last_end c [] = c.0 + c.1
last_end c (d ∷ chunks) = last_end d chunks

-- Releasing the chunks of a draw makes the first control word of the area the end of the last
-- chunk, modulo 2 ^ 32, and leaves every byte behind that word, the token and its index.
pub release_lem :
    (a : MmapArea) (c : ℕ × ℕ) (chunks : List (ℕ × ℕ))
    → 4 ≤ length a.memory
    → length a.memory < 2 ^ 64
    → let b = release a (c ∷ chunks) in
      (read_token b.memory 0 4 ≡ some (last_end c chunks % 2 ^ 32))
      × (drop 4 b.memory ≡ drop 4 a.memory)
      × (length b.memory ≡ length a.memory)
      × (b.token ≡ a.token)
      × (b.token_index ≡ a.token_index)
unfolding release write_token
release_lem a (offset, size) [] long small =
    let word : (offset + size) % 2 ^ 64 % 2 ^ 32 ≡ (offset + size) % 2 ^ 32 = omega arith in
    rw word (
      read_token-write_token a.memory ((offset + size) % 2 ^ 32) 0 4 (omega arith) long small
          (omega arith) (omega arith),
      drop-write_bytes 4 0 ((offset + size) % 2 ^ 32) 4 a.memory (omega arith),
      length-write_bytes 4 0 ((offset + size) % 2 ^ 32) a.memory,
      refl,
      refl,
    )
release_lem a (offset, size) (d ∷ chunks) long small = release_lem a d chunks long small
