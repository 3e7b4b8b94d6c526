-- ===== src/Net/Digest/Sha1.antt =====
-- src/net/sha1.rs
use rust_xpra.Prelude.{
  ℕ, zero, suc, ◌-◌, ◌/◌, bit_and, bit_or, bit_xor, List, [], ◌∷◌, ◌++◌, if◌then◌else◌, Bytes, ltb,
  length, take, drop,
}
use rust_xpra.Prelude.Endian.{to_be_bytes}
use rust_xpra.Net.Digest.{◌+₃₂◌, rotate_left, complement, pad, words, word}

pub record Hash : Type 0 where
  pub a : ℕ
  pub b : ℕ
  pub c : ℕ
  pub d : ℕ
  pub e : ℕ

abbrev pub initial : Hash
initial = record { a = 0x67452301; b = 0xEFCDAB89; c = 0x98BADCFE; d = 0x10325476; e = 0xC3D2E1F0 }

-- `n` more words, from `w[i]`
unfoldable pub extend : ℕ → ℕ → List ℕ → List ℕ
extend zero i w = w
extend (suc n) i w = extend n (suc i) (
    w
    ++ (rotate_left 1 (
          bit_xor (bit_xor (bit_xor (word w (i - 3)) (word w (i - 8))) (word w (i - 14)))
            (word w (i - 16)))
        ∷ []))

-- The function and the constant of round `i`.
unfoldable pub mixing : ℕ → Hash → ℕ × ℕ
mixing i s =
    if ltb i 20
    then (bit_or (bit_and s.b s.c) (bit_and (complement s.b) s.d), 0x5A827999)
    else if ltb i 40
    then (bit_xor (bit_xor s.b s.c) s.d, 0x6ED9EBA1)
    else if ltb i 60
    then (bit_or (bit_or (bit_and s.b s.c) (bit_and s.b s.d)) (bit_and s.c s.d), 0x8F1BBCDC)
    else (bit_xor (bit_xor s.b s.c) s.d, 0xCA62C1D6)

unfoldable pub round : ℕ → ℕ → Hash → Hash
round i wi s =
    let (f, k) = mixing i s in
    record {
      a = rotate_left 5 s.a +₃₂ f +₃₂ s.e +₃₂ k +₃₂ wi;
      b = s.a;
      c = rotate_left 30 s.b;
      d = s.c;
      e = s.d;
    }

-- The rounds of the words from `w[i]`.
unfoldable pub rounds : ℕ → List ℕ → Hash → Hash
rounds i [] s = s
rounds i (wi ∷ w) s = rounds (suc i) w (round i wi s)

unfoldable pub compress : Bytes → Hash → Hash
compress chunk s =
    let t = rounds 0 (extend 64 16 (words 16 chunk)) s in
    record { a = s.a +₃₂ t.a; b = s.b +₃₂ t.b; c = s.c +₃₂ t.c; d = s.d +₃₂ t.d; e = s.e +₃₂ t.e }

unfoldable pub blocks : ℕ → Bytes → Hash → Hash
blocks zero msg s = s
blocks (suc n) msg s = blocks n (drop 64 msg) (compress (take 64 msg) s)

unfoldable pub out : Hash → Bytes
out s =
    to_be_bytes 4 s.a
    ++ (to_be_bytes 4 s.b ++ (to_be_bytes 4 s.c ++ (to_be_bytes 4 s.d ++ to_be_bytes 4 s.e)))

unfoldable pub sha1 : Bytes → Bytes
sha1 message = out (blocks (length (pad message) / 64) (pad message) initial)
