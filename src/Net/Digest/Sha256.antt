-- ===== src/Net/Digest/Sha256.antt =====
-- src/net/sha256.rs: the hash.
use rust_xpra.Prelude.{
  ℕ, zero, suc, ◌-◌, ◌/◌, ◌^◌, bit_and, bit_xor, List, [], ◌∷◌, ◌++◌, Bytes, length, take, drop,
}
use rust_xpra.Prelude.Endian.{to_be_bytes}
use rust_xpra.Net.Digest.{◌+₃₂◌, rotate_right, complement, pad, words, word}

abbrev pub k : List ℕ
k =
    0x428a2f98 ∷ 0x71374491 ∷ 0xb5c0fbcf ∷ 0xe9b5dba5 ∷ 0x3956c25b ∷ 0x59f111f1 ∷ 0x923f82a4
    ∷ 0xab1c5ed5 ∷ 0xd807aa98 ∷ 0x12835b01 ∷ 0x243185be ∷ 0x550c7dc3 ∷ 0x72be5d74 ∷ 0x80deb1fe
    ∷ 0x9bdc06a7 ∷ 0xc19bf174 ∷ 0xe49b69c1 ∷ 0xefbe4786 ∷ 0x0fc19dc6 ∷ 0x240ca1cc ∷ 0x2de92c6f
    ∷ 0x4a7484aa ∷ 0x5cb0a9dc ∷ 0x76f988da ∷ 0x983e5152 ∷ 0xa831c66d ∷ 0xb00327c8 ∷ 0xbf597fc7
    ∷ 0xc6e00bf3 ∷ 0xd5a79147 ∷ 0x06ca6351 ∷ 0x14292967 ∷ 0x27b70a85 ∷ 0x2e1b2138 ∷ 0x4d2c6dfc
    ∷ 0x53380d13 ∷ 0x650a7354 ∷ 0x766a0abb ∷ 0x81c2c92e ∷ 0x92722c85 ∷ 0xa2bfe8a1 ∷ 0xa81a664b
    ∷ 0xc24b8b70 ∷ 0xc76c51a3 ∷ 0xd192e819 ∷ 0xd6990624 ∷ 0xf40e3585 ∷ 0x106aa070 ∷ 0x19a4c116
    ∷ 0x1e376c08 ∷ 0x2748774c ∷ 0x34b0bcb5 ∷ 0x391c0cb3 ∷ 0x4ed8aa4a ∷ 0x5b9cca4f ∷ 0x682e6ff3
    ∷ 0x748f82ee ∷ 0x78a5636f ∷ 0x84c87814 ∷ 0x8cc70208 ∷ 0x90befffa ∷ 0xa4506ceb ∷ 0xbef9a3f7
    ∷ 0xc67178f2 ∷ []

pub record Hash : Type 0 where
  pub a : ℕ
  pub b : ℕ
  pub c : ℕ
  pub d : ℕ
  pub e : ℕ
  pub f : ℕ
  pub g : ℕ
  pub h : ℕ

abbrev pub initial : Hash
initial = record {
  a = 0x6a09e667;
  b = 0xbb67ae85;
  c = 0x3c6ef372;
  d = 0xa54ff53a;
  e = 0x510e527f;
  f = 0x9b05688c;
  g = 0x1f83d9ab;
  h = 0x5be0cd19;
}

-- The word `w[i]` for `i` from 16.
unfoldable pub extension : List ℕ → ℕ → ℕ
extension w i =
    let s0 =
      bit_xor (bit_xor (rotate_right 7 (word w (i - 15))) (rotate_right 18 (word w (i - 15))))
        (word w (i - 15) / 2 ^ 3) in
    let s1 =
      bit_xor (bit_xor (rotate_right 17 (word w (i - 2))) (rotate_right 19 (word w (i - 2))))
        (word w (i - 2) / 2 ^ 10) in
    word w (i - 16) +₃₂ s0 +₃₂ word w (i - 7) +₃₂ s1

-- `n` more words, from `w[i]`
unfoldable pub extend : ℕ → ℕ → List ℕ → List ℕ
extend zero i w = w
extend (suc n) i w = extend n (suc i) (w ++ (extension w i ∷ []))

-- One of the 64 rounds, with `K[i]` and `w[i]`.
unfoldable pub round : ℕ → ℕ → Hash → Hash
round ki wi s =
    let s1 = bit_xor (bit_xor (rotate_right 6 s.e) (rotate_right 11 s.e)) (rotate_right 25 s.e) in
    let ch = bit_xor (bit_and s.e s.f) (bit_and (complement s.e) s.g) in
    let temp1 = s.h +₃₂ s1 +₃₂ ch +₃₂ ki +₃₂ wi in
    let s0 = bit_xor (bit_xor (rotate_right 2 s.a) (rotate_right 13 s.a)) (rotate_right 22 s.a) in
    let maj = bit_xor (bit_xor (bit_and s.a s.b) (bit_and s.a s.c)) (bit_and s.b s.c) in
    let temp2 = s0 +₃₂ maj in
    record {
      a = temp1 +₃₂ temp2;
      b = s.a;
      c = s.b;
      d = s.c;
      e = s.d +₃₂ temp1;
      f = s.e;
      g = s.f;
      h = s.g;
    }

unfoldable pub rounds : List ℕ → List ℕ → Hash → Hash
rounds (ki ∷ ks) (wi ∷ w) s = rounds ks w (round ki wi s)
rounds _ _ s = s

unfoldable pub compress : Bytes → Hash → Hash
compress chunk s =
    let t = rounds k (extend 48 16 (words 16 chunk)) s in
    record {
      a = s.a +₃₂ t.a;
      b = s.b +₃₂ t.b;
      c = s.c +₃₂ t.c;
      d = s.d +₃₂ t.d;
      e = s.e +₃₂ t.e;
      f = s.f +₃₂ t.f;
      g = s.g +₃₂ t.g;
      h = s.h +₃₂ t.h;
    }

-- `for chunk in msg.chunks(BLOCK)`, `n` of them
unfoldable pub blocks : ℕ → Bytes → Hash → Hash
blocks zero msg s = s
blocks (suc n) msg s = blocks n (drop 64 msg) (compress (take 64 msg) s)

unfoldable pub out : Hash → Bytes
out s =
    to_be_bytes 4 s.a
    ++ (to_be_bytes 4 s.b
        ++ (to_be_bytes 4 s.c
            ++ (to_be_bytes 4 s.d
                ++ (to_be_bytes 4 s.e
                    ++ (to_be_bytes 4 s.f ++ (to_be_bytes 4 s.g ++ to_be_bytes 4 s.h))))))

unfoldable pub sha256 : Bytes → Bytes
sha256 message = out (blocks (length (pad message) / 64) (pad message) initial)
