-- ===== src/Net/Digest/Hex.antt =====
-- The hexadecimal text of a digest.
use rust_xpra.Prelude.{
  ℕ, zero, suc, ◌+◌, ◌-◌, ◌*◌, ◌/◌, ◌%◌, ◌<◌, ◌≡◌, refl, ap₂, true, ◌&&◌, ◌||◌, [], ◌∷◌, ◌++◌,
  if◌then◌else◌, Bytes, AllBytes, leb, length, is_digit, arith, length-append,
}
use rust_xpra.Prelude.Bits.{bit_and_nibble}
use rust_xpra.Prelude.Endian.{to_be_bytes, length-to_be_bytes}
use rust_xpra.Net.Digest.{pad}
use rust_xpra.Net.Digest.Sha256.{Hash, initial, blocks, sha256, out}
use rust_xpra.Net.Digest.Hmac.{from_digit, to_hex, hmac_sha256, hmac_sha256_hex}

-- The digit that a character of the text stands for, and the bytes of the text.
abbrev pub digit_of : ℕ → ℕ
digit_of c = if leb c b'9' then c - b'0' else c - b'a' + 10

pub from_hex : Bytes → Bytes
from_hex (c ∷ d ∷ s) = (digit_of c * 16 + digit_of d) ∷ from_hex s
from_hex _ = []

abbrev pub IsHexText : Bytes → Type 0
IsHexText [] = Unit
IsHexText (c ∷ s) = (is_digit c || leb b'a' c && leb c b'f' ≡ true) × IsHexText s

digit_of-from_digit : (d : ℕ) → d < 16 → digit_of (from_digit d) ≡ d
digit_of-from_digit d h = ground arith

from_digit_hex :
    (d : ℕ)
    → d < 16
    → is_digit (from_digit d) || leb b'a' (from_digit d) && leb (from_digit d) b'f' ≡ true
from_digit_hex d h = ground arith

-- The text of bytes gives them back.
pub from_hex-to_hex : (bytes : Bytes) → AllBytes bytes → from_hex (to_hex bytes) ≡ bytes
unfolding from_hex to_hex
from_hex-to_hex [] h = refl
from_hex-to_hex (b ∷ bs) h =
    ap₂ (λ (x : ℕ) y. x ∷ y)
      (rw
        (
          bit_and_nibble b,
          digit_of-from_digit (b / 16) (omega (arith, h.0)),
          digit_of-from_digit (b % 16) (omega arith),
        )
        (omega arith))
      (from_hex-to_hex bs h.1)

to_hex-IsHexText : (bytes : Bytes) → AllBytes bytes → IsHexText (to_hex bytes)
unfolding to_hex
to_hex-IsHexText [] h = tt
to_hex-IsHexText (b ∷ bs) h = (
  from_digit_hex (b / 16) (omega (arith, h.0)),
  (rw (bit_and_nibble b) (from_digit_hex (b % 16) (omega arith)), to_hex-IsHexText bs h.1),
)

length-to_hex : (bytes : Bytes) → length (to_hex bytes) ≡ length bytes + length bytes
unfolding to_hex
length-to_hex [] = refl
length-to_hex (b ∷ bs) = omega (arith, length-to_hex bs)

AllBytes-append : (xs ys : Bytes) → AllBytes xs → AllBytes ys → AllBytes (xs ++ ys)
AllBytes-append [] ys h g = g
AllBytes-append (x ∷ xs) ys h g = (h.0, AllBytes-append xs ys h.1 g)

to_be_bytes-AllBytes : (n v : ℕ) → AllBytes (to_be_bytes n v)
unfolding to_be_bytes
to_be_bytes-AllBytes zero v = tt
to_be_bytes-AllBytes (suc n) v =
    AllBytes-append (to_be_bytes n (v / 256)) (v % 256 ∷ []) (to_be_bytes-AllBytes n (v / 256))
      (omega arith, tt)

-- Bytes, and how many.
record IsDigest (n : ℕ) (xs : Bytes) : Type 0 where
  bytes : AllBytes xs
  size : length xs ≡ n

word-IsDigest : (v : ℕ) → IsDigest 4 (to_be_bytes 4 v)
word-IsDigest v = record { bytes = to_be_bytes-AllBytes 4 v; size = length-to_be_bytes 4 v }

IsDigest-append :
    (m n : ℕ) (xs ys : Bytes) → IsDigest m xs → IsDigest n ys → IsDigest (m + n) (xs ++ ys)
IsDigest-append m n xs ys h g = record {
  bytes = AllBytes-append xs ys h.bytes g.bytes;
  size = omega (arith, length-append xs ys, h.size, g.size);
}

sha256-IsDigest : (message : Bytes) → IsDigest 32 (sha256 message)
unfolding sha256 out
sha256-IsDigest message = words_32 (blocks (length (pad message) / 64) (pad message) initial)
  where
    words_32 : (s : Hash) → IsDigest 32 (out s)
    words_32 s = w s.a 28 _ (
        w s.b 24 _
          (w s.c 20 _ (w s.d 16 _ (w s.e 12 _ (w s.f 8 _ (w s.g 4 _ (word-IsDigest s.h)))))))
      where
        w : (v n : ℕ) (ys : Bytes) → IsDigest n ys → IsDigest (4 + n) (to_be_bytes 4 v ++ ys)
        w v n ys h = IsDigest-append 4 n (to_be_bytes 4 v) ys (word-IsDigest v) h

-- A digest under a key is a text of 64 lower-case hexadecimal digits, whatever the key and the message.
pub hmac_sha256_hex-IsHexText :
    (key msg : Bytes)
    → (length (hmac_sha256_hex key msg) ≡ 64) × IsHexText (hmac_sha256_hex key msg)
unfolding hmac_sha256_hex hmac_sha256
hmac_sha256_hex-IsHexText key msg =
    let d : IsDigest 32 (hmac_sha256 key msg) = sha256-IsDigest _ in
    (
      omega (arith, length-to_hex (hmac_sha256 key msg), d.size),
      to_hex-IsHexText (hmac_sha256 key msg) d.bytes,
    )
