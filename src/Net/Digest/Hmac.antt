-- ===== src/Net/Digest/Hmac.antt =====
-- src/net/sha256.rs: HMAC and the hexadecimal text; src/net/rand.rs: `secure_hex`.
use rust_xpra.Prelude.{
  ℕ, ◌+◌, ◌-◌, ◌/◌, bit_and, bit_xor, [], ◌∷◌, ◌++◌, map, if◌then◌else◌, Bytes, length, replicate,
  ltb,
}
use rust_xpra.Net.Digest.Sha256.{sha256}

-- The key in a block of zeros, hashed down where it is longer than one.
unfoldable pub block_of : Bytes → Bytes
block_of key =
    if ltb 64 (length key)
    then sha256 key ++ replicate 32 0
    else key ++ replicate (64 - length key) 0

unfoldable pub hmac_sha256 : Bytes → Bytes → Bytes
hmac_sha256 key msg = sha256 (
    map (λ b. bit_xor 0x5c b) (block_of key)
    ++ sha256 (map (λ b. bit_xor 0x36 b) (block_of key) ++ msg))

-- `char::from_digit(d, 16)`
abbrev pub from_digit : ℕ → ℕ
from_digit d = if ltb d 10 then d + b'0' else d - 10 + b'a'

unfoldable pub to_hex : Bytes → Bytes
to_hex [] = []
to_hex (b ∷ bs) = from_digit (b / 16) ∷ from_digit (bit_and b 0xf) ∷ to_hex bs

unfoldable pub hmac_sha256_hex : Bytes → Bytes → Bytes
hmac_sha256_hex key msg = to_hex (hmac_sha256 key msg)

-- `secure_random_bytes` is the operating system's: what it fills a buffer of that length with.
pub secure_hex : (ℕ → Bytes) → ℕ → Bytes
secure_hex secure_random_bytes n = to_hex (secure_random_bytes n)
