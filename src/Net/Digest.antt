-- ===== src/Net/Digest.antt =====
-- The digests (src/net/sha256.rs, src/net/sha1.rs) and the random text of src/net/rand.rs. A `u32` is
-- a number below `2 ^ 32`, and the sums wrap around as `wrapping_add` does.
pub mod Sha256
pub mod Sha1
pub mod Hmac
pub mod Padding
pub mod Hex
mod Tests
use rust_xpra.Prelude.{
  ℕ, zero, suc, ◌+◌, ◌-◌, ◌*◌, ◌/◌, ◌%◌, ◌^◌, bit_or, List, [], ◌∷◌, ◌++◌, ◌==◌, if◌then◌else◌,
  Bytes, length, take, drop, get_or,
}
use rust_xpra.Prelude.Endian.{to_be_bytes, from_be_bytes}

infixl 65 ◌+₃₂◌
abbrev pub ◌+₃₂◌ : ℕ → ℕ → ℕ
a +₃₂ b = (a + b) % 2 ^ 32

-- `x.rotate_right(n)`
pub rotate_right : ℕ → ℕ → ℕ
rotate_right n x = bit_or (x / 2 ^ n) (x * 2 ^ (32 - n) % 2 ^ 32)

-- `x.rotate_left(n)`
pub rotate_left : ℕ → ℕ → ℕ
rotate_left n x = bit_or (x * 2 ^ n % 2 ^ 32) (x / 2 ^ (32 - n))

-- `!x`
pub complement : ℕ → ℕ
complement x = 2 ^ 32 - 1 - x

-- `while msg.len() % BLOCK != 56 { msg.push(0); }`, on fuel for the rounds
pub push_zeros : ℕ → Bytes → Bytes
push_zeros zero msg = msg
push_zeros (suc fuel) msg =
    let more = push_zeros fuel (msg ++ (0 ∷ [])) in if length msg % 64 == 56 then msg else more

-- The message, a bit, zeros up to 56 bytes in a block, and the length in bits as a `u64`.
pub pad : Bytes → Bytes
pad message = push_zeros 64 (message ++ (0x80 ∷ [])) ++ to_be_bytes 8 (length message * 8 % 2 ^ 64)

-- The first `n` words of a block.
pub words : ℕ → Bytes → List ℕ
words zero chunk = []
words (suc n) chunk = from_be_bytes (take 4 chunk) ∷ words n (drop 4 chunk)

-- `w[i]`
abbrev pub word : List ℕ → ℕ → ℕ
word w i = get_or w i 0
