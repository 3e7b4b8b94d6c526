-- ===== src/Net/Digest/Tests.antt =====
-- The published vectors of the digests, and the witnesses.
use rust_xpra.Prelude.{replicate, ◌++◌, ◌%◌, ◌≡◌, refl, [], ◌∷◌, codes, length, arith}
use rust_xpra.Prelude.Endian.{to_be_bytes, from_be_bytes, from_be}
use rust_xpra.Net.Digest.{pad, push_zeros, words, rotate_left, rotate_right, complement}
use rust_xpra.Net.Digest.Sha256
use rust_xpra.Net.Digest.Sha1
use rust_xpra.Net.Digest.Hmac.{to_hex, block_of, hmac_sha256, hmac_sha256_hex}
use rust_xpra.Net.Digest.Padding.{gap, push_zeros_lem, pad_whole, IsPadded, pad-IsPadded}
use rust_xpra.Net.Digest.Hex.{from_hex, from_hex-to_hex, IsHexText, hmac_sha256_hex-IsHexText}

sha256_abc :
    to_hex (Sha256.sha256 (codes "abc"))
    ≡ codes "ba7816bf8f01cfea414140de5dae2223b00361a396177a9cb410ff61f20015ad"
unfolding to_hex Sha256.sha256 Sha256.blocks Sha256.compress Sha256.rounds Sha256.round
    Sha256.extend Sha256.extension Sha256.out pad push_zeros words rotate_right complement
    to_be_bytes from_be_bytes from_be
sha256_abc = refl

hmac_jefe :
    hmac_sha256_hex (codes "Jefe") (codes "what do ya want for nothing?")
    ≡ codes "5bdcc146bf60754e6a042426089575c75a003f089d2739839dec58b964ec3843"
unfolding to_hex Sha256.sha256 Sha256.blocks Sha256.compress Sha256.rounds Sha256.round
    Sha256.extend Sha256.extension Sha256.out pad push_zeros words rotate_right complement
    to_be_bytes from_be_bytes from_be hmac_sha256 hmac_sha256_hex block_of
hmac_jefe = refl

sha1_abc : to_hex (Sha1.sha1 (codes "abc")) ≡ codes "a9993e364706816aba3e25717850c26c9cd0d89d"
unfolding to_hex Sha1.sha1 Sha1.blocks Sha1.compress Sha1.rounds Sha1.round Sha1.extend Sha1.mixing
    Sha1.out pad push_zeros words rotate_left complement to_be_bytes from_be_bytes from_be
sha1_abc = refl

pad_whole_case : length (pad (codes "abc")) % 64 ≡ 0
pad_whole_case = pad_whole (codes "abc")

pad-IsPadded_example : IsPadded (codes "abc") (pad (codes "abc"))
pad-IsPadded_example = pad-IsPadded (codes "abc") (omega arith)

from_hex-to_hex_case : from_hex (to_hex (0x1f ∷ 0xa0 ∷ [])) ≡ 0x1f ∷ 0xa0 ∷ []
from_hex-to_hex_case = from_hex-to_hex (0x1f ∷ 0xa0 ∷ []) (omega arith, (omega arith, tt))

hmac_sha256_hex-IsHexText_case :
    (length (hmac_sha256_hex (codes "Jefe") (codes "hello")) ≡ 64)
    × IsHexText (hmac_sha256_hex (codes "Jefe") (codes "hello"))
hmac_sha256_hex-IsHexText_case = hmac_sha256_hex-IsHexText (codes "Jefe") (codes "hello")

push_zeros_lem_case : push_zeros 64 (codes "abc") ≡ codes "abc" ++ replicate (gap 3) 0
unfolding gap
push_zeros_lem_case = push_zeros_lem 64 (codes "abc") (omega arith)
