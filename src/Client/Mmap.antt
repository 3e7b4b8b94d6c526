-- ===== src/Client/Mmap.antt =====
-- src/client/mmap.rs: the shared memory area, its tokens, and what gives memory back to the server.
-- The memory is the list of its bytes; its control words are in little-endian order. Creating,
-- mapping and removing the backing file are calls of the operating system and not modelled.
pub mod Image
pub mod Written
pub mod Tokens
pub mod Capabilities
mod Tests
use mathlib.Core.Option
use rust_xpra.Prelude.{
  ℕ, zero, suc, ◌+◌, ◌-◌, ◌*◌, ◌/◌, ◌%◌, ◌^◌, bit_and, bit_or, Bool, true, false, Option, none,
  some, List, [], ◌∷◌, ◌++◌, ◌==◌, ◌||◌, leb, ltb, if◌then◌else◌, Bytes, codes, length, get_or, set,
  parse_unsigned, Result, ok, err, not,
}
use rust_xpra.Prelude.Int.{pos, negsuc}
use rust_xpra.Net.Packet.{Yaml, integer, real, string, yaml_hash, yaml_hash_bool}

abbrev pub header_size : ℕ
header_size = 8

abbrev pub token_bytes : ℕ
token_bytes = 8

abbrev pub min_size : ℕ
min_size = 64 * 1024 * 1024

abbrev pub default_size : ℕ
default_size = 128 * 1024 * 1024

-- `u32::MAX as usize`
abbrev pub max_size : ℕ
max_size = 2 ^ 32 - 1

pub record MmapArea : Type 0 where
  pub memory : Bytes
  pub token : ℕ
  pub token_index : ℕ

-- The rounds of `write_token`'s loop from `area[at]` on: `left` more bytes of `value`.
pub write_bytes : ℕ → ℕ → ℕ → Bytes → Bytes
write_bytes zero at value area = area
write_bytes (suc left) at value area =
    write_bytes left (at + 1) (value / 2 ^ 8) (set area at (bit_and value 0xff))

pub write_token : Bytes → ℕ → ℕ → ℕ → Bytes
write_token area token index count = write_bytes count index token area

-- The rounds of `read_token`'s loop from its `i`th byte on, at `area[at]`.
pub read_bytes : ℕ → ℕ → ℕ → ℕ → Bytes → Option ℕ
read_bytes zero i at token area = some token
read_bytes (suc left) i at token area =
    let byte = get_or area at 0 in
    let skipped = read_bytes left (i + 1) (at + 1) token area in
    let taken = read_bytes left (i + 1) (at + 1) (bit_or token (byte * 2 ^ (8 * i))) area in
    if leb 16 i then (if byte == 0 then skipped else none) else taken

pub read_token : Bytes → ℕ → ℕ → Option ℕ
read_token area index count =
    if (count == 0) || (leb (2 ^ 64) (index + count) || ltb (length area) (index + count))
    then none
    else read_bytes count 0 index 0 area

-- `first` and `second` are the two numbers that `random_u64` returns.
pub gen_token : MmapArea → ℕ → ℕ → MmapArea
gen_token a first second =
    let range = length a.memory - header_size - token_bytes + 1 in
    let index = header_size + second % range in
    record {
      memory = write_token a.memory first index token_bytes;
      token = first;
      token_index = index;
    }

-- `(offset + length) as u32`, stored in the first control word
pub release : MmapArea → List (ℕ × ℕ) → MmapArea
release a [] = a
release a ((offset, size) ∷ []) = record a {
  memory = write_bytes 4 0 ((offset + size) % 2 ^ 64 % 2 ^ 32) a.memory;
}
release a (c ∷ d ∷ chunks) = release a (d ∷ chunks)

-- A size from the environment is clamped, and an existing file of an unusable size is refused.
pub clamp_size : ℕ → ℕ
clamp_size size =
    if ltb size min_size || ltb max_size size
    then (if ltb size min_size then min_size else if ltb max_size size then max_size else size)
    else size

pub yaml_u128 : Yaml → Option ℕ
yaml_u128 (integer (pos n)) = some n
yaml_u128 (real s) = parse_unsigned (2 ^ 128) s
yaml_u128 (string s) = parse_unsigned (2 ^ 128) s
yaml_u128 _ = none

usize_of : Option Yaml → Option ℕ
usize_of (some (integer (pos n))) = some n
usize_of _ = none

pub hash_usize : Yaml → Bytes → Option ℕ
unfolding usize_of
hash_usize value key = usize_of (yaml_hash value key)

pub data MmapError : Type 0 where
  wrong_token : ℕ → ℕ → MmapError
  invalid_position : ℕ → ℕ → MmapError

-- What the server left in the area, against what it says.
pub verify : ℕ → ℕ → ℕ → Option ℕ → Result MmapError Bool
verify token index count none = err (invalid_position count index)
verify token index count (some found) =
    if found == token
    then ok true
    else if found == 0
    then ok false
    else err (wrong_token token found)

check_token : Bytes → Yaml → Option ℕ → Result MmapError Bool
check_token memory caps none = ok false
check_token memory caps (some token) =
    let index = Option.get_or (hash_usize caps (codes "token_index")) 0 in
    let count = Option.get_or (hash_usize caps (codes "token_bytes")) 128 in
    verify token index count (read_token memory index count)

-- The capabilities of the server's write area, which older servers send without a prefix.
pub check_area : Bytes → Yaml → Result MmapError Bool
unfolding check_token
check_area memory caps =
    if Option.get_or (yaml_hash_bool caps (codes "enabled")) true
    then check_token memory caps (Option.bind (yaml_hash caps (codes "token")) yaml_u128)
    else ok false

pub check_server_caps : MmapArea → Yaml → Result MmapError Bool
check_server_caps a hello = elim (yaml_hash hello (codes "mmap")) [
  | none ↦ ok false
  | some caps ↦ check_area a.memory (Option.get_or (yaml_hash caps (codes "write")) caps)
]
