-- ===== src/Client/Mmap/Tests.antt =====
-- The theorems of mmap.rs's model at concrete areas, draws and capabilities.
use mathlib.Core.Option
use rust_xpra.Prelude.{
  ℕ, ◌+◌, ◌≤◌, ◌%◌, ◌^◌, ◌≡◌, refl, some, true, [], ◌∷◌, Bytes, codes, length, take, drop,
  replicate, arith, ok,
}
use rust_xpra.Prelude.Int.{pos}
use rust_xpra.Net.Packet.{
  Yaml, hash, entry, no_entries, string, integer, yaml_hash, yaml_hash_bool, hash_bool, get,
}
use rust_xpra.Client.Mmap.{
  MmapArea, write_token, write_bytes, read_token, gen_token, release, check_server_caps, check_area,
  check_token, verify, read_bytes, hash_usize, usize_of, yaml_u128,
}
use rust_xpra.Client.Mmap.Tokens.{read_token-write_token, gen_token-IsToken, release_lem}
use rust_xpra.Client.Mmap.Capabilities.{
  IsOffer, index_of, count_of, area_of, check_server_caps-write_token, check_server_caps-IsOffer,
}

abbrev blank : Bytes
blank = replicate 40 7

read_token-write_token_case : read_token (write_token blank 1000 20 8) 20 8 ≡ some 1000
read_token-write_token_case =
    read_token-write_token blank 1000 20 8 (omega arith) (omega arith) (omega arith) (omega arith)
      (omega arith)

abbrev empty : MmapArea
empty = record { memory = blank; token = 0; token_index = 0 }

gen_token-IsToken_case :
    let b = gen_token empty 1000 30 in
    (length b.memory ≡ 40)
    × (8 ≤ b.token_index)
    × (b.token_index + 8 ≤ length b.memory)
    × (read_token b.memory b.token_index 8 ≡ some b.token)
    × (take 8 b.memory ≡ take 8 blank)
gen_token-IsToken_case = gen_token-IsToken empty 1000 30 (omega arith) (omega arith) (omega arith)

release_lem_case :
    let b = release empty ((20, 10) ∷ (8, 6) ∷ []) in
    (read_token b.memory 0 4 ≡ some (14 % 2 ^ 32))
    × (drop 4 b.memory ≡ drop 4 blank)
    × (length b.memory ≡ 40)
    × (b.token ≡ 0)
    × (b.token_index ≡ 0)
release_lem_case = release_lem empty (20, 10) ((8, 6) ∷ []) (omega arith) (omega arith)

abbrev caps : Yaml
caps = hash (
    entry (string (codes "token")) (integer (pos 1000)) (
      entry (string (codes "token_index")) (integer (pos 20))
        (entry (string (codes "token_bytes")) (integer (pos 8)) no_entries)))

abbrev hello : Yaml
hello = hash (
    entry (string (codes "mmap")) (hash (entry (string (codes "write")) caps no_entries))
      no_entries)

abbrev announced : MmapArea
announced = record { memory = write_token blank 1000 20 8; token = 5; token_index = 8 }

offer : IsOffer hello (hash (entry (string (codes "write")) caps no_entries)) 1000
unfolding yaml_hash get yaml_hash_bool hash_bool yaml_u128 Option.bind
offer = record { named = refl; enabled = refl; drawn = refl }

check_server_caps-write_token_case : check_server_caps announced hello ≡ ok true
unfolding hash_usize usize_of yaml_hash get
check_server_caps-write_token_case =
    check_server_caps-write_token announced hello
      (hash (entry (string (codes "write")) caps no_entries)) 1000 offer blank refl (omega arith)
      (omega arith) (omega arith) (omega arith) (omega arith)

turned_on : check_server_caps announced hello ≡ ok true
unfolding check_server_caps check_area check_token verify yaml_hash get yaml_hash_bool hash_bool
    yaml_u128 hash_usize usize_of read_token read_bytes write_token write_bytes Option.bind
turned_on = refl

check_server_caps-IsOffer_example :
    (c : Yaml) × (token : ℕ) × IsOffer hello c token
    × (read_token announced.memory (index_of (area_of c)) (count_of (area_of c)) ≡ some token)
check_server_caps-IsOffer_example = check_server_caps-IsOffer announced hello turned_on
