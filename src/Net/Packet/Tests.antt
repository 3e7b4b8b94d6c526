-- ===== src/Net/Packet/Tests.antt =====
-- The theorems about packets at concrete packets.

use rust_xpra.Prelude.{
  ◌≡◌, refl, ◌↔◌, ◌-◌, ◌^◌, ◌<◌, Bool, true, Option, none, some, List, [], ◌∷◌, Bytes, codes, arith,
  get_elem?,
}
use rust_xpra.Prelude.Int.{pos, negsuc, ◌≤ℤ◌}
use rust_xpra.Net.Io.{
  Frame, RawPacket, read_packet, read_loop, frame, chunk_packet, contains_key, main_packet,
  find_chunk,
}
use rust_xpra.Net.Io.Reassembly.{sent}
use rust_xpra.Net.Packet.{
  Yaml, Packet, string, integer, array, hash, entry, no_entries, item, no_items, get_hash_str,
  get_bytes, parse_packet, documents, one_document, packet_fields, get_u32, yaml_u32, get_i32,
  get_i64, get_u64, yaml_i32,
}
use rust_xpra.Net.Packet.Fields.{
  IsMissing, get_hash_str_panics, accessor_ranges, signed_exact, unsigned_exact,
}
use rust_xpra.Net.Packet.Delivery.{inline, Delivered, get_bytes_twice, get_bytes-read_packet}

abbrev draw : Packet
draw = record {
  main =
      string (codes "draw")
      ∷ hash (entry (string (codes "flush")) (integer (pos 0)) no_entries)
      ∷ integer (negsuc 6)
      ∷ [];
  raw = (2, 8 ∷ []) ∷ [];
  decode_time_us = none;
}

abbrev sized : Packet
sized = record { main = integer (pos 4000000000) ∷ []; raw = []; decode_time_us = none }

get_hash_str_panics_case :
    (get_hash_str draw 1 (codes "rgb_format") ≡ none)
    ↔ IsMissing (get_elem? draw.main 1) (codes "rgb_format")
get_hash_str_panics_case = get_hash_str_panics draw 1 (codes "rgb_format")

accessor_ranges_case :
    (get_u32 draw 2 ≡ some (yaml_u32 (integer (negsuc 6))))
    × (yaml_u32 (integer (negsuc 6)) < 2 ^ 32)
    × (get_i32 draw 2 ≡ some (yaml_i32 (integer (negsuc 6))))
    × (negsuc (2 ^ 31 - 1) ≤ℤ yaml_i32 (integer (negsuc 6)))
    × (yaml_i32 (integer (negsuc 6)) ≤ℤ pos (2 ^ 31 - 1))
accessor_ranges_case = accessor_ranges draw 2 (integer (negsuc 6)) refl

signed_exact_case : (get_i32 draw 2 ≡ some (negsuc 6)) × (get_i64 draw 2 ≡ some (negsuc 6))
signed_exact_case = signed_exact draw 2 (negsuc 6) refl (omega arith) (omega arith)

unsigned_exact_case :
    (get_u32 sized 0 ≡ some 4000000000)
    × (get_u64 sized 0 ≡ some 4000000000)
    × (get_i64 sized 0 ≡ some (pos 4000000000))
unsigned_exact_case = unsigned_exact sized 0 4000000000 refl (omega arith)

abbrev base64 : Bytes → Option Bytes
base64 s = some s

get_bytes_twice_case :
    (q : Packet) × (get_bytes base64 draw 2 ≡ some (8 ∷ [], q))
    × (q.main ≡ draw.main)
    × (get_bytes base64 q 2 ≡ inline base64 q 2)
unfolding find_chunk
get_bytes_twice_case = get_bytes_twice base64 draw 2 (8 ∷ []) refl

abbrev lz4 : Bytes → Option Bytes
lz4 s = none

abbrev is_text : Bytes → Bool
is_text s = true

abbrev load : Bytes → Option (List Yaml)
load s = some (array (item (string s) (item (string []) no_items)) ∷ [])

abbrev pixels : Frame
pixels = record { flags = 0; compression = 0; index = 1; payload = 5 ∷ 6 ∷ [] }

abbrev main : Frame
main = record { flags = 4; compression = 0; index = 0; payload = codes "x" }

abbrev raw : RawPacket
raw = record { payload = codes "x"; chunks = (1, 5 ∷ 6 ∷ []) ∷ [] }

abbrev parsed : Packet
parsed = record {
  main = string (codes "x") ∷ string [] ∷ [];
  raw = (1, 5 ∷ 6 ∷ []) ∷ [];
  decode_time_us = none;
}

get_bytes-read_packet_example : Delivered base64 parsed 1 (sent lz4 1 (pixels ∷ []))
unfolding read_packet read_loop frame chunk_packet contains_key main_packet parse_packet documents
    one_document packet_fields
get_bytes-read_packet_example =
    get_bytes-read_packet base64 lz4 is_text load (pixels ∷ []) main (codes "x") [] raw parsed 1
      (omega arith, omega arith, omega arith, refl, tt) (omega arith) refl (omega arith) refl refl
      refl refl
