-- ===== src/Client/Draw/Tests.antt =====
-- The theorems about the decode thread at concrete draws.
use mathlib.Core.Option
use rust_xpra.Prelude.{
  ◌≡◌, refl, Option, none, some, [], ◌∷◌, Bytes, codes, replicate, Result, ok, err, List, arith,
}
use rust_xpra.Prelude.Int.{pos}
use rust_xpra.Net.Packet.{
  Yaml, item, no_items, array, hash, entry, no_entries, integer, string, Packet, get_str, yaml_str,
  yaml_hash_str, yaml_hash, hash_str, get,
}
use rust_xpra.Client.Mmap.{MmapArea, release}
use rust_xpra.Client.Mmap.Image.{parse_chunks}
use rust_xpra.Client.Draw.{
  DrawError, Decoders, undecodable, rgb_format, draw_bytes, decode_draw, chunk_list, read_mmap_draw,
  decode_round,
}
use rust_xpra.Client.Draw.Decoding.{read_mmap_draw-release}
use rust_xpra.Client.Draw.Answers.{IsAnswer, Tells, decode_round-IsAnswer}

abbrev decoders : Decoders
decoders = record { jpeg = λ b. err undecodable; png = λ b. ok b; webp = λ b. err undecodable }

abbrev base64 : Bytes → Option Bytes
base64 b = some b

abbrev message : DrawError → Bytes
message e = codes "failed"

-- A draw of window 3, sequence 17, as `coding`, with the options behind it.
abbrev drawing : Bytes → List Yaml → Packet
drawing coding options = record {
  main =
      string (codes "draw")
      ∷ integer (pos 3)
      ∷ integer (pos 0)
      ∷ integer (pos 0)
      ∷ integer (pos 1)
      ∷ integer (pos 1)
      ∷ string coding
      ∷ string (codes "pixels")
      ∷ integer (pos 17)
      ∷ options;
  raw = [];
  decode_time_us = none;
}

unknown : ¬ (some (codes "") ≡ none)
unknown e = cc e

decode_round-IsAnswer_example :
    (q : Packet) × (area : Option MmapArea) × (decode_round base64 decoders message
        (pos 250)
        (drawing (codes "png") [])
        none
      ≡ some (some q, area))
    × IsAnswer (drawing (codes "png") []) q
    × (coding : Bytes) × (payload : Bytes) × (r : Result DrawError Bytes) × (get_str
          (drawing (codes "png") [])
          6
        ≡ some coding)
    × (draw_bytes base64 coding (drawing (codes "png") []) ≡ some payload)
    × (decode_draw decoders coding payload (drawing (codes "png") []) none ≡ some (r, area))
    × Tells message r q
unfolding rgb_format get_str yaml_str
decode_round-IsAnswer_example =
    decode_round-IsAnswer base64 decoders message (pos 250) (drawing (codes "png") []) none refl
      (omega arith) unknown

abbrev area : MmapArea
area = record { memory = replicate 64 7; token = 0; token_index = 0 }

abbrev chunk_yaml : Yaml
chunk_yaml =
    array (item (array (item (integer (pos 16)) (item (integer (pos 4)) no_items))) no_items)

abbrev options : List Yaml
options =
    integer (pos 4)
    ∷ hash (
        entry (string (codes "chunks")) chunk_yaml
          (entry (string (codes "rgb_format")) (string (codes "BGRX")) no_entries))
    ∷ []

read_mmap_draw-release_case :
    (r : Result DrawError Bytes) × (read_mmap_draw (drawing (codes "mmap") options) area
      ≡ some (r, release area ((16, 4) ∷ [])))
unfolding rgb_format chunk_list parse_chunks yaml_hash yaml_hash_str hash_str get Option.bind
read_mmap_draw-release_case =
    read_mmap_draw-release (drawing (codes "mmap") options) area chunk_yaml ((16, 4) ∷ [])
      (codes "BGRX") refl refl refl (omega arith)
