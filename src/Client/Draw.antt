-- ===== src/Client/Draw.antt =====
-- src/client/client.rs: what the decode thread makes of a draw packet, without Windows' H.264, and
-- src/client/draw_decoder.rs. The image decoders of other crates are parameters, and so is the text
-- of an error. A panic is `none`.
pub mod Decoding
pub mod Answers
mod Tests
use mathlib.Core.Option
use rust_xpra.Prelude.{
  ℕ, zero, suc, Bool, true, false, not, ◌&&◌, ◌||◌, Option, none, some, List, [], ◌∷◌,
  if◌then◌else◌, Bytes, codes, bytes_eq, is_empty, starts_with, get_elem?, Result, ok, err,
}
use rust_xpra.Prelude.Panic.{◌>>=◌}
use rust_xpra.Prelude.Int.{ℤ, pos, pos_part}
use rust_xpra.Net.Packet.{
  Yaml, string, Packet, get_str, get_i32, get_i64, get_bytes, yaml_i32, yaml_hash, yaml_hash_str,
}
use rust_xpra.Client.Mmap.{MmapArea, release}
use rust_xpra.Client.Mmap.Image.{ImageError, Chunk, parse_chunks, destride}

pub data DrawError : Type 0 where
  no_chunks : DrawError
  image : ImageError → DrawError
  unsupported_format : Bytes → DrawError
  no_area : DrawError
  no_h264 : DrawError
  unsupported_encoding : Bytes → DrawError
  undecodable : DrawError

as_draw : Result ImageError Bytes → Result DrawError Bytes
as_draw (ok pixels) = ok pixels
as_draw (err e) = err (image e)

-- `options.map(|o| yaml_hash_str(o, "rgb_format")).unwrap_or_default()`
pub rgb_format : Option Yaml → Option Bytes
rgb_format none = some []
rgb_format (some o) = yaml_hash_str o (codes "rgb_format")

-- `area.read_image` with the sizes of the packet, a negative one as zero
pub read_sized : Packet → MmapArea → List Chunk → Option (Result DrawError Bytes)
unfolding as_draw
read_sized p area chunks = do
  let rowstride = Option.get_or (Option.map yaml_i32 (get_elem? p.main 9)) (pos 0)
  w ← get_i32 p 4
  h ← get_i32 p 5
  some (as_draw (destride area.memory chunks (pos_part w) (pos_part h) (pos_part rowstride)))

pub read_formatted : Packet → MmapArea → List Chunk → Bytes → Option (Result DrawError Bytes)
read_formatted p area chunks format =
    if not (is_empty format) && not (starts_with format (codes "BGR"))
    then some (err (unsupported_format format))
    else read_sized p area chunks

pub read_mmap_pixels :
    Packet → MmapArea → Option Yaml → List Chunk → Option (Result DrawError Bytes)
read_mmap_pixels p area options chunks = do
  format ← rgb_format options
  read_formatted p area chunks format

-- The chunk list of the options, or the copy that stands in the data field.
pub chunk_list : Packet → Option Yaml
chunk_list p = elim (Option.bind (get_elem? p.main 10) (λ o. yaml_hash o (codes "chunks"))) [
  | some list ↦ some list
  | none ↦ get_elem? p.main 7
]

-- With the pixels or an error, the area as it is left.
pub read_chunks :
    Packet → MmapArea → Result ImageError (List Chunk) → Option (Result DrawError Bytes × MmapArea)
read_chunks p area (err e) = some (err (image e), area)
read_chunks p area (ok chunks) = do
  pixels ← read_mmap_pixels p area (get_elem? p.main 10) chunks
  some (pixels, release area chunks)

pub read_mmap_draw : Packet → MmapArea → Option (Result DrawError Bytes × MmapArea)
read_mmap_draw p area = elim (chunk_list p) [
  | none ↦ some (err no_chunks, area)
  | some list ↦ read_chunks p area (parse_chunks list)
]

-- `main[index] = value`
pub store : List Yaml → ℕ → Yaml → Option (List Yaml)
store [] i y = none
store (x ∷ xs) zero y = some (y ∷ xs)
store (x ∷ xs) (suc i) y = Option.map (λ t. x ∷ t) (store xs i y)

-- The decoders of other crates.
pub record Decoders : Type 0 where
  pub jpeg : Bytes → Result DrawError Bytes
  pub png : Bytes → Result DrawError Bytes
  pub webp : Bytes → Result DrawError Bytes

pub decode : Decoders → Bytes → Bytes → Result DrawError Bytes
decode d coding payload =
    if bytes_eq coding (codes "jpeg")
    then d.jpeg payload
    else if bytes_eq coding (codes "png")
    then d.png payload
    else if bytes_eq coding (codes "webp")
    then d.webp payload
    else err (unsupported_encoding coding)

pub mmap_draw : Packet → Option MmapArea → Option (Result DrawError Bytes × Option MmapArea)
mmap_draw p none = some (err no_area, none)
mmap_draw p (some area) = do (pixels, area') ← read_mmap_draw p area; some (pixels, some area')

-- An mmap draw has no pixels in the packet.
pub draw_bytes : (Bytes → Option Bytes) → Bytes → Packet → Option Bytes
draw_bytes base64 coding p =
    if bytes_eq coding (codes "mmap") then some [] else Option.map (λ r. r.0) (get_bytes base64 p 7)

pub decode_draw :
    Decoders
    → Bytes
    → Bytes
    → Packet
    → Option MmapArea
    → Option (Result DrawError Bytes × Option MmapArea)
decode_draw d coding payload p area =
    if bytes_eq coding (codes "h264")
    then some (err no_h264, area)
    else if bytes_eq coding (codes "mmap")
    then mmap_draw p area
    else some (decode d coding payload, area)

-- The packet that the thread posts for a result, `elapsed` microseconds after it began.
pub patch : (DrawError → Bytes) → ℤ → List Yaml → Result DrawError Bytes → Option Packet
patch message elapsed main (err e) = do
  failed ← store main 0 (string (codes "decoding-failed"))
  told ← store failed 7 (string (message e))
  some (record { main = told; raw = []; decode_time_us = none })
patch message elapsed main (ok pixels) = do
  decoded ← store main 0 (string (codes "draw-decoded"))
  some (record { main = decoded; raw = (7, pixels) ∷ []; decode_time_us = some elapsed })

module _ (base64 : Bytes → Option Bytes) (d : Decoders) (message : DrawError → Bytes) where
  pub decode_packet : ℤ → Packet → Option MmapArea → Option (Packet × Option MmapArea)
  decode_packet elapsed p area = do
    wid ← get_i64 p 1
    w ← get_i32 p 4
    h ← get_i32 p 5
    coding ← get_str p 6
    payload ← draw_bytes base64 coding p
    seq ← get_i64 p 8
    (result, area') ← decode_draw d coding payload p area
    posted ← patch message elapsed p.main result
    some (posted, area')

  -- A round of the thread: the packet that it posts, if any, and the area.
  pub decode_round : ℤ → Packet → Option MmapArea → Option (Option Packet × Option MmapArea)
  decode_round elapsed p area = do
    ptype ← get_str p 0
    if bytes_eq ptype (codes "lost-window") || bytes_eq ptype (codes "eos")
        then some (none, area)
        else (do (posted, area') ← decode_packet elapsed p area; some (some posted, area'))
