-- ===== src/Net/Packet.antt =====
-- src/net/packet.rs and src/net/serde.rs: decoded packets and their typed fields. A panic is `none`:
-- an index beyond the packet's fields, or a key that `hash[&key]` does not find.
pub mod Fields
pub mod Delivery
mod Tests
use mathlib.Core.Option
use rust_xpra.Prelude.{
  ℕ, zero, suc, ◌+◌, ◌%◌, ◌^◌, Bool, true, false, Option, none, some, List, [], ◌∷◌, ◌++◌, ◌==◌,
  leb, not, if◌then◌else◌, Bytes, codes, bytes_eq, length, get_elem?, Result, ok, err, ◌>>=◌,
}
use rust_xpra.Prelude.Int.{ℤ, pos, negsuc, to_unsigned, to_signed}
use rust_xpra.Net.Io.{RawPacket, Chunks, find_chunk}

-- The cases of `yaml_rust2::Yaml` that the sources look at; `other` stands for the rest.
mutual
  pub data Yaml : Type 0 where
    real : Bytes → Yaml
    integer : ℤ → Yaml
    string : Bytes → Yaml
    boolean : Bool → Yaml
    array : Items → Yaml
    hash : Entries → Yaml
    other : Yaml

  pub data Items : Type 0 where
    no_items : Items
    item : Yaml → Items → Items

  pub data Entries : Type 0 where
    no_entries : Entries
    entry : Yaml → Yaml → Entries → Entries

abbrev pub to_list : Items → List Yaml
to_list no_items = []
to_list (item y ys) = y ∷ to_list ys

abbrev pub is_string : Bytes → Yaml → Bool
is_string k (string s) = bytes_eq s k
is_string k _ = false

-- `hash.get(&Yaml::String(key))`
unfoldable pub get : Entries → Bytes → Option Yaml
get no_entries k = none
get (entry j v es) k = if is_string k j then some v else get es k

unfoldable pub yaml_u32 : Yaml → ℕ
yaml_u32 (integer i) = to_unsigned (2 ^ 32) i
yaml_u32 _ = 0

pub yaml_i32 : Yaml → ℤ
yaml_i32 (integer i) = to_signed (2 ^ 31) (to_unsigned (2 ^ 32) i)
yaml_i32 _ = pos 0

unfoldable pub yaml_u64 : Yaml → ℕ
yaml_u64 (integer i) = to_unsigned (2 ^ 64) i
yaml_u64 _ = 0

pub yaml_i64 : Yaml → ℤ
yaml_i64 (integer i) = i
yaml_i64 _ = pos 0

unfoldable pub yaml_str : Yaml → Bytes
yaml_str (string s) = s
yaml_str _ = []

abbrev pub nonzero : ℤ → Bool
nonzero (pos n) = not (n == 0)
nonzero (negsuc n) = true

pub yaml_bool : Yaml → Bool
yaml_bool (boolean b) = b
yaml_bool (integer i) = nonzero i
yaml_bool _ = false

unfoldable pub yaml_hash : Yaml → Bytes → Option Yaml
yaml_hash (hash es) k = get es k
yaml_hash _ k = none

unfoldable pub hash_str : Yaml → Bytes
hash_str (string s) = s
hash_str _ = []

-- `let yaml_value = &hash[&yaml_key]` panics where the key is missing.
unfoldable pub yaml_hash_str : Yaml → Bytes → Option Bytes
unfolding hash_str
yaml_hash_str (hash es) k = Option.map hash_str (get es k)
yaml_hash_str _ k = some []

unfoldable pub hash_bool : Option Yaml → Option Bool
hash_bool (some (boolean b)) = some b
hash_bool (some (integer i)) = some (nonzero i)
hash_bool _ = none

-- The inner option is the function's result; it does not panic.
unfoldable pub yaml_hash_bool : Yaml → Bytes → Option Bool
unfolding hash_bool
yaml_hash_bool (hash es) k = hash_bool (get es k)
yaml_hash_bool _ k = none

pub yaml_hash_i32 : Yaml → Bytes → Option ℤ
unfolding yaml_i32
yaml_hash_i32 (hash es) k = Option.map yaml_i32 (get es k)
yaml_hash_i32 _ k = some (pos 0)

pub record Packet : Type 0 where
  pub main : List Yaml
  pub raw : Chunks
  pub decode_time_us : Option ℤ

-- `Packet::new`
pub new : Packet
new = record { main = []; raw = []; decode_time_us = none }

unfoldable pub len : Packet → ℕ
len p = length p.main

unfoldable pub get_u32 : Packet → ℕ → Option ℕ
get_u32 p i = Option.map yaml_u32 (get_elem? p.main i)

unfoldable pub get_i32 : Packet → ℕ → Option ℤ
get_i32 p i = Option.map yaml_i32 (get_elem? p.main i)

unfoldable pub get_u64 : Packet → ℕ → Option ℕ
get_u64 p i = Option.map yaml_u64 (get_elem? p.main i)

unfoldable pub get_i64 : Packet → ℕ → Option ℤ
get_i64 p i = Option.map yaml_i64 (get_elem? p.main i)

unfoldable pub get_str : Packet → ℕ → Option Bytes
get_str p i = Option.map yaml_str (get_elem? p.main i)

pub get_bool : Packet → ℕ → Option Bool
get_bool p i = Option.map yaml_bool (get_elem? p.main i)

pub get_hash_i32 : Packet → ℕ → Bytes → Option ℤ
get_hash_i32 p i k = Option.bind (get_elem? p.main i) (λ y. yaml_hash_i32 y k)

pub get_hash_str : Packet → ℕ → Bytes → Option Bytes
get_hash_str p i k = Option.bind (get_elem? p.main i) (λ y. yaml_hash_str y k)

-- Tolerates a missing field: `none` is the function's result here, never a panic.
pub get_hash_bool : Packet → ℕ → Bytes → Option Bool
get_hash_bool p i k =
    if leb (len p) i
    then none
    else elim (get_elem? p.main i) [ none ↦ none | some y ↦ yaml_hash_bool y k ]

-- `HashMap::remove`
pub remove_chunk : Chunks → ℕ → Chunks
remove_chunk [] k = []
remove_chunk ((j, v) ∷ m) k = let rest = remove_chunk m k in if j == k then rest else (j, v) ∷ rest

abbrev pub strip_newlines : Bytes → Bytes
strip_newlines [] = []
strip_newlines (c ∷ s) = let rest = strip_newlines s in if c == b'\n' then rest else c ∷ rest

module _ (base64 : Bytes → Option Bytes) where
  unfoldable pub yaml_bytes : Yaml → Bytes
  yaml_bytes (string s) = Option.get_or (base64 (strip_newlines s)) []
  yaml_bytes _ = []

  -- Takes the chunk that came for the field out of the packet, or decodes the field itself.
  unfoldable pub get_bytes : Packet → ℕ → Option (Bytes × Packet)
  get_bytes p i = elim (find_chunk p.raw i) [
    | some v ↦ some (v, record p { raw = remove_chunk p.raw i })
    | none ↦ Option.map (λ y. (yaml_bytes y, p)) (get_elem? p.main i)
  ]

-- serde.rs's errors: the payload is not utf-8, not yaml, not one document, or no list.
pub data ParseError : Type 0 where
  invalid_utf8 : ParseError
  invalid_yaml : ParseError
  too_many_items : ℕ → ParseError
  invalid_packet_type : ParseError

one_document : List Yaml → Result ParseError Yaml
one_document (y ∷ []) = ok y
one_document ys = err (too_many_items (length ys))

packet_fields : Yaml → Result ParseError (List Yaml)
packet_fields (array ys) = ok (to_list ys)
packet_fields _ = err invalid_packet_type

-- `from_utf8` says whether the bytes are a text, `load` is `YamlLoader::load_from_str`.
module _ (from_utf8 : Bytes → Bool) (load : Bytes → Option (List Yaml)) where
  documents : Bytes → Result ParseError (List Yaml)
  documents text = elim (load text) [ none ↦ err invalid_yaml | some ys ↦ ok ys ]

  pub parse_packet : RawPacket → Result ParseError Packet
  parse_packet r =
      if from_utf8 r.payload
      then (do
        ys ← documents r.payload
        y ← one_document ys
        fields ← packet_fields y
        ok (record { main = fields; raw = r.chunks; decode_time_us = none }))
      else err invalid_utf8
