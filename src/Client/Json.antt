-- ===== src/Client/Json.antt =====
-- The packets that the client writes: `serde_json::Value` as the sources build it. The keys of an
-- object stand in the order of the source.
use rust_xpra.Prelude.{ℕ, Bool, List, [], ◌∷◌, String, Bytes, codes}
use rust_xpra.Prelude.Int.{ℤ, pos}

mutual
  pub data Json : Type 0 where
    number : ℤ → Json
    text : Bytes → Json
    boolean : Bool → Json
    array : Items → Json
    object : Fields → Json

  pub data Items : Type 0 where
    no_items : Items
    item : Json → Items → Items

  pub data Fields : Type 0 where
    no_fields : Fields
    field : Bytes → Json → Fields → Fields

-- To write them down as the source does.
abbrev items : List Json → Items
items [] = no_items
items (x ∷ xs) = item x (items xs)

abbrev pub list : List Json → Json
list xs = array (items xs)

abbrev fields : List (String × Json) → Fields
fields [] = no_fields
fields ((k, v) ∷ fs) = field (codes k) v (fields fs)

abbrev pub dict : List (String × Json) → Json
dict fs = object (fields fs)

abbrev pub str : String → Json
str s = text (codes s)

abbrev pub nat : ℕ → Json
nat n = number (pos n)

abbrev pub texts : List Bytes → List Json
texts [] = []
texts (t ∷ ts) = text t ∷ texts ts
