-- ===== src/Client/ConnectDialog/Fields.antt =====
-- What the form's fields hold, whatever is typed and clicked.
use rust_xpra.Prelude.{
  ℕ, ◌≤◌, ◌<◌, ◌≡◌, refl, Bool, true, false, [], ◌∷◌, ◌++◌, arith, if◌then◌else◌, length,
  length-append, is_control, Bytes,
}
use rust_xpra.Prelude.Decimal.{AreDigits, AreDigits-append}
use rust_xpra.Client.ConnectDialog.{
  ConnectDialog, Focus, on_protocol, on_host, on_port, on_username, on_password, on_cancel,
  on_connect, focus_eq, edit_field,
}
use rust_xpra.Client.ConnectDialog.Keys.{type_text, pop}

-- Typed text has at most `limit` characters, and no control character.
abbrev pub AreTyped : Bytes → Type 0
AreTyped [] = Unit
AreTyped (c ∷ s) = (is_control c ≡ false) × AreTyped s

abbrev pub IsText : Bytes → Type 0
IsText t = AreTyped t × (length t ≤ 128)

abbrev pub IsPort : Bytes → Type 0
IsPort t = AreDigits t × (length t ≤ 5)

-- A protocol of the list, a port of at most five digits, and other fields of at most 128 characters
-- with no control character.
pub record AreFields (protocol : ℕ) (port host username password : Bytes) : Type 0 where
  pub protocol_bound : protocol < 5
  pub is_port : IsPort port
  pub is_host : IsText host
  pub is_username : IsText username
  pub is_password : IsText password

abbrev pub IsForm : ConnectDialog → Type 0
IsForm s = AreFields s.protocol s.port s.host s.username s.password

AreTyped-append : (s : Bytes) (c : ℕ) → AreTyped s → is_control c ≡ false → AreTyped (s ++ (c ∷ []))
AreTyped-append [] c h k = (k, tt)
AreTyped-append (a ∷ s) c h k = (h.0, AreTyped-append s c h.1 k)

length-type_text :
    (d : Bool) (limit : ℕ) (text field : Bytes)
    → length field ≤ limit
    → length (type_text d limit text field) ≤ limit
unfolding type_text
length-type_text d limit [] field h = h
length-type_text d limit (c ∷ text) field h =
    length-type_text d limit text _ (ground (arith, length-append field (c ∷ [])))

AreTyped-type_text :
    (d : Bool) (limit : ℕ) (text field : Bytes)
    → AreTyped field
    → AreTyped (type_text d limit text field)
unfolding type_text
AreTyped-type_text d limit [] field h = h
AreTyped-type_text d limit (c ∷ text) field h =
    AreTyped-type_text d limit text _ (ground (arith, AreTyped-append field c h))

AreDigits-type_text :
    (limit : ℕ) (text field : Bytes) → AreDigits field → AreDigits (type_text true limit text field)
unfolding type_text
AreDigits-type_text limit [] field h = h
AreDigits-type_text limit (c ∷ text) field h =
    AreDigits-type_text limit text _ (ground (arith, AreDigits-append field (c ∷ []) h))

length-pop : (s : Bytes) → length (pop s) ≤ length s
unfolding pop
length-pop [] = omega arith
length-pop (c ∷ []) = omega arith
length-pop (c ∷ d ∷ s) = omega (arith, length-pop (d ∷ s))

AreTyped-pop : (s : Bytes) → AreTyped s → AreTyped (pop s)
unfolding pop
AreTyped-pop [] h = h
AreTyped-pop (c ∷ []) h = tt
AreTyped-pop (c ∷ d ∷ s) h = (h.0, AreTyped-pop (d ∷ s) h.1)

AreDigits-pop : (s : Bytes) → AreDigits s → AreDigits (pop s)
unfolding pop
AreDigits-pop [] h = h
AreDigits-pop (c ∷ []) h = tt
AreDigits-pop (c ∷ d ∷ s) h = (h.0, AreDigits-pop (d ∷ s) h.1)

-- An edit that keeps a port a port, and a text a text.
pub record IsEdit (focus : Focus) (f : Bytes → Bytes) : Type 0 where
  pub digits : focus_eq focus on_port ≡ true → (t : Bytes) → IsPort t → IsPort (f t)
  pub text : focus_eq focus on_port ≡ false → (t : Bytes) → IsText t → IsText (f t)

pub IsForm-edit_field :
    (focus : Focus) (f : Bytes → Bytes) (s : ConnectDialog)
    → IsEdit focus f
    → IsForm s
    → IsForm (edit_field focus f s)
unfolding edit_field
IsForm-edit_field on_host f s e h = record {
  protocol_bound = h.protocol_bound;
  is_port = h.is_port;
  is_host = e.text refl s.host h.is_host;
  is_username = h.is_username;
  is_password = h.is_password;
}
IsForm-edit_field on_port f s e h = record {
  protocol_bound = h.protocol_bound;
  is_port = e.digits refl s.port h.is_port;
  is_host = h.is_host;
  is_username = h.is_username;
  is_password = h.is_password;
}
IsForm-edit_field on_username f s e h = record {
  protocol_bound = h.protocol_bound;
  is_port = h.is_port;
  is_host = h.is_host;
  is_username = e.text refl s.username h.is_username;
  is_password = h.is_password;
}
IsForm-edit_field on_password f s e h = record {
  protocol_bound = h.protocol_bound;
  is_port = h.is_port;
  is_host = h.is_host;
  is_username = h.is_username;
  is_password = e.text refl s.password h.is_password;
}
IsForm-edit_field on_protocol f s e h = h
IsForm-edit_field on_cancel f s e h = h
IsForm-edit_field on_connect f s e h = h

pub IsEdit-pop : (focus : Focus) → IsEdit focus pop
IsEdit-pop focus = record {
  digits = λ _ t h. (AreDigits-pop t h.0, omega (arith, length-pop t, h.1));
  text = λ _ t h. (AreTyped-pop t h.0, omega (arith, length-pop t, h.1));
}

pub IsEdit-type_text :
    (focus : Focus) (text : Bytes)
    → IsEdit focus
        (type_text (focus_eq focus on_port) (if focus_eq focus on_port then 5 else 128) text)
IsEdit-type_text focus text = record {
  digits = λ e t h. rw e (AreDigits-type_text 5 text t h.0, length-type_text true 5 text t h.1);
  text = λ e t h.
      rw e (AreTyped-type_text false 128 text t h.0, length-type_text false 128 text t h.1);
}
