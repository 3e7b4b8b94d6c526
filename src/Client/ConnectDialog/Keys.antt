-- ===== src/Client/ConnectDialog/Keys.antt =====
-- What a key does to the form.
use rust_xpra.Prelude.{
  ℕ, suc, ◌%◌, ◌^◌, Bool, true, false, not, ◌&&◌, ◌||◌, Option, none, some, List, [], ◌∷◌, ◌++◌,
  if◌then◌else◌, ltb, Bytes, is_digit, is_control, length, get_or,
}
use rust_xpra.Prelude.Int.{ℤ, pos, negsuc, ◌+ℤ◌, sub_ℕ, to_unsigned}
use rust_xpra.Client.ConnectDialog.{
  ConnectDialog, ConnectAction, no_action, cancel_action, Focus, on_protocol, on_port, on_cancel,
  focus_order, focus_eq, text_field, protocols, Display, draw, no_status, connecting, field_mut,
  set_protocol,
}
use rust_xpra.Client.ConnectDialog.Form.{submit}
use rust_xpra.Client.Session.Input.{
  Key, named, character, other_key, escape, enter, tab, arrow_down, arrow_up, space, backspace,
}

-- `a % m` on `i32`, which has the sign of `a`
abbrev pub rem : ℤ → ℕ → ℤ
rem (pos n) m = pos (n % m)
rem (negsuc n) m = sub_ℕ 0 (suc n % m)

-- `((current + delta) % count + count) % count`, as an index
abbrev pub wrap : ℕ → ℕ → ℤ → ℕ
wrap count current delta =
    to_unsigned (2 ^ 64) (rem (rem (pos current +ℤ delta) count +ℤ pos count) count)

-- `iter().position(|f| *f == focus)`, from the `i`th on
abbrev pub position : Focus → ℕ → List Focus → Option ℕ
position focus i [] = none
position focus i (f ∷ fs) =
    let rest = position focus (suc i) fs in if focus_eq f focus then some i else rest

abbrev pub or_zero : Option ℕ → ℕ
or_zero none = 0
or_zero (some n) = n

-- The index is below the length, by `wrap`.
unfoldable pub stepped : ℤ → Focus → Focus
stepped delta focus =
    get_or focus_order (wrap (length focus_order) (or_zero (position focus 0 focus_order)) delta)
      on_protocol

unfoldable pub step : ℤ → ConnectDialog → ConnectDialog
step delta s = record s { focus = stepped delta s.focus }

unfoldable pub step_or_protocol : ℤ → ConnectDialog → ConnectDialog
step_or_protocol delta s =
    if not (focus_eq s.focus on_protocol) && not s.dropdown
    then step delta s
    else set_protocol (wrap (length protocols) s.protocol delta) s

-- The characters that a field takes, up to its limit.
unfoldable pub type_text : Bool → ℕ → Bytes → Bytes → Bytes
type_text digits_only limit [] field = field
type_text digits_only limit (c ∷ text) field = type_text digits_only limit text (
    if is_control c || (digits_only && not (is_digit c))
    then field
    else if ltb (length field) limit
    then field ++ (c ∷ [])
    else field)

-- `field.pop()`
unfoldable pub pop : Bytes → Bytes
pop [] = []
pop (c ∷ []) = []
pop (c ∷ d ∷ s) = c ∷ pop (d ∷ s)

unfoldable pub typed : Option Bytes → ConnectDialog → ConnectAction × ConnectDialog
typed none s = (no_action, s)
typed (some text) s =
    let digits_only = focus_eq s.focus on_port in
    (
      no_action,
      field_mut (record s { status = no_status })
          (type_text digits_only (if digits_only then 5 else 128) text),
    )

unfoldable pub press_space : Focus → Option Bytes → ConnectDialog → ConnectAction × ConnectDialog
press_space focus text s =
    if text_field focus
    then typed text s
    else if focus_eq focus on_protocol
    then (no_action, record s { dropdown = not s.dropdown })
    else if focus_eq focus on_cancel
    then (cancel_action, s)
    else submit s

-- The key with the text that it types.
unfoldable pub edit_key : Key → Option Bytes → ConnectDialog → ConnectAction × ConnectDialog
edit_key (named escape) text s =
    if s.dropdown then (no_action, record s { dropdown = false }) else (cancel_action, s)
edit_key (named enter) text s =
    if s.dropdown
    then (no_action, record s { dropdown = false })
    else if focus_eq s.focus on_cancel
    then (cancel_action, s)
    else submit s
edit_key (named tab) text s =
    (no_action, step (if s.shift then negsuc 0 else pos 1) (record s { dropdown = false }))
edit_key (named arrow_down) text s = (no_action, step_or_protocol (pos 1) s)
edit_key (named arrow_up) text s = (no_action, step_or_protocol (negsuc 0) s)
edit_key (named space) text s = press_space s.focus text s
edit_key (named backspace) text s = (no_action, field_mut (record s { status = no_status }) pop)
edit_key (named k) text s = typed text s
edit_key (character c) text s = typed text s
edit_key other_key text s = typed text s

abbrev pub is_escape : Key → Bool
is_escape (named escape) = true
is_escape (named k) = false
is_escape (character c) = false
is_escape other_key = false

unfoldable pub key : Key → Option Bytes → ConnectDialog → ConnectAction × ConnectDialog
key k text s =
    if connecting s
    then (if is_escape k then cancel_action else no_action, s)
    else edit_key k text s

-- An event of the keyboard: whether the key is pressed, the key, and its text.
unfoldable pub handle_key :
    Display → Bool → Key → Option Bytes → ConnectDialog → ConnectAction × ConnectDialog
handle_key d true k text s = let (action, t) = key k text s in (action, draw d t)
handle_key d false k text s = (no_action, s)
