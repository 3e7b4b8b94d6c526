-- ===== src/Client/ConnectDialog/Events.antt =====
-- Every state of the form that events lead to.
use rust_xpra.Prelude.{
  ℕ, zero, suc, ◌+◌, ◌≤◌, ◌<◌, Bool, true, false, not, ◌&&◌, Bool-cases, inl, inr, Option, none,
  some, arith, if◌then◌else◌, Bytes, is_empty, ◌==◌, ◌^◌,
}
use rust_xpra.Prelude.Int.{ℤ, pos, negsuc, ◌+ℤ◌, to_unsigned}
use rust_xpra.Prelude.Decimal.{decimal, AreDigits-decimal}
use rust_xpra.Client.ConnectDialog.{
  ConnectDialog, ConnectAction, Focus, on_protocol, on_cancel, on_connect, protocol_at,
  set_protocol, Display, draw, new, set_error, set_connecting, set_modifiers, set_pointer,
  connecting, focus_eq, text_field,
}
use rust_xpra.Client.ConnectDialog.Form.{submit, connect_details, trim, port_of, is_invalid_host}
use rust_xpra.Client.ConnectDialog.Keys.{
  step_or_protocol, step, rem, wrap, typed, press_space, edit_key, key, handle_key,
}
use rust_xpra.Client.ConnectDialog.Pointer.{
  choose_item, click, click_field, click_button, row_at, rows, handle_mouse, rect_contains,
  item_rect, field_rect, button_rect,
}
use rust_xpra.Client.ConnectDialog.Fields.{
  IsForm, IsPort, IsForm-edit_field, IsEdit-pop, IsEdit-type_text,
}
use rust_xpra.Client.Session.Input.{
  Key, named, character, other_key, escape, enter, tab, arrow_down, arrow_up, space, backspace,
  MouseButton, left_button,
}

default-IsPort : (index : ℕ) → index < 5 → IsPort (decimal 5 (protocol_at index).1)
unfolding decimal
default-IsPort zero l = (AreDigits-decimal 5 10000, omega arith)
default-IsPort (suc zero) l = (AreDigits-decimal 5 10000, omega arith)
default-IsPort (suc (suc zero)) l = (AreDigits-decimal 5 10000, omega arith)
default-IsPort (suc (suc (suc zero))) l = (AreDigits-decimal 5 10000, omega arith)
default-IsPort (suc (suc (suc (suc zero)))) l = (AreDigits-decimal 5 22, omega arith)
default-IsPort (suc (suc (suc (suc (suc n))))) l = absurd (omega arith)

IsForm-set_protocol :
    (index : ℕ) (s : ConnectDialog) → index < 5 → IsForm s → IsForm (set_protocol index s)
unfolding set_protocol
IsForm-set_protocol index s l h = elim (Bool-cases (index == s.protocol)) [
  | inl e ↦ rw e h
  | inr e ↦ rw e (record {
    protocol_bound = l;
    is_port = default-IsPort index l;
    is_host = h.is_host;
    is_username = h.is_username;
    is_password = h.is_password;
  })
]

-- On either side of `delta`, the sum of the two is not negative.
wrapped : (z : ℤ) → to_unsigned (2 ^ 64) (rem (rem z 5 +ℤ pos 5) 5) < 5
unfolding ◌+ℤ◌
wrapped (pos n) = ground arith
wrapped (negsuc n) = ground arith

IsForm-step_or_protocol :
    (delta : ℤ) (s : ConnectDialog) → IsForm s → IsForm (step_or_protocol delta s)
unfolding step_or_protocol step
IsForm-step_or_protocol delta s h =
    elim (Bool-cases (not (focus_eq s.focus on_protocol) && not s.dropdown)) [
      | inl e ↦ rw e h
      | inr e ↦
          rw e
            (IsForm-set_protocol (wrap 5 s.protocol delta) s (wrapped (pos s.protocol +ℤ delta)) h)
    ]

IsForm-if :
    (b : Bool) (r t : ConnectAction × ConnectDialog)
    → IsForm r.1
    → IsForm t.1
    → IsForm (if b then r else t).1
IsForm-if true r t h k = h
IsForm-if false r t h k = k

IsForm-connect_details :
    (s : ConnectDialog) (host : Bytes) (o : Option ℕ)
    → IsForm s
    → IsForm (connect_details s host o).1
unfolding connect_details
IsForm-connect_details s host none h = h
IsForm-connect_details s host (some port) h = h

IsForm-submit : (s : ConnectDialog) → IsForm s → IsForm (submit s).1
unfolding submit
IsForm-submit s h = IsForm-if (is_empty (trim s.host)) _ _ h (
    IsForm-if (is_invalid_host (trim s.host)) _ _ h
      (IsForm-connect_details s (trim s.host) (port_of (trim s.port)) h))

IsForm-typed : (text : Option Bytes) (s : ConnectDialog) → IsForm s → IsForm (typed text s).1
unfolding typed
IsForm-typed none s h = h
IsForm-typed (some text) s h = IsForm-edit_field s.focus _ _ (IsEdit-type_text s.focus text) h

IsForm-press_space :
    (focus : Focus) (text : Option Bytes) (s : ConnectDialog)
    → IsForm s
    → IsForm (press_space focus text s).1
unfolding press_space
IsForm-press_space focus text s h = IsForm-if (text_field focus) _ _ (IsForm-typed text s h) (
    IsForm-if (focus_eq focus on_protocol) _ _ h
      (IsForm-if (focus_eq focus on_cancel) _ _ h (IsForm-submit s h)))

IsForm-edit_key :
    (k : Key) (text : Option Bytes) (s : ConnectDialog) → IsForm s → IsForm (edit_key k text s).1
unfolding edit_key step
IsForm-edit_key (character c) text s h = IsForm-typed text s h
IsForm-edit_key other_key text s h = IsForm-typed text s h
IsForm-edit_key (named escape) text s h = IsForm-if s.dropdown _ _ h h
IsForm-edit_key (named enter) text s h =
    IsForm-if s.dropdown _ _ h (IsForm-if (focus_eq s.focus on_cancel) _ _ h (IsForm-submit s h))
IsForm-edit_key (named tab) text s h = h
IsForm-edit_key (named arrow_down) text s h = IsForm-step_or_protocol (pos 1) s h
IsForm-edit_key (named arrow_up) text s h = IsForm-step_or_protocol (negsuc 0) s h
IsForm-edit_key (named space) text s h = IsForm-press_space s.focus text s h
IsForm-edit_key (named backspace) text s h = IsForm-edit_field s.focus _ _ (IsEdit-pop s.focus) h
IsForm-edit_key (named k) text s h = IsForm-typed text s h

IsForm-key :
    (k : Key) (text : Option Bytes) (s : ConnectDialog) → IsForm s → IsForm (key k text s).1
unfolding key
IsForm-key k text s h = IsForm-if (connecting s) _ _ h (IsForm-edit_key k text s h)

pub IsForm-handle_key :
    (d : Display) (pressed : Bool) (k : Key) (text : Option Bytes) (s : ConnectDialog)
    → IsForm s
    → IsForm (handle_key d pressed k text s).1
unfolding handle_key draw
IsForm-handle_key d true k text s h = IsForm-key k text s h
IsForm-handle_key d false k text s h = h

IsForm-choose_item :
    (s : ConnectDialog) (n index : ℕ) → n + index ≤ 5 → IsForm s → IsForm (choose_item s n index)
unfolding choose_item
IsForm-choose_item s zero index l h = h
IsForm-choose_item s (suc n) index l h =
    elim (Bool-cases (rect_contains (item_rect s index) s.pointer)) [
      | inl e ↦ rw e (IsForm-set_protocol index s (omega arith) h)
      | inr e ↦ rw e (IsForm-choose_item s n (suc index) (omega arith) h)
    ]

IsForm-click_button : (s : ConnectDialog) → IsForm s → IsForm (click_button s).1
unfolding click_button
IsForm-click_button s h = IsForm-if (rect_contains (button_rect s false) s.pointer) _ _ h (
    IsForm-if (rect_contains (button_rect s true) s.pointer) _ _
      (IsForm-submit (record s { focus = on_connect }) h) h)

IsForm-click_field : (s : ConnectDialog) (o : Option Focus) → IsForm s → IsForm (click_field s o).1
unfolding click_field
IsForm-click_field s (some focus) h = h
IsForm-click_field s none h = IsForm-click_button s h

IsForm-click : (s : ConnectDialog) → IsForm s → IsForm (click s).1
unfolding click
IsForm-click s h = IsForm-if (connecting s) _ _ h (
    IsForm-if s.dropdown _ _ (IsForm-choose_item s 5 0 (omega arith) h) (
      IsForm-if (rect_contains (field_rect s 0) s.pointer) _ _ h
        (IsForm-click_field s (row_at s rows) h)))

pub IsForm-handle_mouse :
    (d : Display) (pressed : Bool) (b : MouseButton) (s : ConnectDialog)
    → IsForm s
    → IsForm (handle_mouse d pressed b s).1
unfolding handle_mouse draw
IsForm-handle_mouse d true left_button s h = IsForm-click s h
IsForm-handle_mouse d _ _ s h = h

-- The states that the events of the window lead to, and the outcomes that are reported.
pub data Reached : ConnectDialog → Type 0 where
  opened : (d : Display) → Reached (new d)
  redrawn : (d : Display) {s : ConnectDialog} → Reached s → Reached (draw d s)
  keyed :
      (d : Display) (pressed : Bool) (k : Key) (text : Option Bytes) {s : ConnectDialog}
      → Reached s
      → Reached (handle_key d pressed k text s).1
  clicked :
      (d : Display) (pressed : Bool) (b : MouseButton) {s : ConnectDialog}
      → Reached s
      → Reached (handle_mouse d pressed b s).1
  shifted : (shift_key : Bool) {s : ConnectDialog} → Reached s → Reached (set_modifiers shift_key s)
  pointed : (position : ℤ × ℤ) {s : ConnectDialog} → Reached s → Reached (set_pointer position s)
  failed :
      (d : Display) (message : Bytes) {s : ConnectDialog}
      → Reached s
      → Reached (set_error d message s)
  tried :
      (d : Display) (uri : Bytes) {s : ConnectDialog} → Reached s → Reached (set_connecting d uri s)

-- Whatever happens, a protocol of the list is chosen, the port has at most five characters, all
-- digits, and the other fields have at most 128 characters, none of them a control character.
pub Reached-IsForm : {s : ConnectDialog} → Reached s → IsForm s
unfolding new draw set_modifiers set_pointer set_error set_connecting
Reached-IsForm (opened d) = record {
  protocol_bound = omega arith;
  is_port = default-IsPort 0 (omega arith);
  is_host = (tt, omega arith);
  is_username = (tt, omega arith);
  is_password = (tt, omega arith);
}
Reached-IsForm (redrawn d r) = Reached-IsForm r
Reached-IsForm (keyed d pressed k text r) = IsForm-handle_key d pressed k text _ (Reached-IsForm r)
Reached-IsForm (clicked d pressed b r) = IsForm-handle_mouse d pressed b _ (Reached-IsForm r)
Reached-IsForm (shifted b r) = Reached-IsForm r
Reached-IsForm (pointed p r) = Reached-IsForm r
Reached-IsForm (failed d m r) = Reached-IsForm r
Reached-IsForm (tried d u r) = Reached-IsForm r
