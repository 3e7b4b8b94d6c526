-- ===== src/Client/ConnectDialog/Pointer.antt =====
-- Where the form's parts stand, and what a click on them does.
use rust_xpra.Prelude.{
  ℕ, zero, suc, ◌^◌, Bool, true, false, ◌&&◌, Option, none, some, List, [], ◌∷◌, if◌then◌else◌,
  length,
}
use rust_xpra.Prelude.Int.{ℤ, pos, ◌+ℤ◌, ◌-ℤ◌, ◌*ℤ◌, max_ℤ, ltb_ℤ, leb_ℤ, to_signed, to_unsigned}
use rust_xpra.Client.ConnectDialog.{
  ConnectDialog, ConnectAction, no_action, cancel_action, Focus, on_protocol, on_host, on_port,
  on_username, on_password, on_connect, protocols, Display, draw, connecting, set_protocol,
}
use rust_xpra.Client.ConnectDialog.Form.{submit}
use rust_xpra.Client.Session.Input.{MouseButton, left_button}

pub record Rect : Type 0 where
  pub x : ℤ
  pub y : ℤ
  pub w : ℤ
  pub h : ℤ

-- The arithmetic of `i32`
abbrev i32 : ℤ → ℤ
i32 z = to_signed (2 ^ 31) (to_unsigned (2 ^ 32) z)

unfoldable pub rect_contains : Rect → ℤ × ℤ → Bool
rect_contains r (px, py) =
    leb_ℤ r.x px && ltb_ℤ px (i32 (r.x +ℤ r.w)) && leb_ℤ r.y py && ltb_ℤ py (i32 (r.y +ℤ r.h))

pub field_rect : ConnectDialog → ℕ → Rect
field_rect s row = record {
  x = s.px (pos 96);
  y = s.px (pos 44 +ℤ pos 32 *ℤ pos row);
  w = max_ℤ (i32 (pos s.width -ℤ s.px (pos 16) -ℤ s.px (pos 96))) (s.px (pos 60));
  h = s.px (pos 24);
}

pub item_rect : ConnectDialog → ℕ → Rect
item_rect s index =
    let field = field_rect s 0 in
    record {
      x = field.x;
      y = i32 (field.y +ℤ field.h +ℤ s.px (pos 22) *ℤ pos index);
      w = field.w;
      h = s.px (pos 22);
    }

unfoldable pub button_rect : ConnectDialog → Bool → Rect
button_rect s connect =
    let right = i32 (pos s.width -ℤ s.px (pos 16)) in
    record {
      x =
          if connect
          then i32 (right -ℤ s.px (pos 80))
          else i32 (right -ℤ pos 2 *ℤ s.px (pos 80) -ℤ s.px (pos 12));
      y = i32 (pos s.height -ℤ s.px (pos 16) -ℤ s.px (pos 26));
      w = s.px (pos 80);
      h = s.px (pos 26);
    }

-- The first of the `n` rows of the open list, from the `index`th on, that the pointer is on.
unfoldable pub choose_item : ConnectDialog → ℕ → ℕ → ConnectDialog
choose_item s zero index = s
choose_item s (suc n) index =
    let rest = choose_item s n (suc index) in
    if rect_contains (item_rect s index) s.pointer then set_protocol index s else rest

-- The first of the rows that the pointer is on.
pub row_at : ConnectDialog → List (ℕ × Focus) → Option Focus
row_at s [] = none
row_at s ((row, focus) ∷ rows) =
    let rest = row_at s rows in
    if rect_contains (field_rect s row) s.pointer then some focus else rest

abbrev pub rows : List (ℕ × Focus)
rows = (1, on_host) ∷ (2, on_port) ∷ (3, on_username) ∷ (4, on_password) ∷ []

unfoldable pub click_button : ConnectDialog → ConnectAction × ConnectDialog
click_button s =
    if rect_contains (button_rect s false) s.pointer
    then (cancel_action, s)
    else if rect_contains (button_rect s true) s.pointer
    then submit (record s { focus = on_connect })
    else (no_action, s)

unfoldable pub click_field : ConnectDialog → Option Focus → ConnectAction × ConnectDialog
click_field s (some focus) = (no_action, record s { focus = focus })
click_field s none = click_button s

unfoldable pub click : ConnectDialog → ConnectAction × ConnectDialog
click s =
    if connecting s
    then (if rect_contains (button_rect s false) s.pointer then cancel_action else no_action, s)
    else if s.dropdown
    then (no_action, record (choose_item s (length protocols) 0) { dropdown = false })
    else if rect_contains (field_rect s 0) s.pointer
    then (no_action, record s { focus = on_protocol; dropdown = true })
    else click_field s (row_at s rows)

unfoldable pub handle_mouse :
    Display → Bool → MouseButton → ConnectDialog → ConnectAction × ConnectDialog
handle_mouse d true left_button s = let (action, t) = click s in (action, draw d t)
handle_mouse d _ _ s = (no_action, s)
