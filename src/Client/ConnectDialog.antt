-- ===== src/Client/ConnectDialog.antt =====
-- src/client/connect_dialog.rs: the form that asks for a target. A text is the list of its
-- characters. The `f64` arithmetic of the display's scale is a parameter, `px`, and what is painted
-- is left out: a redraw takes over the size and the scale of the window.
pub mod Form
pub mod Pointer
pub mod Keys
pub mod Order
pub mod Fields
pub mod Events
pub mod Frozen
pub mod Submit
pub mod Submitted
mod Tests
use rust_xpra.Prelude.{
  ℕ, Bool, true, false, Option, none, List, [], ◌∷◌, Bytes, String, get_or, ◌==◌, max,
  if◌then◌else◌,
}
use rust_xpra.Prelude.Int.{ℤ, negsuc}
use rust_xpra.Prelude.Decimal.{decimal}

abbrev pub protocols : List (String × ℕ)
protocols = ("tcp", 10000) ∷ ("ssl", 10000) ∷ ("ws", 10000) ∷ ("wss", 10000) ∷ ("ssh", 22) ∷ []

-- `PROTOCOLS[index]`, for an index that is below five
abbrev pub protocol_at : ℕ → String × ℕ
protocol_at index = get_or protocols index ("", 0)

pub record ConnectDetails : Type 0 where
  pub uri : Bytes
  pub username : Option Bytes
  pub password : Option Bytes

pub data ConnectAction : Type 0 where
  no_action cancel_action : ConnectAction
  connect_action : ConnectDetails → ConnectAction

pub data Status : Type 0 where
  no_status : Status
  error_status : Bytes → Status
  connecting_status : Bytes → Status

pub data Focus : Type 0 where
  on_protocol on_host on_port on_username on_password on_cancel on_connect : Focus

abbrev pub focus_order : List Focus
focus_order =
    on_protocol ∷ on_host ∷ on_port ∷ on_username ∷ on_password ∷ on_cancel ∷ on_connect ∷ []

-- The discriminant, by which the derived equality compares.
abbrev pub focus_index : Focus → ℕ
focus_index on_protocol = 0
focus_index on_host = 1
focus_index on_port = 2
focus_index on_username = 3
focus_index on_password = 4
focus_index on_cancel = 5
focus_index on_connect = 6

abbrev pub focus_eq : Focus → Focus → Bool
focus_eq f g = focus_index f == focus_index g

abbrev pub text_field : Focus → Bool
text_field on_host = true
text_field on_port = true
text_field on_username = true
text_field on_password = true
text_field _ = false

pub record ConnectDialog : Type 0 where
  pub width : ℕ
  pub height : ℕ
  pub px : ℤ → ℤ
  pub protocol : ℕ
  pub dropdown : Bool
  pub host : Bytes
  pub port : Bytes
  pub username : Bytes
  pub password : Bytes
  pub focus : Focus
  pub shift : Bool
  pub pointer : ℤ × ℤ
  pub status : Status

-- What a redraw asks of the window: `inner_size`, and the scaling that `scale_factor` makes.
pub record Display : Type 0 where
  pub inner_size : ℕ × ℕ
  pub scaled : ℤ → ℤ

unfoldable pub draw : Display → ConnectDialog → ConnectDialog
draw d s = record s { width = max d.inner_size.0 1; height = max d.inner_size.1 1; px = d.scaled }

-- `ConnectDialog::new`, once there are a window and a surface
pub new : Display → ConnectDialog
unfolding draw
new d = draw d (record {
  width = max d.inner_size.0 1;
  height = max d.inner_size.1 1;
  px = λ z. z;
  protocol = 0;
  dropdown = false;
  host = [];
  port = decimal 5 (protocol_at 0).1;
  username = [];
  password = [];
  focus = on_host;
  shift = false;
  pointer = (negsuc 0, negsuc 0);
  status = no_status;
})

unfoldable pub set_error : Display → Bytes → ConnectDialog → ConnectDialog
set_error d message s = draw d (record s { status = error_status message })

unfoldable pub set_connecting : Display → Bytes → ConnectDialog → ConnectDialog
set_connecting d uri s = draw d (record s { status = connecting_status uri })

abbrev pub connecting : ConnectDialog → Bool
connecting s = is_connecting s.status
  where
    is_connecting : Status → Bool
    is_connecting (connecting_status uri) = true
    is_connecting _ = false

unfoldable pub set_modifiers : Bool → ConnectDialog → ConnectDialog
set_modifiers shift_key s = record s { shift = shift_key }

-- `position.x as i32` is the caller's.
unfoldable pub set_pointer : ℤ × ℤ → ConnectDialog → ConnectDialog
set_pointer position s = record s { pointer = position }

-- An edit of the field that has the focus, if it takes typed text.
pub edit_field : Focus → (Bytes → Bytes) → ConnectDialog → ConnectDialog
edit_field on_host f s = record s { host = f s.host }
edit_field on_port f s = record s { port = f s.port }
edit_field on_username f s = record s { username = f s.username }
edit_field on_password f s = record s { password = f s.password }
edit_field _ f s = s

abbrev pub field_mut : ConnectDialog → (Bytes → Bytes) → ConnectDialog
field_mut s f = edit_field s.focus f s

pub set_protocol : ℕ → ConnectDialog → ConnectDialog
set_protocol index s =
    if index == s.protocol
    then s
    else record s { protocol = index; port = decimal 5 (protocol_at index).1 }
