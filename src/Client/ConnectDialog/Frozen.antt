-- ===== src/Client/ConnectDialog/Frozen.antt =====
-- The form while a connection is made.
use rust_xpra.Prelude.{◌≡◌, refl, true, false, Option, if◌then◌else◌, Bytes}
use rust_xpra.Client.ConnectDialog.{
  ConnectDialog, no_action, cancel_action, Display, draw, connecting,
}
use rust_xpra.Client.ConnectDialog.Keys.{key, handle_key, is_escape}
use rust_xpra.Client.ConnectDialog.Pointer.{click, handle_mouse, rect_contains, button_rect}
use rust_xpra.Client.Session.Input.{Key, left_button}

-- While a connection is made, a key that is pressed changes nothing of the form but its size, and only
-- Escape does anything: it cancels.
pub handle_key-connecting :
    (d : Display) (k : Key) (text : Option Bytes) (s : ConnectDialog)
    → connecting s ≡ true
    → handle_key d true k text s ≡ (if is_escape k then cancel_action else no_action, draw d s)
unfolding handle_key key
handle_key-connecting d k text s h = rw h refl

-- While a connection is made, a click changes nothing of the form but its size, and only one on the
-- button Cancel does anything: it cancels.
pub handle_mouse-connecting :
    (d : Display) (s : ConnectDialog)
    → connecting s ≡ true
    → handle_mouse d true left_button s ≡ (
      if rect_contains (button_rect s false) s.pointer then cancel_action else no_action,
      draw d s,
    )
unfolding handle_mouse click
handle_mouse-connecting d s h = rw h refl
