-- ===== src/Client/Session/Handlers/Inputs.antt =====
-- The events of a window advance the session.
use rust_xpra.Prelude.{ℕ, Bool, Bytes}
use rust_xpra.Prelude.Int.{ℤ}
use rust_xpra.Client.Session.{Env}
use rust_xpra.Client.Session.Later.{Advances, Advances-pure, advances}
use rust_xpra.Client.Session.Send.{
  send_focus, send_window_configure, send_pointer_position, send_pointer_button, send_key_event,
  send_window_close,
}
use rust_xpra.Client.Session.Input.{
  Turn, still, forwards, backwards, WindowEvent, focused, moved_or_resized, redraw_requested,
  cursor_moved, mouse_input, mouse_wheel, modifiers_changed, keyboard_input, close_requested,
  unhandled, click, turn_wheel, handle_window_event,
}
use rust_xpra.Client.Session.Handlers.{Advances-call}

module _ (env : Env) (wid : ℕ) where
  Advances-send_focus : Advances (send_focus env wid)
  unfolding send_focus
  Advances-send_focus = search advances depth 40

  Advances-send_window_configure :
      (x y : ℤ) (w h : ℕ) → Advances (send_window_configure env wid x y w h)
  unfolding send_window_configure
  Advances-send_window_configure x y w h = search advances depth 40

  Advances-send_pointer_position : (x y : ℤ) → Advances (send_pointer_position env wid x y)
  unfolding send_pointer_position
  Advances-send_pointer_position x y = search advances depth 40

  Advances-send_pointer_button :
      (button : ℤ) (pressed : Bool) (x y : ℤ)
      → Advances (send_pointer_button env wid button pressed x y)
  unfolding send_pointer_button
  Advances-send_pointer_button button pressed x y = search advances depth 40

  Advances-send_key_event :
      (keycode : ℕ) (keyname keystr : Bytes) (pressed : Bool)
      → Advances (send_key_event env wid keycode keyname keystr pressed)
  unfolding send_key_event
  Advances-send_key_event keycode keyname keystr pressed = search advances depth 40

  Advances-send_window_close : Advances (send_window_close env wid)
  unfolding send_window_close
  Advances-send_window_close = search advances depth 40

  Advances-click : (button : ℤ) (at : ℤ × ℤ) → Advances (click env wid button at)
  unfolding click
  Advances-click button (x, y) = search (advances, Advances-send_pointer_button) depth 40

  Advances-turn_wheel :
      (t : Turn) (up down : ℤ) (at : ℤ × ℤ) → Advances (turn_wheel env wid t up down at)
  unfolding turn_wheel
  Advances-turn_wheel still up down at = Advances-pure tt
  Advances-turn_wheel forwards up down at = Advances-click up at
  Advances-turn_wheel backwards up down at = Advances-click down at

  pub Advances-handle_window_event : (e : WindowEvent) → Advances (handle_window_event env wid e)
  unfolding handle_window_event
  Advances-handle_window_event (focused b) = search (advances, Advances-send_focus) depth 40
  Advances-handle_window_event moved_or_resized =
      search (advances, Advances-call, Advances-send_window_configure) depth 40
  Advances-handle_window_event redraw_requested = search (advances, Advances-call) depth 40
  Advances-handle_window_event (cursor_moved x y) =
      search (advances, Advances-send_pointer_position) depth 40
  Advances-handle_window_event (mouse_input pressed button) =
      search (advances, Advances-send_pointer_button) depth 40
  Advances-handle_window_event (mouse_wheel dx dy) = search (advances, Advances-turn_wheel) depth 40
  Advances-handle_window_event (modifiers_changed state) = search advances depth 40
  Advances-handle_window_event (keyboard_input pressed scancode key) =
      search (advances, Advances-send_key_event) depth 40
  Advances-handle_window_event close_requested =
      search (advances, Advances-send_window_close) depth 40
  Advances-handle_window_event unhandled = Advances-pure tt
