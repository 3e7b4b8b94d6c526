-- ===== src/Client/Session/Input.antt =====
-- src/client/client.rs: the events of a window, and the names of keys, as compiled on Linux.

use rust_xpra.Prelude.{
  ℕ, ◌+◌, ◌%◌, ◌^◌, Bool, true, false, not, ◌&&◌, Option, none, some, List, [], ◌∷◌, if◌then◌else◌,
  Bytes, String, codes, bytes_eq,
}
use rust_xpra.Prelude.Int.{ℤ, pos, to_signed, to_unsigned}
use rust_xpra.Client.Session.{
  XpraWindow, Modifiers, resize, draw_screen, Env, Action, ◌>>=◌, ◌>>◌, pure, gets, assign,
  match_option, find_window, insert_window, call, when,
}
use rust_xpra.Client.Session.Send.{
  send_focus, send_window_configure, send_pointer_position, send_pointer_button, send_key_event,
  send_window_close,
}

-- The keys of winit that have a name, and the rest.
pub data NamedKey : Type 0 where
  enter tab space backspace delete escape arrow_up arrow_down arrow_left arrow_right home end
        page_up page_down :
      NamedKey
  insert shift control alt alt_graph super caps_lock num_lock scroll_lock context_menu print_screen
        pause_key :
      NamedKey
  f1 f2 f3 f4 f5 f6 f7 f8 f9 f10 f11 f12 unnamed : NamedKey

pub data Key : Type 0 where
  character : Bytes → Key
  named : NamedKey → Key
  other_key : Key

pub named_keyname : NamedKey → String
named_keyname enter = "Return"
named_keyname tab = "Tab"
named_keyname space = "space"
named_keyname backspace = "BackSpace"
named_keyname delete = "Delete"
named_keyname escape = "Escape"
named_keyname arrow_up = "Up"
named_keyname arrow_down = "Down"
named_keyname arrow_left = "Left"
named_keyname arrow_right = "Right"
named_keyname home = "Home"
named_keyname end = "End"
named_keyname page_up = "Prior"
named_keyname page_down = "Next"
named_keyname insert = "Insert"
named_keyname shift = "shift"
named_keyname control = "control"
named_keyname alt = "mod1"
named_keyname alt_graph = "mod5"
named_keyname super = "super"
named_keyname caps_lock = "Caps_Lock"
named_keyname num_lock = "Num_Lock"
named_keyname scroll_lock = "Scroll_Lock"
named_keyname f1 = "F1"
named_keyname f2 = "F2"
named_keyname f3 = "F3"
named_keyname f4 = "F4"
named_keyname f5 = "F5"
named_keyname f6 = "F6"
named_keyname f7 = "F7"
named_keyname f8 = "F8"
named_keyname f9 = "F9"
named_keyname f10 = "F10"
named_keyname f11 = "F11"
named_keyname f12 = "F12"
named_keyname context_menu = "Menu"
named_keyname print_screen = "Print"
named_keyname pause_key = "Pause"
named_keyname unnamed = ""

abbrev punctuation : List (String × String)
punctuation =
    ("-", "minus")
    ∷ ("=", "equal")
    ∷ (",", "comma")
    ∷ (".", "period")
    ∷ ("/", "slash")
    ∷ (";", "semicolon")
    ∷ ("'", "apostrophe")
    ∷ ("`", "grave")
    ∷ ("[", "bracketleft")
    ∷ ("]", "bracketright")
    ∷ ("\\", "backslash")
    ∷ []

-- A character that is no punctuation is its own name.
character_keyname : List (String × String) → Bytes → Bytes
character_keyname [] s = s
character_keyname ((c, name) ∷ rest) s =
    let later = character_keyname rest s in if bytes_eq s (codes c) then codes name else later

pub key_to_xpra_keyname : Key → Bytes
key_to_xpra_keyname (character s) = character_keyname punctuation s
key_to_xpra_keyname (named k) = codes (named_keyname k)
key_to_xpra_keyname other_key = []

-- `to_scancode` is winit's.
pub physical_key_to_xpra_keycode : Option ℕ → ℕ
physical_key_to_xpra_keycode (some scancode) = (scancode + 8) % 2 ^ 32
physical_key_to_xpra_keycode none = 0

pub keystr_of : Key → Bytes
keystr_of (character s) = s
keystr_of _ = []

pub data MouseButton : Type 0 where
  left_button middle_button right_button back_button forward_button : MouseButton
  other_button : ℕ → MouseButton

-- `n as i8` for a button of another number
pub xpra_button : MouseButton → ℤ
xpra_button left_button = pos 1
xpra_button middle_button = pos 2
xpra_button right_button = pos 3
xpra_button back_button = pos 8
xpra_button forward_button = pos 9
xpra_button (other_button n) = to_signed (2 ^ 7) (to_unsigned (2 ^ 8) (pos n))

-- The sign of a wheel's distance, which is all that is read of the `f32`.
pub data Turn : Type 0 where
  still forwards backwards : Turn

-- The events; a position of the pointer is what `absolute_position` makes of it.
pub data WindowEvent : Type 0 where
  focused : Bool → WindowEvent
  moved_or_resized : WindowEvent
  redraw_requested : WindowEvent
  cursor_moved : ℤ → ℤ → WindowEvent
  mouse_input : Bool → MouseButton → WindowEvent
  mouse_wheel : (dx dy : Turn) → WindowEvent
  modifiers_changed : Modifiers → WindowEvent
  keyboard_input : Bool → Option ℕ → Key → WindowEvent
  close_requested : WindowEvent
  unhandled : WindowEvent

abbrev is_remote : Option XpraWindow → Bool
is_remote none = false
is_remote (some w) = not w.override_redirect

abbrev moved_to : ℤ → ℤ → XpraWindow → XpraWindow
moved_to x y w = record w { last_cursor = (x, y) }

module _ (env : Env) (wid : ℕ) where
  -- A button is pressed and released for a turn of the wheel.
  unfoldable pub click : ℤ → ℤ × ℤ → Action Unit
  click button (x, y) = do
    send_pointer_button env wid button true x y
    send_pointer_button env wid button false x y

  unfoldable pub turn_wheel : Turn → ℤ → ℤ → ℤ × ℤ → Action Unit
  turn_wheel still up down at = pure tt
  turn_wheel forwards up down at = click up at
  turn_wheel backwards up down at = click down at

  abbrev with_event_window : (XpraWindow → Action Unit) → Action Unit
  with_event_window f = do
    windows ← gets (λ s. s.windows)
    match_option (find_window windows wid) (pure tt) f

  unfoldable pub handle_window_event : WindowEvent → Action Unit
  handle_window_event (focused is_focused) = do
    windows ← gets (λ s. s.windows)
    when (is_focused && is_remote (find_window windows wid)) (send_focus env wid)
  handle_window_event moved_or_resized = with_event_window (λ window. do
    let (width, height) = env.inner_size wid
    let (x, y, w, h) = env.get_geometry wid
    call wid (resize width height)
    send_window_configure env wid x y w h)
  handle_window_event redraw_requested = with_event_window (λ window. call wid draw_screen)
  handle_window_event (cursor_moved x y) = with_event_window (λ window. do
    assign (λ s. record s { windows = insert_window s.windows wid (moved_to x y window) })
    send_pointer_position env wid x y)
  handle_window_event (mouse_input pressed button) = with_event_window (λ window.
      send_pointer_button env wid (xpra_button button) pressed window.last_cursor.0
        window.last_cursor.1)
  handle_window_event (mouse_wheel dx dy) = with_event_window (λ window. do
    turn_wheel dy (pos 4) (pos 5) window.last_cursor
    turn_wheel dx (pos 6) (pos 7) window.last_cursor)
  handle_window_event (modifiers_changed state) = assign (λ s. record s { modifiers = state })
  handle_window_event (keyboard_input pressed scancode key) =
      send_key_event env wid (physical_key_to_xpra_keycode scancode) (key_to_xpra_keyname key)
        (keystr_of key) pressed
  handle_window_event close_requested = send_window_close env wid
  handle_window_event unhandled = pure tt
