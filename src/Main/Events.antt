-- ===== src/Main/Events.antt =====
-- src/main.rs: what the events of the loop do, to the form or to the session.

use rust_xpra.Prelude.{
  ℕ, Bool, true, false, ◌&&◌, Option, none, some, if◌then◌else◌, leb, Bytes, codes, bytes_eq,
}
use rust_xpra.Prelude.Int.{ℤ}
use rust_xpra.Net.Packet.{Packet, len, get_str}
use rust_xpra.Client.Session.{Env, Action, ok_code}
use rust_xpra.Client.Session.Challenge.{submit_password, cancel_auth}
use rust_xpra.Client.Session.Dispatch.{user_event, resumed}
use rust_xpra.Client.Session.Input.{WindowEvent, handle_window_event, Key, MouseButton}
use rust_xpra.Client.ConnectDialog.{
  ConnectDialog, ConnectAction, no_action, cancel_action, connect_action, draw, set_modifiers,
  set_pointer,
}
use rust_xpra.Client.ConnectDialog.Keys.{handle_key}
use rust_xpra.Client.ConnectDialog.Pointer.{handle_mouse}
use rust_xpra.Main.Connect.{Streams}
use rust_xpra.Main.App.{
  AppState, prompt, session, App, AppEnv, dialog, quit, show_dialog, start_connect, finish_connect,
  run_client,
}

-- The events of the form's window.
pub data DialogEvent : Type 0 where
  redraw_requested resized scale_factor_changed close_requested other_event : DialogEvent
  modifiers_changed : (shift_key : Bool) → DialogEvent
  cursor_moved : (position : ℤ × ℤ) → DialogEvent
  mouse_input : (pressed : Bool) (button : MouseButton) → DialogEvent
  keyboard_input : (is_synthetic pressed : Bool) (key : Key) (text : Option Bytes) → DialogEvent

-- An event with the window that it is for: the form, a window of the server's, or the password dialog,
-- where it ends in a password or in a refusal.
pub data AnyEvent : Type 0 where
  for_form : DialogEvent → AnyEvent
  for_window : ℕ → WindowEvent → AnyEvent
  for_password : Option Bytes → AnyEvent

abbrev pub connect_result : Option Bytes → Bool
connect_result none = false
connect_result (some kind) = bytes_eq kind (codes "connect-result")

-- `XpraClient::window_event`, once the window is known.
unfoldable pub client_event : Env → AnyEvent → Action Unit
client_event env (for_form e) s = some (tt, s)
client_event env (for_window wid e) s = handle_window_event env wid e s
client_event env (for_password (some password)) s = submit_password env password s
client_event env (for_password none) s = cancel_auth s

module _ {t : Streams} where
  unfoldable pub act : AppEnv t → ConnectAction → App t → App t
  act env no_action app = app
  act env cancel_action app = quit ok_code app
  act env (connect_action details) app = start_connect env details app

  -- A handler of the form that reports an action.
  abbrev pub report : AppEnv t → App t → ConnectAction × ConnectDialog → App t
  report env app (action, form) = act env action (record app { state = prompt (some form) })

  unfoldable pub handle_form : AppEnv t → DialogEvent → ConnectDialog → App t → App t
  handle_form env redraw_requested form app = record app {
    state = prompt (some (draw env.display form));
  }
  handle_form env resized form app = record app { state = prompt (some (draw env.display form)) }
  handle_form env scale_factor_changed form app = record app {
    state = prompt (some (draw env.display form));
  }
  handle_form env (modifiers_changed b) form app = record app {
    state = prompt (some (set_modifiers b form));
  }
  handle_form env (cursor_moved p) form app = record app {
    state = prompt (some (set_pointer p form));
  }
  handle_form env (mouse_input pressed button) form app =
      report env app (handle_mouse env.display pressed button form)
  handle_form env (keyboard_input true pressed k text) form app = app
  handle_form env (keyboard_input false pressed k text) form app =
      report env app (handle_key env.display pressed k text form)
  handle_form env close_requested form app = act env cancel_action app
  handle_form env other_event form app = app

  unfoldable pub handle_dialog_event : AppEnv t → DialogEvent → App t → App t
  handle_dialog_event env e app = elim (dialog app.state) [
    | none ↦ app
    | some form ↦ handle_form env e form app
  ]

  unfoldable pub resumed_in : AppEnv t → AppState t → App t → Option (App t)
  resumed_in env (session connection target client) app =
      run_client app connection target (resumed env.client client)
  resumed_in env (prompt (some form)) app = some app
  resumed_in env (prompt none) app = some (show_dialog env app)

  unfoldable pub app_resumed : AppEnv t → App t → Option (App t)
  app_resumed env app = resumed_in env app.state app

  unfoldable pub user_event_in : AppEnv t → Packet → AppState t → App t → Option (App t)
  user_event_in env p (session connection target client) app =
      run_client app connection target (user_event env.client p client)
  user_event_in env p (prompt form) app =
      let finished = finish_connect env app in
      if leb 1 (len p) && connect_result (get_str p 0) then finished else some app

  unfoldable pub app_user_event : AppEnv t → Packet → App t → Option (App t)
  app_user_event env p app = user_event_in env p app.state app

  unfoldable pub window_event_in : AppEnv t → AnyEvent → AppState t → App t → Option (App t)
  window_event_in env e (session connection target client) app =
      run_client app connection target (client_event env.client e client)
  window_event_in env (for_form e) (prompt form) app = some (handle_dialog_event env e app)
  window_event_in env _ (prompt form) app = some app

  unfoldable pub app_window_event : AppEnv t → AnyEvent → App t → Option (App t)
  app_window_event env e app = window_event_in env e app.state app
