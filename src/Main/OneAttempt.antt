-- ===== src/Main/OneAttempt.antt =====
-- Every event of the loop, and the attempts to connect.
use rust_xpra.Prelude.{
  ◌≡◌, refl, sym, ap, ◌∙◌, Bool, true, false, ◌&&◌, inl, inr, Option, none, some, Option-cases,
  arith, Bytes, leb,
}
use rust_xpra.Net.Packet.{Packet, len, get_str}
use rust_xpra.Client.ConnectDialog.{
  ConnectDialog, no_action, Display, draw, set_modifiers, set_pointer, connecting,
}
use rust_xpra.Client.ConnectDialog.Keys.{handle_key, key}
use rust_xpra.Client.ConnectDialog.Pointer.{handle_mouse, click}
use rust_xpra.Client.Session.Input.{Key, MouseButton, left_button}
use rust_xpra.Main.Connect.{Streams}
use rust_xpra.Main.App.{AppState, prompt, session, App, AppEnv, quit, emit, dialog, finish_connect}
use rust_xpra.Main.Events.{
  DialogEvent, modifiers_changed, cursor_moved, mouse_input, keyboard_input, close_requested,
  redraw_requested, resized, scale_factor_changed, other_event, AnyEvent, for_form, for_window,
  for_password, act, handle_form, handle_dialog_event, connect_result, resumed_in, user_event_in,
  window_event_in, app_resumed, app_user_event, app_window_event,
}
use rust_xpra.Main.Run.{LoopEvent, on_resumed, on_packet, on_window, app_event}
use rust_xpra.Main.Attempts.{
  is_some, is_waiting, IsApp, IsNext, IfSome, holds, attempts-quit, is_connect, IfSome-if, still,
  session-IsNext, show_dialog-IsNext, finish_with_done, report-IsNext,
}

-- What a frozen form does with a click or a key.
clicked :
    (d : Display) (pressed : Bool) (button : MouseButton) (form : ConnectDialog)
    → connecting form ≡ true
    → (is_connect (handle_mouse d pressed button form).0 ≡ false)
      × (connecting (handle_mouse d pressed button form).1 ≡ true)
unfolding handle_mouse click draw
clicked d true left_button form c = ground (arith, c)
clicked d _ _ form c = (refl, c)

keyed :
    (d : Display) (pressed : Bool) (k : Key) (text : Option Bytes) (form : ConnectDialog)
    → connecting form ≡ true
    → (is_connect (handle_key d pressed k text form).0 ≡ false)
      × (connecting (handle_key d pressed k text form).1 ≡ true)
unfolding handle_key key draw
keyed d true k text form c = ground (arith, c)
keyed d false k text form c = (refl, c)

module _ {t : Streams} where
  same : (app : App t) → IsApp app → IsNext app app
  same app h = still app app h refl refl h.waiting refl

  redrawn :
      (env : AppEnv t) (form : ConnectDialog) (app : App t)
      → IsApp app
      → app.state ≡ prompt (some form)
      → IsNext app (record app { state = prompt (some (draw env.display form)) })
  unfolding draw
  redrawn env form app h p =
      still app _ h refl refl (ap (λ s. is_waiting s (is_some app.pending)) (sym p) ∙ h.waiting)
        refl

  handle_form-IsNext :
      (env : AppEnv t) (e : DialogEvent) (form : ConnectDialog) (app : App t)
      → IsApp app
      → app.state ≡ prompt (some form)
      → IsNext app (handle_form env e form app)
  unfolding handle_form set_modifiers set_pointer act quit emit
  handle_form-IsNext env redraw_requested form app h p = redrawn env form app h p
  handle_form-IsNext env resized form app h p = redrawn env form app h p
  handle_form-IsNext env scale_factor_changed form app h p = redrawn env form app h p
  handle_form-IsNext env (modifiers_changed b) form app h p =
      report-IsNext env app form no_action (set_modifiers b form) h p (λ c. (refl, c))
  handle_form-IsNext env (cursor_moved q) form app h p =
      report-IsNext env app form no_action (set_pointer q form) h p (λ c. (refl, c))
  handle_form-IsNext env (mouse_input pressed button) form app h p =
      report-IsNext env app form _ _ h p (clicked env.display pressed button form)
  handle_form-IsNext env (keyboard_input true pressed k text) form app h p = same app h
  handle_form-IsNext env (keyboard_input false pressed k text) form app h p =
      report-IsNext env app form _ _ h p (keyed env.display pressed k text form)
  handle_form-IsNext env close_requested form app h p =
      still app _ h refl refl h.waiting (attempts-quit app.effects)
  handle_form-IsNext env other_event form app h p = same app h

  shown_form :
      (state : AppState t) (form : ConnectDialog)
      → dialog state ≡ some form
      → state ≡ prompt (some form)
  shown_form (prompt o) form e = ap prompt e
  shown_form (session connection target client) form e = cc e

  handle_dialog_event-IsNext :
      (env : AppEnv t) (e : DialogEvent) (app : App t)
      → IsApp app
      → IsNext app (handle_dialog_event env e app)
  unfolding handle_dialog_event
  handle_dialog_event-IsNext env e app h = elim (Option-cases (dialog app.state)) [
    | inl n ↦ rw (n, handle_dialog_event) (same app h)
    | inr (form, p) ↦
        rw (p, handle_dialog_event)
          (handle_form-IsNext env e form app h (shown_form app.state form p))
  ]

  resumed-IsNext :
      (env : AppEnv t) (app : App t) (state : AppState t)
      → IsApp app
      → app.state ≡ state
      → IfSome (IsNext app) (resumed_in env state app)
  unfolding resumed_in
  resumed-IsNext env app (session connection target client) h e =
      session-IsNext app connection target client _ h e
  resumed-IsNext env app (prompt (some form)) h e = holds (same app h)
  resumed-IsNext env app (prompt none) h e = holds (show_dialog-IsNext env app h e)

  user_event-IsNext :
      (env : AppEnv t) (p : Packet) (app : App t) (state : AppState t)
      → IsApp app
      → app.state ≡ state
      → IfSome (IsNext app) (user_event_in env p state app)
  unfolding user_event_in finish_connect
  user_event-IsNext env p app (session connection target client) h e =
      session-IsNext app connection target client _ h e
  user_event-IsNext env p app (prompt form) h e =
      IfSome-if (leb 1 (len p) && connect_result (get_str p 0)) _ _
        (finish_with_done env app.connect_rx app.pending app) (holds (same app h))

  window_event-IsNext :
      (env : AppEnv t) (e : AnyEvent) (app : App t) (state : AppState t)
      → IsApp app
      → app.state ≡ state
      → IfSome (IsNext app) (window_event_in env e state app)
  unfolding window_event_in
  window_event-IsNext env e app (session connection target client) h p =
      session-IsNext app connection target client _ h p
  window_event-IsNext env (for_form e) app (prompt form) h p =
      holds (handle_dialog_event-IsNext env e app h)
  window_event-IsNext env (for_window wid e) app (prompt form) h p = holds (same app h)
  window_event-IsNext env (for_password o) app (prompt form) h p = holds (same app h)

  -- Every event that does not panic keeps it that an attempt in flight has both its details and its
  -- outcome's channel, and a frozen form; and it starts at most one attempt, and none while one is in
  -- flight.
  pub app_event-IsNext :
      (env : AppEnv t) (e : LoopEvent) (app : App t)
      → IsApp app
      → IfSome (IsNext app) (app_event env e app)
  unfolding app_event app_resumed app_user_event app_window_event
  app_event-IsNext env on_resumed app h = resumed-IsNext env app app.state h refl
  app_event-IsNext env (on_packet p) app h = user_event-IsNext env p app app.state h refl
  app_event-IsNext env (on_window e) app h = window_event-IsNext env e app app.state h refl
