-- ===== src/Client/Session/Handlers.antt =====
-- Every handler advances, that is, it only adds effects, keeps the exit code, and is silent once there
-- is one. Here those that write nothing.
pub mod Senders
pub mod Inputs
pub mod Events
use rust_xpra.Prelude.{
  ℕ, Bool, true, false, Option, none, some, List, [], ◌∷◌, Bytes, refl, if◌then◌else◌, Result, ok,
  err,
}
use rust_xpra.Prelude.Int.{ℤ}
use rust_xpra.Net.Packet.{Packet, Yaml, hash}
use rust_xpra.Client.Mmap.{MmapError}
use rust_xpra.Client.Session.{
  ExitCode, Session, Env, XpraWindow, Cursor, Call, called, rang, started_pings, started_reader,
  to_clipboard, started_clipboard, unlinked, opened_dialog, prompted, to_decoder, Action, ◌>>=◌,
  ◌>>◌, pure, lift, gets, assign, emit, when, call_each, call, quit, write_json,
}
use rust_xpra.Client.Session.Later.{Advances, Advances-emit, Advances-pure, Advances-bind, advances}
use rust_xpra.Client.Session.Pings.{
  process_ping, process_ping_echo, process_disconnect, process_connection_lost,
  process_draw_decoded, process_draw_failed, process_invalid_packet,
}
use rust_xpra.Client.Session.Send.{
  send_ping_echo, send_draw_ack, send_ping, send_log, send_window_map, send_clipboard_data,
  send_clipboard_request, send_clipboard_contents, send_clipboard_contents_none,
}
use rust_xpra.Client.Session.Hello.{
  send_hello, process_server_caps, mmap_verified, process_mmap_caps, process_hello,
}
use rust_xpra.Client.Session.Challenge.{
  process_challenge, answer_challenge, cancel_auth, show_auth_dialog, submit_password,
  prompt_password, obtain_password, take_challenge,
}
use rust_xpra.Client.Session.Clipboard.{
  set_clipboard_enabled, process_clipboard_token, process_clipboard_request,
  process_clipboard_contents, process_clipboard_changed, set_local_clipboard, clipboard_text,
  take_text, claim_clipboard,
}
use rust_xpra.Client.Session.Metadata.{
  WindowSizeConstraints, WindowMetadataUpdate, apply_constraints, apply_window_metadata,
}
use rust_xpra.Client.Session.Windowing.{
  process_new_common, process_window_move_resize, process_initiate_moveresize, process_raise_window,
  process_show_desktop, process_pointer_position, process_pointer_grab, process_pointer_ungrab,
  process_lost_window, process_bell, process_cursor, process_notify_show, process_notify_close,
  process_window_icon, process_window_metadata, release_pointer_grab, grab_window, grab_pointer,
  open_window, use_cursor,
}
use rust_xpra.Client.Session.Dispatch.{
  Kind, hello, encodings, startup_complete, new_window, new_override_redirect, window_move_resize,
  initiate_moveresize, raise_window, show_desktop, pointer_position, pointer_grab, pointer_ungrab,
  lost_window, eos, setting_change, bell, cursor, notify_show, notify_close, window_icon,
  window_metadata, server_event, draw, draw_decoded, draw_failed, ping, send_ping_kind,
  send_log_kind, ping_echo, challenge, challenge_password, challenge_cancel,
  challenge_fallback_dialog, set_clipboard_enabled_kind, clipboard_token, clipboard_request,
  clipboard_contents, clipboard_contents_none, clipboard_pending_requests, clipboard_changed,
  tray_exit, disconnect, connection_lost_kind, invalid_packet, other, process_server_event,
  complete_startup, process_kind, do_process_packet, user_event,
}

-- The effects that are no writes.
pub Advances-call : (wid : ℕ) (c : Call) → Advances (call wid c)
Advances-call wid c = Advances-emit (called wid c) refl

pub Advances-call_each : (ws : List (ℕ × XpraWindow)) (c : Call) → Advances (call_each ws c)
unfolding call_each
Advances-call_each [] c = Advances-pure tt
Advances-call_each ((wid, w) ∷ ws) c =
    Advances-bind (call wid c) (λ _. call_each ws c) (Advances-call wid c)
      (λ _. Advances-call_each ws c)

pub Advances-rang : (a b : ℤ) → Advances (emit (rang a b))
Advances-rang a b = Advances-emit (rang a b) refl

pub Advances-started_reader : Advances (emit started_reader)
Advances-started_reader = Advances-emit started_reader refl

pub Advances-started_pings : Advances (emit started_pings)
Advances-started_pings = Advances-emit started_pings refl

pub Advances-to_clipboard : (t : Bytes) → Advances (emit (to_clipboard t))
Advances-to_clipboard t = Advances-emit (to_clipboard t) refl

pub Advances-started_clipboard : Advances (emit started_clipboard)
Advances-started_clipboard = Advances-emit started_clipboard refl

pub Advances-unlinked : Advances (emit unlinked)
Advances-unlinked = Advances-emit unlinked refl

pub Advances-opened_dialog : (t : Bytes) → Advances (emit (opened_dialog t))
Advances-opened_dialog t = Advances-emit (opened_dialog t) refl

pub Advances-prompted : (t u : Bytes) → Advances (emit (prompted t u))
Advances-prompted t u = Advances-emit (prompted t u) refl

pub Advances-to_decoder : (p : Packet) → Advances (emit (to_decoder p))
Advances-to_decoder p = Advances-emit (to_decoder p) refl

pub Advances-release_pointer_grab : Advances (release_pointer_grab)
unfolding release_pointer_grab
Advances-release_pointer_grab = search (advances, Advances-call) depth 40

pub Advances-apply_constraints :
    (wid : ℕ) (w : XpraWindow) (c : WindowSizeConstraints) → Advances (apply_constraints wid w c)
unfolding apply_constraints
Advances-apply_constraints wid w c = search (advances, Advances-call) depth 40

pub Advances-apply_window_metadata :
    (wid : ℕ) (w : XpraWindow) (u : WindowMetadataUpdate) → Advances (apply_window_metadata wid w u)
unfolding apply_window_metadata
Advances-apply_window_metadata wid w u =
    search (advances, Advances-call, Advances-apply_constraints) depth 40

pub Advances-process_initiate_moveresize : (p : Packet) → Advances (process_initiate_moveresize p)
unfolding process_initiate_moveresize
Advances-process_initiate_moveresize p = search (advances, Advances-call) depth 40

pub Advances-process_window_move_resize : (p : Packet) → Advances (process_window_move_resize p)
unfolding process_window_move_resize
Advances-process_window_move_resize p = search (advances, Advances-call) depth 40

pub Advances-process_show_desktop : (p : Packet) → Advances (process_show_desktop p)
unfolding process_show_desktop
Advances-process_show_desktop p = search (advances, Advances-call_each) depth 40

pub Advances-process_pointer_position : (p : Packet) → Advances (process_pointer_position p)
unfolding process_pointer_position
Advances-process_pointer_position p = search (advances) depth 40

pub Advances-process_pointer_ungrab : (p : Packet) → Advances (process_pointer_ungrab p)
unfolding process_pointer_ungrab
Advances-process_pointer_ungrab p = search (advances, Advances-release_pointer_grab) depth 40

pub Advances-process_notify_show : (p : Packet) → Advances (process_notify_show p)
unfolding process_notify_show
Advances-process_notify_show p = search (advances) depth 40

pub Advances-process_notify_close : (p : Packet) → Advances (process_notify_close p)
unfolding process_notify_close
Advances-process_notify_close p = search (advances) depth 40

pub Advances-process_bell : (p : Packet) → Advances (process_bell p)
unfolding process_bell
Advances-process_bell p = search (advances, Advances-rang) depth 40

pub Advances-process_lost_window : (p : Packet) → Advances (process_lost_window p)
unfolding process_lost_window
Advances-process_lost_window p = search (advances, Advances-release_pointer_grab) depth 40

pub Advances-process_window_metadata : (p : Packet) → Advances (process_window_metadata p)
unfolding process_window_metadata
Advances-process_window_metadata p = search (advances, Advances-apply_window_metadata) depth 40

pub Advances-process_disconnect : (p : Packet) → Advances (process_disconnect p)
unfolding process_disconnect
Advances-process_disconnect p = search (advances) depth 40

pub Advances-process_invalid_packet : (p : Packet) → Advances (process_invalid_packet p)
unfolding process_invalid_packet
Advances-process_invalid_packet p = search (advances) depth 40

pub Advances-process_connection_lost : (p : Packet) → Advances (process_connection_lost p)
unfolding process_connection_lost
Advances-process_connection_lost p = search (advances) depth 40

pub Advances-process_server_event : (p : Packet) → Advances (process_server_event p)
unfolding process_server_event
Advances-process_server_event p = search (advances) depth 40

pub Advances-set_clipboard_enabled : (p : Packet) → Advances (set_clipboard_enabled p)
unfolding set_clipboard_enabled
Advances-set_clipboard_enabled p = search (advances) depth 40

pub Advances-complete_startup : Advances (complete_startup)
unfolding complete_startup
Advances-complete_startup = search (advances, Advances-started_pings) depth 40

pub Advances-set_local_clipboard : (t : Bytes) → Advances (set_local_clipboard t)
unfolding set_local_clipboard
Advances-set_local_clipboard t = search (advances, Advances-to_clipboard) depth 40

pub Advances-cancel_auth : Advances (cancel_auth)
unfolding cancel_auth
Advances-cancel_auth = search (advances) depth 40

pub Advances-process_server_caps : (caps : Yaml) → Advances (process_server_caps caps)
unfolding process_server_caps
Advances-process_server_caps (hash es) = search (advances, Advances-started_clipboard) depth 40
Advances-process_server_caps _ = Advances-pure tt

pub Advances-mmap_verified : (r : Result MmapError Bool) → Advances (mmap_verified r)
unfolding mmap_verified
Advances-mmap_verified (ok true) = Advances-pure tt
Advances-mmap_verified (ok false) = search advances depth 40
Advances-mmap_verified (err e) = search advances depth 40

pub Advances-process_mmap_caps : (caps : Yaml) → Advances (process_mmap_caps caps)
unfolding process_mmap_caps
Advances-process_mmap_caps caps =
    search (advances, Advances-unlinked, Advances-mmap_verified) depth 40

pub Advances-process_hello : (caps : Yaml) → Advances (process_hello caps)
unfolding process_hello
Advances-process_hello caps =
    search (advances, Advances-process_mmap_caps, Advances-process_server_caps) depth 40
