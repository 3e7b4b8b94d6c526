-- ===== src/Client/Session/Dispatch.antt =====
-- src/client/client.rs: `user_event`, `do_process_packet` and `resumed`, without the packets of Windows' audio.

use rust_xpra.Prelude.{
  none, true, false, not, ◌==◌, List, [], ◌∷◌, if◌then◌else◌, Bytes, String, codes, bytes_eq,
  is_empty, leb, get_elem?,
}
use rust_xpra.Net.Packet.{Packet, len, get_i64, get_str}
use rust_xpra.Client.Json.{list, str}
use rust_xpra.Client.Session.{
  ok_code, started_pings, started_reader, to_decoder, Env, Action, ◌>>=◌, ◌>>◌, pure, lift, gets,
  assign, emit, when, quit, write_json,
}
use rust_xpra.Client.Monitors.{total_display_size}
use rust_xpra.Client.Session.Send.{send_ping, send_log}
use rust_xpra.Client.Session.Hello.{process_hello, send_hello, send_hello}
use rust_xpra.Client.Session.Challenge.{
  process_challenge, answer_challenge, cancel_auth, show_auth_dialog,
}
use rust_xpra.Client.Session.Clipboard.{
  set_clipboard_enabled, process_clipboard_token, process_clipboard_request,
  process_clipboard_contents, process_clipboard_changed,
}
use rust_xpra.Client.Session.Pings.{
  process_draw_decoded, process_draw_failed, process_ping, process_ping_echo, process_disconnect,
  process_connection_lost, process_invalid_packet,
}
use rust_xpra.Client.Session.Windowing.{
  process_new_common, process_window_move_resize, process_initiate_moveresize, process_raise_window,
  process_show_desktop, process_pointer_position, process_pointer_grab, process_pointer_ungrab,
  process_lost_window, process_bell, process_cursor, process_notify_show, process_notify_close,
  process_window_icon, process_window_metadata,
}

-- The arms of the `match` on the packet's type.
pub data Kind : Type 0 where
  hello encodings startup_complete new_window new_override_redirect window_move_resize
        initiate_moveresize :
      Kind
  raise_window show_desktop pointer_position pointer_grab pointer_ungrab lost_window eos
        setting_change bell :
      Kind
  cursor notify_show notify_close window_icon window_metadata server_event draw draw_decoded
        draw_failed :
      Kind
  ping send_ping_kind send_log_kind ping_echo challenge challenge_password challenge_cancel : Kind
  challenge_fallback_dialog set_clipboard_enabled_kind clipboard_token clipboard_request
        clipboard_contents :
      Kind
  clipboard_contents_none clipboard_pending_requests clipboard_changed tray_exit disconnect
        connection_lost_kind :
      Kind
  invalid_packet other : Kind

abbrev arms : List (String × Kind)
arms =
    ("hello", hello)
    ∷ ("encodings", encodings)
    ∷ ("startup-complete", startup_complete)
    ∷ ("new-window", new_window)
    ∷ ("new-override-redirect", new_override_redirect)
    ∷ ("window-move-resize", window_move_resize)
    ∷ ("configure-override-redirect", window_move_resize)
    ∷ ("initiate-moveresize", initiate_moveresize)
    ∷ ("raise-window", raise_window)
    ∷ ("show-desktop", show_desktop)
    ∷ ("pointer-position", pointer_position)
    ∷ ("pointer-grab", pointer_grab)
    ∷ ("pointer-ungrab", pointer_ungrab)
    ∷ ("lost-window", lost_window)
    ∷ ("eos", eos)
    ∷ ("setting-change", setting_change)
    ∷ ("bell", bell)
    ∷ ("cursor", cursor)
    ∷ ("notify_show", notify_show)
    ∷ ("notify_close", notify_close)
    ∷ ("window-icon", window_icon)
    ∷ ("window-metadata", window_metadata)
    ∷ ("server-event", server_event)
    ∷ ("draw", draw)
    ∷ ("draw-decoded", draw_decoded)
    ∷ ("draw-failed", draw_failed)
    ∷ ("decoding-failed", draw_failed)
    ∷ ("ping", ping)
    ∷ ("send-ping", send_ping_kind)
    ∷ ("send-log", send_log_kind)
    ∷ ("ping_echo", ping_echo)
    ∷ ("challenge", challenge)
    ∷ ("challenge-password", challenge_password)
    ∷ ("challenge-cancel", challenge_cancel)
    ∷ ("challenge-fallback-dialog", challenge_fallback_dialog)
    ∷ ("set-clipboard-enabled", set_clipboard_enabled_kind)
    ∷ ("clipboard-token", clipboard_token)
    ∷ ("clipboard-request", clipboard_request)
    ∷ ("clipboard-contents", clipboard_contents)
    ∷ ("clipboard-contents-none", clipboard_contents_none)
    ∷ ("clipboard-pending-requests", clipboard_pending_requests)
    ∷ ("clipboard-changed", clipboard_changed)
    ∷ ("tray-exit", tray_exit)
    ∷ ("disconnect", disconnect)
    ∷ ("connection-lost", connection_lost_kind)
    ∷ ("invalid-packet", invalid_packet)
    ∷ []

arm_of : List (String × Kind) → Bytes → Kind
arm_of [] ptype = other
arm_of ((name, k) ∷ rest) ptype =
    let later = arm_of rest ptype in if bytes_eq ptype (codes name) then k else later

unfoldable pub kind_of : Bytes → Kind
unfolding arm_of
kind_of ptype = arm_of arms ptype

-- It only logs.
unfoldable pub process_server_event : Packet → Action Unit
process_server_event p =
    if leb 2 (len p) then (do event_type ← lift (get_str p 1); pure tt) else pure tt

unfoldable pub complete_startup : Action Unit
complete_startup = do
  up ← gets (λ s. s.startup_complete)
  when (not up) (assign (λ s. record s { startup_complete = true }) >> emit started_pings)

module _ (env : Env) where
  unfoldable pub process_kind : Kind → Packet → Action Unit
  process_kind hello p = do y ← lift (get_elem? p.main 1); process_hello y
  process_kind encodings p = do y ← lift (get_elem? p.main 1); pure tt
  process_kind startup_complete p = complete_startup
  process_kind new_window p = process_new_common env p false
  process_kind new_override_redirect p = process_new_common env p true
  process_kind window_move_resize p = process_window_move_resize p
  process_kind initiate_moveresize p = process_initiate_moveresize p
  process_kind raise_window p = process_raise_window env p
  process_kind show_desktop p = process_show_desktop p
  process_kind pointer_position p = process_pointer_position p
  process_kind pointer_grab p = process_pointer_grab env p
  process_kind pointer_ungrab p = process_pointer_ungrab p
  process_kind lost_window p = process_lost_window p
  process_kind eos p = pure tt
  process_kind setting_change p = do setting ← lift (get_str p 1); pure tt
  process_kind bell p = process_bell p
  process_kind cursor p = process_cursor env p
  process_kind notify_show p = process_notify_show p
  process_kind notify_close p = process_notify_close p
  process_kind window_icon p = process_window_icon env p
  process_kind window_metadata p = process_window_metadata p
  process_kind server_event p = process_server_event p
  process_kind draw p = when env.decoder_runs (emit (to_decoder p))
  process_kind draw_decoded p = process_draw_decoded env p
  process_kind draw_failed p = process_draw_failed env p
  process_kind ping p = process_ping env p
  process_kind send_ping_kind p = send_ping env
  process_kind send_log_kind p = do
    level ← lift (get_i64 p 1)
    message ← lift (get_str p 2)
    send_log env level message
  process_kind ping_echo p = process_ping_echo env p
  process_kind challenge p = process_challenge env p
  process_kind challenge_password p = do
    password ← lift (get_str p 1)
    answer_challenge env password
  process_kind challenge_cancel p = cancel_auth
  process_kind challenge_fallback_dialog p = do
    prompt_text ← lift (get_str p 1)
    show_auth_dialog env prompt_text
  process_kind set_clipboard_enabled_kind p = set_clipboard_enabled p
  process_kind clipboard_token p = process_clipboard_token env p
  process_kind clipboard_request p = process_clipboard_request env p
  process_kind clipboard_contents p = process_clipboard_contents env p
  process_kind clipboard_contents_none p = pure tt
  process_kind clipboard_pending_requests p = pure tt
  process_kind clipboard_changed p = process_clipboard_changed env p
  process_kind tray_exit p = do
    write_json env (list (str "connection-close" ∷ str "client exit" ∷ []))
    quit ok_code
  process_kind disconnect p = process_disconnect p
  process_kind connection_lost_kind p = process_connection_lost p
  process_kind invalid_packet p = process_invalid_packet p
  process_kind other p = pure tt

  unfoldable pub do_process_packet : Bytes → Packet → Action Unit
  do_process_packet ptype p = process_kind (kind_of ptype) p

  -- An empty packet, and one without a type, are only logged.
  unfoldable pub user_event : Packet → Action Unit
  user_event p =
      if len p == 0
      then pure tt
      else (do ptype ← lift (get_str p 0); when (not (is_empty ptype)) (do_process_packet ptype p))

  -- The first time, the client measures the display, starts to read, and says hello.
  unfoldable pub resumed : Action Unit
  resumed = do
    sent ← gets (λ s. s.hello_sent)
    when (not sent) (do
      assign (λ s. record s {
        monitors = env.local_monitors;
        desktop_size = total_display_size env.local_monitors;
        hello_sent = true;
      })
      emit started_reader
      send_hello env none)
