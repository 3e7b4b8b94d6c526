-- ===== src/Client/Session/Handlers/Events.antt =====
-- Whatever packet comes, the session advances.
use rust_xpra.Prelude.{true, false}
use rust_xpra.Net.Packet.{Packet}
use rust_xpra.Client.Session.{Env}
use rust_xpra.Client.Session.Later.{Advances, Advances-pure, advances}
use rust_xpra.Client.Session.Dispatch.{
  Kind, hello, encodings, startup_complete, new_window, new_override_redirect, window_move_resize,
  initiate_moveresize, raise_window, show_desktop, pointer_position, pointer_grab, pointer_ungrab,
  lost_window, eos, setting_change, bell, cursor, notify_show, notify_close, window_icon,
  window_metadata, server_event, draw, draw_decoded, draw_failed, ping, send_ping_kind,
  send_log_kind, ping_echo, challenge, challenge_password, challenge_cancel,
  challenge_fallback_dialog, set_clipboard_enabled_kind, clipboard_token, clipboard_request,
  clipboard_contents, clipboard_contents_none, clipboard_pending_requests, clipboard_changed,
  tray_exit, disconnect, connection_lost_kind, invalid_packet, other, process_kind,
  do_process_packet, user_event, resumed,
}
use rust_xpra.Client.Session.Handlers.{
  Advances-started_reader, Advances-to_decoder, Advances-process_initiate_moveresize,
  Advances-process_window_move_resize, Advances-process_show_desktop,
  Advances-process_pointer_position, Advances-process_pointer_ungrab, Advances-process_notify_show,
  Advances-process_notify_close, Advances-process_bell, Advances-process_lost_window,
  Advances-process_window_metadata, Advances-process_disconnect, Advances-process_invalid_packet,
  Advances-process_connection_lost, Advances-process_server_event, Advances-set_clipboard_enabled,
  Advances-complete_startup, Advances-cancel_auth, Advances-process_hello,
}
use rust_xpra.Client.Session.Handlers.Senders.{
  Advances-send_hello, Advances-send_ping, Advances-send_log, Advances-answer_challenge,
  Advances-show_auth_dialog, Advances-process_challenge, Advances-process_clipboard_token,
  Advances-process_clipboard_request, Advances-process_clipboard_contents,
  Advances-process_clipboard_changed, Advances-process_draw_decoded, Advances-process_draw_failed,
  Advances-process_ping, Advances-process_ping_echo, Advances-process_pointer_grab,
  Advances-process_raise_window, Advances-process_new_common, Advances-process_window_icon,
  Advances-process_cursor,
}

module _ (env : Env) where
  pub Advances-process_kind : (k : Kind) (p : Packet) → Advances (process_kind env k p)
  unfolding process_kind
  Advances-process_kind hello p = search (advances, Advances-process_hello) depth 40
  Advances-process_kind encodings p = search (advances) depth 40
  Advances-process_kind startup_complete p = Advances-complete_startup
  Advances-process_kind new_window p = Advances-process_new_common env p false
  Advances-process_kind new_override_redirect p = Advances-process_new_common env p true
  Advances-process_kind window_move_resize p = Advances-process_window_move_resize p
  Advances-process_kind initiate_moveresize p = Advances-process_initiate_moveresize p
  Advances-process_kind raise_window p = Advances-process_raise_window env p
  Advances-process_kind show_desktop p = Advances-process_show_desktop p
  Advances-process_kind pointer_position p = Advances-process_pointer_position p
  Advances-process_kind pointer_grab p = Advances-process_pointer_grab env p
  Advances-process_kind pointer_ungrab p = Advances-process_pointer_ungrab p
  Advances-process_kind lost_window p = Advances-process_lost_window p
  Advances-process_kind eos p = Advances-pure tt
  Advances-process_kind setting_change p = search (advances) depth 40
  Advances-process_kind bell p = Advances-process_bell p
  Advances-process_kind cursor p = Advances-process_cursor env p
  Advances-process_kind notify_show p = Advances-process_notify_show p
  Advances-process_kind notify_close p = Advances-process_notify_close p
  Advances-process_kind window_icon p = Advances-process_window_icon env p
  Advances-process_kind window_metadata p = Advances-process_window_metadata p
  Advances-process_kind server_event p = Advances-process_server_event p
  Advances-process_kind draw p = search (advances, Advances-to_decoder) depth 40
  Advances-process_kind draw_decoded p = Advances-process_draw_decoded env p
  Advances-process_kind draw_failed p = Advances-process_draw_failed env p
  Advances-process_kind ping p = Advances-process_ping env p
  Advances-process_kind send_ping_kind p = Advances-send_ping env
  Advances-process_kind send_log_kind p = search (advances, Advances-send_log) depth 40
  Advances-process_kind ping_echo p = Advances-process_ping_echo env p
  Advances-process_kind challenge p = Advances-process_challenge env p
  Advances-process_kind challenge_password p = search (advances, Advances-answer_challenge) depth 40
  Advances-process_kind challenge_cancel p = Advances-cancel_auth
  Advances-process_kind challenge_fallback_dialog p =
      search (advances, Advances-show_auth_dialog) depth 40
  Advances-process_kind set_clipboard_enabled_kind p = Advances-set_clipboard_enabled p
  Advances-process_kind clipboard_token p = Advances-process_clipboard_token env p
  Advances-process_kind clipboard_request p = Advances-process_clipboard_request env p
  Advances-process_kind clipboard_contents p = Advances-process_clipboard_contents env p
  Advances-process_kind clipboard_contents_none p = Advances-pure tt
  Advances-process_kind clipboard_pending_requests p = Advances-pure tt
  Advances-process_kind clipboard_changed p = Advances-process_clipboard_changed env p
  Advances-process_kind tray_exit p = search (advances) depth 40
  Advances-process_kind disconnect p = Advances-process_disconnect p
  Advances-process_kind connection_lost_kind p = Advances-process_connection_lost p
  Advances-process_kind invalid_packet p = Advances-process_invalid_packet p
  Advances-process_kind other p = Advances-pure tt

  pub Advances-user_event : (p : Packet) → Advances (user_event env p)
  unfolding user_event do_process_packet
  Advances-user_event p = search (advances, Advances-process_kind) depth 40

  pub Advances-resumed : Advances (resumed env)
  unfolding resumed
  Advances-resumed = search (advances, Advances-started_reader, Advances-send_hello) depth 40
