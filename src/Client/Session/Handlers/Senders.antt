-- ===== src/Client/Session/Handlers/Senders.antt =====
-- The handlers that may write a packet or ask the outside advance.
use rust_xpra.Prelude.{ℕ, Bool, Option, Bytes}
use rust_xpra.Prelude.Int.{ℤ}
use rust_xpra.Net.Packet.{Packet}
use rust_xpra.Client.Session.{Env, Cursor}
use rust_xpra.Client.Session.Later.{Advances, advances}
use rust_xpra.Client.Session.Pings.{
  process_ping, process_ping_echo, process_draw_decoded, process_draw_failed,
}
use rust_xpra.Client.Session.Send.{
  send_ping_echo, send_draw_ack, send_ping, send_log, send_window_map, send_clipboard_data,
  send_clipboard_request, send_clipboard_contents, send_clipboard_contents_none,
}
use rust_xpra.Client.Session.Hello.{send_hello}
use rust_xpra.Client.Session.Challenge.{
  process_challenge, answer_challenge, show_auth_dialog, submit_password, prompt_password,
  obtain_password, take_challenge,
}
use rust_xpra.Client.Session.Clipboard.{
  process_clipboard_token, process_clipboard_request, process_clipboard_contents,
  process_clipboard_changed, clipboard_text, take_text, claim_clipboard,
}
use rust_xpra.Client.Session.Metadata.{WindowMetadataUpdate}
use rust_xpra.Client.Session.Windowing.{
  process_new_common, process_raise_window, process_pointer_grab, process_cursor,
  process_window_icon, grab_window, grab_pointer, open_window, use_cursor,
}
use rust_xpra.Client.Session.Handlers.{
  Advances-call, Advances-call_each, Advances-opened_dialog, Advances-prompted,
  Advances-release_pointer_grab, Advances-apply_window_metadata, Advances-set_local_clipboard,
}

module _ (env : Env) where
  pub Advances-send_draw_ack :
      (seq wid w h : ℕ) (t : ℤ) (m : Bytes) → Advances (send_draw_ack env seq wid w h t m)
  unfolding send_draw_ack
  Advances-send_draw_ack seq wid w h t m = search (advances) depth 40

  pub Advances-send_ping_echo : (t : ℕ) (sid : Bytes) → Advances (send_ping_echo env t sid)
  unfolding send_ping_echo
  Advances-send_ping_echo t sid = search (advances) depth 40

  pub Advances-send_ping : Advances (send_ping env)
  unfolding send_ping
  Advances-send_ping = search (advances) depth 40

  pub Advances-send_log : (level : ℤ) (m : Bytes) → Advances (send_log env level m)
  unfolding send_log
  Advances-send_log level m = search (advances) depth 40

  pub Advances-send_window_map :
      (wid : ℕ) (x y : ℤ) (w h : ℕ) → Advances (send_window_map env wid x y w h)
  unfolding send_window_map
  Advances-send_window_map wid x y w h = search (advances) depth 40

  pub Advances-send_clipboard_data : (t : Bytes) → Advances (send_clipboard_data env t)
  unfolding send_clipboard_data
  Advances-send_clipboard_data t = search (advances) depth 40

  pub Advances-send_clipboard_request : Advances (send_clipboard_request env)
  unfolding send_clipboard_request
  Advances-send_clipboard_request = search (advances) depth 40

  pub Advances-send_clipboard_contents :
      (i : ℕ) (dtype t : Bytes) → Advances (send_clipboard_contents env i dtype t)
  unfolding send_clipboard_contents
  Advances-send_clipboard_contents i dtype t = search (advances) depth 40

  pub Advances-send_clipboard_contents_none :
      (i : ℕ) → Advances (send_clipboard_contents_none env i)
  unfolding send_clipboard_contents_none
  Advances-send_clipboard_contents_none i = search (advances) depth 40

  pub Advances-send_hello : (reply : Option (Bytes × Bytes)) → Advances (send_hello env reply)
  unfolding send_hello
  Advances-send_hello reply = search (advances) depth 40

  pub Advances-answer_challenge : (password : Bytes) → Advances (answer_challenge env password)
  unfolding answer_challenge
  Advances-answer_challenge password = search (advances, Advances-send_hello) depth 40

  pub Advances-submit_password : (password : Bytes) → Advances (submit_password env password)
  unfolding submit_password
  Advances-submit_password password = search (advances, Advances-answer_challenge) depth 40

  pub Advances-show_auth_dialog : (prompt : Bytes) → Advances (show_auth_dialog env prompt)
  unfolding show_auth_dialog
  Advances-show_auth_dialog prompt = search (advances, Advances-opened_dialog) depth 40

  pub Advances-prompt_password : (prompt : Bytes) → Advances (prompt_password env prompt)
  unfolding prompt_password
  Advances-prompt_password prompt =
      search (advances, Advances-prompted, Advances-show_auth_dialog) depth 40

  pub Advances-obtain_password : (prompt : Bytes) → Advances (obtain_password env prompt)
  unfolding obtain_password
  Advances-obtain_password prompt =
      search (advances, Advances-answer_challenge, Advances-prompt_password) depth 40

  pub Advances-take_challenge :
      (salt digest salt_digest prompt : Bytes)
      → Advances (take_challenge env salt digest salt_digest prompt)
  unfolding take_challenge
  Advances-take_challenge salt digest salt_digest prompt =
      search (advances, Advances-obtain_password) depth 40

  pub Advances-process_challenge : (p : Packet) → Advances (process_challenge env p)
  unfolding process_challenge
  Advances-process_challenge p = search (advances, Advances-take_challenge) depth 40

  pub Advances-clipboard_text : (p : Packet) (i j : ℕ) → Advances (clipboard_text env p i j)
  unfolding clipboard_text
  Advances-clipboard_text p i j = search (advances) depth 40

  pub Advances-take_text : (p : Packet) (i j : ℕ) → Advances (take_text env p i j)
  unfolding take_text
  Advances-take_text p i j =
      search (advances, Advances-clipboard_text, Advances-set_local_clipboard) depth 40

  pub Advances-process_clipboard_token : (p : Packet) → Advances (process_clipboard_token env p)
  unfolding process_clipboard_token
  Advances-process_clipboard_token p =
      search (advances, Advances-take_text, Advances-send_clipboard_request) depth 40

  pub Advances-process_clipboard_request : (p : Packet) → Advances (process_clipboard_request env p)
  unfolding process_clipboard_request
  Advances-process_clipboard_request p =
      search (advances, Advances-send_clipboard_contents, Advances-send_clipboard_contents_none)
        depth 40

  pub Advances-process_clipboard_contents :
      (p : Packet) → Advances (process_clipboard_contents env p)
  unfolding process_clipboard_contents
  Advances-process_clipboard_contents p = search (advances, Advances-take_text) depth 40

  pub Advances-claim_clipboard : (t : Bytes) → Advances (claim_clipboard env t)
  unfolding claim_clipboard
  Advances-claim_clipboard t = search (advances, Advances-send_clipboard_data) depth 40

  pub Advances-process_clipboard_changed : (p : Packet) → Advances (process_clipboard_changed env p)
  unfolding process_clipboard_changed
  Advances-process_clipboard_changed p = search (advances, Advances-claim_clipboard) depth 40

  pub Advances-process_draw_decoded : (p : Packet) → Advances (process_draw_decoded env p)
  unfolding process_draw_decoded
  Advances-process_draw_decoded p =
      search (advances, Advances-call, Advances-send_draw_ack) depth 40

  pub Advances-process_draw_failed : (p : Packet) → Advances (process_draw_failed env p)
  unfolding process_draw_failed
  Advances-process_draw_failed p = search (advances, Advances-send_draw_ack) depth 40

  pub Advances-process_ping : (p : Packet) → Advances (process_ping env p)
  unfolding process_ping
  Advances-process_ping p = search (advances, Advances-send_ping_echo) depth 40

  pub Advances-process_ping_echo : (p : Packet) → Advances (process_ping_echo env p)
  unfolding process_ping_echo
  Advances-process_ping_echo p = search (advances) depth 40

  pub Advances-grab_window : (wid : ℕ) → Advances (grab_window env wid)
  unfolding grab_window
  Advances-grab_window wid = search (advances, Advances-call) depth 40

  pub Advances-grab_pointer : (wid : ℕ) → Advances (grab_pointer env wid)
  unfolding grab_pointer
  Advances-grab_pointer wid = search (advances, Advances-grab_window) depth 40

  pub Advances-process_pointer_grab : (p : Packet) → Advances (process_pointer_grab env p)
  unfolding process_pointer_grab
  Advances-process_pointer_grab p =
      search (advances, Advances-grab_pointer, Advances-release_pointer_grab) depth 40

  pub Advances-process_raise_window : (p : Packet) → Advances (process_raise_window env p)
  unfolding process_raise_window
  Advances-process_raise_window p = search (advances, Advances-call) depth 40

  pub Advances-open_window :
      (wid : ℕ) (x y : ℤ) (w h : ℕ) (m : WindowMetadataUpdate) (o : Bool)
      → Advances (open_window env wid x y w h m o)
  unfolding open_window
  Advances-open_window wid x y w h m o =
      search (advances, Advances-call, Advances-apply_window_metadata, Advances-send_window_map)
        depth 40

  pub Advances-process_new_common : (p : Packet) (o : Bool) → Advances (process_new_common env p o)
  unfolding process_new_common
  Advances-process_new_common p o = search (advances, Advances-open_window) depth 40

  pub Advances-process_window_icon : (p : Packet) → Advances (process_window_icon env p)
  unfolding process_window_icon
  Advances-process_window_icon p = search (advances, Advances-call) depth 40

  pub Advances-use_cursor : (c : Option Cursor) → Advances (use_cursor env c)
  unfolding use_cursor
  Advances-use_cursor c = search (advances, Advances-call_each) depth 40

  pub Advances-process_cursor : (p : Packet) → Advances (process_cursor env p)
  unfolding process_cursor
  Advances-process_cursor p = search (advances, Advances-use_cursor) depth 40
