-- ===== src/Client/Session/Clipboard.antt =====
-- The handlers of the clipboard (src/client/client.rs).

use rust_xpra.Prelude.{
  ℕ, Bool, not, ◌&&◌, ◌||◌, Option, none, some, if◌then◌else◌, Bytes, codes, bytes_eq, is_empty,
  leb,
}
use rust_xpra.Net.Packet.{Packet, len, get_str, get_u64, get_bool, get_bytes}
use rust_xpra.Client.Session.{
  to_clipboard, Env, Action, ◌>>=◌, ◌>>◌, pure, lift, gets, assign, match_option, emit, when,
}
use rust_xpra.Client.Session.Send.{
  send_clipboard_data, send_clipboard_request, send_clipboard_contents,
  send_clipboard_contents_none,
}

unfoldable pub is_text_target : Bytes → Bool
is_text_target target =
    bytes_eq target (codes "UTF8_STRING")
    || bytes_eq target (codes "TEXT")
    || bytes_eq target (codes "STRING")
    || bytes_eq target (codes "text/plain;charset=utf-8")
    || bytes_eq target (codes "text/plain")

-- To the clipboard's thread, where it runs.
unfoldable pub set_local_clipboard : Bytes → Action Unit
set_local_clipboard t = do
  assign (λ s. record s { last_clipboard = t })
  running ← gets (λ s. s.clipboard)
  when running (emit (to_clipboard t))

unfoldable pub set_clipboard_enabled : Packet → Action Unit
set_clipboard_enabled p = do
  enabled ← lift (get_bool p 1)
  assign (λ s. record s { clipboard_enabled = enabled })

module _ (env : Env) where
  -- The text of a field, `none` where there is nothing to take over.
  unfoldable pub clipboard_text : Packet → ℕ → ℕ → Action (Option Bytes)
  clipboard_text p enc_index data_index = do
    encoding ← lift (get_str p enc_index)
    if not (bytes_eq encoding (codes "bytes")) then pure none else (do
      (bytes, p') ← lift (get_bytes env.base64 p data_index)
      pure (if is_empty bytes then none else some (env.from_utf8_lossy bytes)))

  unfoldable pub take_text : Packet → ℕ → ℕ → Action Unit
  take_text p enc_index data_index = do
    t ← clipboard_text p enc_index data_index
    match_option t (pure tt) set_local_clipboard

  unfoldable pub process_clipboard_token : Packet → Action Unit
  process_clipboard_token p = do
    enabled ← gets (λ s. s.clipboard_enabled)
    when enabled (if leb 8 (len p) then take_text p 6 7 else send_clipboard_request env)

  unfoldable pub process_clipboard_request : Packet → Action Unit
  process_clipboard_request p = do
    request_id ← lift (get_u64 p 1)
    target ← lift (get_str p 3)
    enabled ← gets (λ s. s.clipboard_enabled)
    t ← gets (λ s. s.last_clipboard)
    if not enabled || not (is_text_target target) || is_empty t
        then send_clipboard_contents_none env request_id
        else send_clipboard_contents env request_id target t

  unfoldable pub process_clipboard_contents : Packet → Action Unit
  process_clipboard_contents p = do
    enabled ← gets (λ s. s.clipboard_enabled)
    when (enabled && leb 7 (len p)) (take_text p 5 6)

  -- The local clipboard has a text; the client's own and an empty one are not sent.
  unfoldable pub claim_clipboard : Bytes → Action Unit
  claim_clipboard t = do
    last ← gets (λ s. s.last_clipboard)
    if is_empty t || bytes_eq t last
        then pure tt
        else assign (λ s. record s { last_clipboard = t }) >> send_clipboard_data env t

  unfoldable pub process_clipboard_changed : Packet → Action Unit
  process_clipboard_changed p = do
    enabled ← gets (λ s. s.clipboard_enabled)
    when enabled (do t ← lift (get_str p 1); claim_clipboard t)
