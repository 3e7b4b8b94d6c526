-- ===== src/Client/Session/Challenge.antt =====
-- src/client/client.rs: the answer to a server that asks for a password.

use rust_xpra.Prelude.{
  Bool, true, false, not, ◌||◌, Option, none, some, ◌++◌, if◌then◌else◌, Bytes, codes, bytes_eq,
  is_empty,
}
use rust_xpra.Net.Packet.{Packet, get_str, get_bytes}
use rust_xpra.Net.Digest.Hmac.{hmac_sha256_hex, secure_hex}
use rust_xpra.Client.Session.{
  authentication_failed, prompted, opened_dialog, Session, Env, Action, ◌>>=◌, ◌>>◌, pure, lift,
  gets, assign, match_option, str_or, emit, quit,
}
use rust_xpra.Client.Session.Hello.{send_hello}

-- `.filter(|pw| !pw.is_empty())`
abbrev pub nonempty : Option Bytes → Option Bytes
nonempty none = none
nonempty (some pw) = if is_empty pw then none else some pw

abbrev is_some : Option Bytes → Bool
is_some none = false
is_some (some salt) = true

-- The password of the dialog, or else of the environment.
unfoldable pub known_password : Env → Session → Option Bytes
known_password env s = elim (nonempty s.password) [
  | some pw ↦ some pw
  | none ↦ nonempty env.xpra_password
]

-- The two challenge fields of the hello: the response, and the client's salt.
unfoldable pub response : Env → Bytes → Bytes → Bytes × Bytes
response env server_salt password =
    let client_salt = secure_hex env.secure_random_bytes 32 in
    let salt = hmac_sha256_hex client_salt server_salt in
    (hmac_sha256_hex password salt, client_salt)

module _ (env : Env) where
  unfoldable pub answer_challenge : Bytes → Action Unit
  answer_challenge password = do
    pending ← gets (λ s. s.pending_challenge)
    match_option pending (pure tt) (λ server_salt. do
      assign (λ s. record s { pending_challenge = none })
      send_hello env (some (response env server_salt password)))

  -- There is a context from the first `resumed` on.
  unfoldable pub show_auth_dialog : Bytes → Action Unit
  show_auth_dialog prompt_text =
      if env.dialog_opens
      then assign (λ s. record s { auth_dialog = true }) >> emit (opened_dialog prompt_text)
      else quit authentication_failed

  -- `DialogAction::Submit`: the dialog is closed, and its password taken.
  unfoldable pub submit_password : Bytes → Action Unit
  submit_password password = do
    assign (λ s. record s { auth_dialog = false })
    answer_challenge password

  unfoldable pub prompt_password : Bytes → Action Unit
  prompt_password prompt_text =
      match_option env.find_pinentry (show_auth_dialog prompt_text)
        (λ prog. emit (prompted prog prompt_text))

  unfoldable pub obtain_password : Bytes → Action Unit
  obtain_password prompt = do
    known ← gets (known_password env)
    match_option known (prompt_password (codes "Enter " ++ prompt)) answer_challenge

  unfoldable pub take_challenge : Bytes → Bytes → Bytes → Bytes → Action Unit
  take_challenge server_salt digest salt_digest prompt =
      if is_empty server_salt
      then quit authentication_failed
      else if not (bytes_eq digest (codes "hmac+sha256"))
          || not (bytes_eq salt_digest (codes "hmac+sha256"))
      then quit authentication_failed
      else assign (λ s. record s { pending_challenge = some server_salt }) >> obtain_password prompt

  unfoldable pub process_challenge : Packet → Action Unit
  process_challenge p = do
    busy ← gets (λ s. is_some s.pending_challenge || s.auth_dialog)
    if busy then pure tt else (do
      (server_salt, p') ← lift (get_bytes env.base64 p 1)
      digest ← lift (get_str p' 3)
      salt_digest ← lift (str_or p' 4 (codes "xor"))
      prompt ← lift (str_or p' 5 (codes "password"))
      take_challenge server_salt digest salt_digest prompt)

unfoldable pub cancel_auth : Action Unit
cancel_auth = do
  assign (λ s. record s { auth_dialog = false; pending_challenge = none })
  quit authentication_failed
