-- ===== src/Main/Exits.antt =====
-- What `connect` returns: the connection of the scheme, or the exit code of the step that failed.
use rust_xpra.Prelude.{
  ◌≡◌, refl, sym, ap, ◌∙◌, Bool, true, false, not, ◌&&◌, if◌then◌else◌, Bytes, Result, ok, err,
  ◌>>=◌,
}
use rust_xpra.Net.Uri.{Scheme, Target, tcp, tls, web_socket, web_socket_tls, ssh, socket}
use rust_xpra.Net.Uri.Laws.{is_ssh}
use rust_xpra.Client.Session.{
  ExitCode, argument_mismatch, connection_failed, ssl_failure, ssh_failure,
}
use rust_xpra.Main.Connect.{
  Streams, Calls, Connection, tcp_connection, tls_connection, ws_connection, wss_connection,
  ssh_connection, unix_connection, ConnectError, ssh_failed, unix_failed, uses_tls, map_err,
  tcp_connect, tls_connect, ws_error, connect_scheme, connect,
}

-- The exit codes that a failure can have.
abbrev pub may_fail : Scheme → Bool → ExitCode → Bool
may_fail scheme ssl_insecure argument_mismatch = ssl_insecure && not (uses_tls scheme)
may_fail scheme ssl_insecure connection_failed = not (is_ssh scheme)
may_fail scheme ssl_insecure ssl_failure = uses_tls scheme
may_fail scheme ssl_insecure ssh_failure = is_ssh scheme
may_fail scheme ssl_insecure _ = false

abbrev pub connection_scheme : {t : Streams} → Connection t → Scheme
connection_scheme (tcp_connection s) = tcp
connection_scheme (tls_connection s) = tls
connection_scheme (ws_connection s) = web_socket
connection_scheme (wss_connection s) = web_socket_tls
connection_scheme (ssh_connection s) = ssh
connection_scheme (unix_connection s) = socket

-- What holds of a result, for either outcome.
pub data Outcome {E A : Type 0} (S : A → Type 0) (F : E → Type 0) : Result E A → Type 0 where
  returned : {a : A} → S a → Outcome S F (ok a)
  failed : {e : E} → F e → Outcome S F (err e)

Outcome-bind :
    {E A B : Type 0} {S : B → Type 0} {F : E → Type 0} (m : Result E A) {f : A → Result E B}
    → ((e : E) → m ≡ err e → F e)
    → ((a : A) → Outcome S F (f a))
    → Outcome S F (m >>= f)
Outcome-bind (ok a) h k = k a
Outcome-bind (err e) h k = failed (h e refl)

Outcome-if :
    {E A : Type 0} {S : A → Type 0} {F : E → Type 0} (b : Bool) (r s : Result E A)
    → (b ≡ true → Outcome S F r)
    → (b ≡ false → Outcome S F s)
    → Outcome S F (if b then r else s)
Outcome-if true r s h k = h refl
Outcome-if false r s h k = k refl

error_or : {A : Type 0} → ConnectError → Result ConnectError A → ConnectError
error_or e (err f) = f
error_or e (ok a) = e

map_err-err :
    {A : Type 0} (f : Bytes → ConnectError) (code : ExitCode) (r : Result Bytes A)
    (e : ConnectError)
    → ((m : Bytes) → (f m).code ≡ code)
    → map_err f r ≡ err e
    → e.code ≡ code
unfolding error_or
map_err-err f code (ok a) e h k = cc k
map_err-err {A} f code (err m) e h k =
    ap (λ (r : Result ConnectError A). (error_or e r).code) (sym k) ∙ h m

module _ {t : Streams} (calls : Calls t) (target : Target) (ssl_insecure : Bool) where
  tcp_code : (e : ConnectError) → tcp_connect calls target ≡ err e → e.code ≡ connection_failed
  unfolding tcp_connect
  tcp_code e h = map_err-err _ connection_failed _ e (λ m. refl) h

  tls_code :
      (s : t.TcpStream) (e : ConnectError)
      → tls_connect calls target ssl_insecure s ≡ err e
      → e.code ≡ ssl_failure
  unfolding tls_connect
  tls_code s e h = map_err-err _ ssl_failure _ e (λ m. refl) h

  ws_code :
      {A : Type 0} (r : Result Bytes A) (e : ConnectError)
      → map_err (ws_error calls) r ≡ err e
      → e.code ≡ connection_failed
  unfolding ws_error
  ws_code r e h = map_err-err _ connection_failed _ e (λ m. refl) h

  ssh_code :
      (e : ConnectError)
      → map_err
          (λ m. record { code = ssh_failure; message = ssh_failed m })
          (calls.ssh_stream target.address target.username target.path)
        ≡ err e
      → e.code ≡ ssh_failure
  ssh_code e h = map_err-err _ ssh_failure _ e (λ m. refl) h

  unix_code :
      (e : ConnectError)
      → map_err
          (λ m. record { code = connection_failed; message = unix_failed target.address m })
          (calls.unix_stream target.address)
        ≡ err e
      → e.code ≡ connection_failed
  unix_code e h = map_err-err _ connection_failed _ e (λ m. refl) h

  connect_scheme-Outcome :
      (k : Scheme)
      → Outcome
          (λ (c : Connection t). connection_scheme c ≡ k)
          (λ (e : ConnectError). may_fail k ssl_insecure e.code ≡ true)
          (connect_scheme calls k target ssl_insecure)
  unfolding connect_scheme
  connect_scheme-Outcome tcp =
      Outcome-bind (tcp_connect calls target) (λ e h. rw (tcp_code e h) refl) λ s. returned refl
  connect_scheme-Outcome tls =
      Outcome-bind (tcp_connect calls target) (λ e h. rw (tcp_code e h) refl)
        λ s.
          Outcome-bind (tls_connect calls target ssl_insecure s) (λ e h. rw (tls_code s e h) refl)
            λ u. returned refl
  connect_scheme-Outcome web_socket =
      Outcome-bind (tcp_connect calls target) (λ e h. rw (tcp_code e h) refl)
        λ s.
          Outcome-bind _
            (λ e h. rw (ws_code (calls.ws_stream s target.address target.path) e h) refl)
            λ u. returned refl
  connect_scheme-Outcome web_socket_tls =
      Outcome-bind (tcp_connect calls target) (λ e h. rw (tcp_code e h) refl)
        λ s.
          Outcome-bind (tls_connect calls target ssl_insecure s) (λ e h. rw (tls_code s e h) refl)
            λ u.
              Outcome-bind _
                (λ e h. rw (ws_code (calls.wss_stream u target.address target.path) e h) refl)
                λ w. returned refl
  connect_scheme-Outcome ssh = Outcome-bind _ (λ e h. rw (ssh_code e h) refl) λ s. returned refl
  connect_scheme-Outcome socket = Outcome-bind _ (λ e h. rw (unix_code e h) refl) λ s. returned refl

  -- A connection that is made is of the target's scheme. An error is of a step that the scheme has: the
  -- option is unused only where there is no TLS, and only TLS fails with SslFailure and only ssh with
  -- SshFailure.
  pub connect-Outcome :
      Outcome
        (λ (c : Connection t). connection_scheme c ≡ target.scheme)
        (λ (e : ConnectError). may_fail target.scheme ssl_insecure e.code ≡ true)
        (connect calls target ssl_insecure)
  unfolding connect
  connect-Outcome =
      Outcome-if (ssl_insecure && not (uses_tls target.scheme)) _ _ (λ h. failed h)
        (λ h. connect_scheme-Outcome target.scheme)
