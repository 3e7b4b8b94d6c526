-- ===== src/Main/Connect.antt =====
-- src/main.rs: `connect`, over the transports.
use rust_xpra.Prelude.{
  Bool, true, false, not, ◌&&◌, Option, if◌then◌else◌, Bytes, Result, ok, err, ◌>>=◌,
}
use rust_xpra.Net.Uri.{Scheme, Target, tcp, tls, web_socket, web_socket_tls, ssh, socket, host_only}
use rust_xpra.Client.Session.{
  ExitCode, argument_mismatch, connection_failed, ssl_failure, ssh_failure,
}

-- The streams, and the calls that make them or fail with a text: sockets of the system, src/net/tls.rs,
-- `connect` of src/net/websocket.rs and of src/net/ssh.rs.
pub record Streams : Type 1 where
  pub TcpStream : Type 0
  pub TlsStream : Type 0
  pub WsStream : Type 0
  pub WssStream : Type 0
  pub SshStream : Type 0
  pub UnixStream : Type 0

pub record Calls (t : Streams) : Type 0 where
  pub tcp_stream : Bytes → Result Bytes t.TcpStream
  pub tls_stream : t.TcpStream → Bytes → Bool → Result Bytes t.TlsStream
  pub ws_stream : t.TcpStream → Bytes → Bytes → Result Bytes t.WsStream
  pub wss_stream : t.TlsStream → Bytes → Bytes → Result Bytes t.WssStream
  pub ssh_stream : Bytes → Option Bytes → Bytes → Result Bytes t.SshStream
  pub unix_stream : Bytes → Result Bytes t.UnixStream

-- `Connection`
pub data Connection (t : Streams) : Type 0 where
  tcp_connection : t.TcpStream → Connection t
  tls_connection : t.TlsStream → Connection t
  ws_connection : t.WsStream → Connection t
  wss_connection : t.WssStream → Connection t
  ssh_connection : t.SshStream → Connection t
  unix_connection : t.UnixStream → Connection t

-- The messages of the errors, with what they show; `tls_failed` with whether there is a hint.
pub data ConnectMessage : Type 0 where
  insecure_unused : ConnectMessage
  tcp_failed : Bytes → Bytes → ConnectMessage
  tls_failed : Bytes → Bool → ConnectMessage
  websocket_failed : Bytes → ConnectMessage
  ssh_failed : Bytes → ConnectMessage
  unix_failed : Bytes → Bytes → ConnectMessage

pub record ConnectError : Type 0 where
  pub code : ExitCode
  pub message : ConnectMessage

abbrev pub uses_tls : Scheme → Bool
uses_tls tls = true
uses_tls web_socket_tls = true
uses_tls _ = false

-- `r.map_err(f)`
abbrev pub map_err : {A : Type 0} → (Bytes → ConnectError) → Result Bytes A → Result ConnectError A
map_err f (ok a) = ok a
map_err f (err e) = err (f e)

module _ {t : Streams} (calls : Calls t) where
  open calls use {tcp_stream, tls_stream, ws_stream, wss_stream, ssh_stream, unix_stream}

  unfoldable pub tcp_connect : Target → Result ConnectError t.TcpStream
  tcp_connect target =
      map_err (λ e. record { code = connection_failed; message = tcp_failed target.address e })
        (tcp_stream target.address)

  unfoldable pub tls_connect : Target → Bool → t.TcpStream → Result ConnectError t.TlsStream
  tls_connect target ssl_insecure stream =
      map_err (λ e. record { code = ssl_failure; message = tls_failed e (not ssl_insecure) })
        (tls_stream stream (host_only target.address) ssl_insecure)

  unfoldable pub ws_error : Bytes → ConnectError
  ws_error e = record { code = connection_failed; message = websocket_failed e }

  -- `match target.scheme`, as it is compiled on Unix
  unfoldable pub connect_scheme : Scheme → Target → Bool → Result ConnectError (Connection t)
  connect_scheme tcp target ssl_insecure = do
    stream ← tcp_connect target
    ok (tcp_connection stream)
  connect_scheme tls target ssl_insecure = do
    stream ← tcp_connect target
    secured ← tls_connect target ssl_insecure stream
    ok (tls_connection secured)
  connect_scheme web_socket target ssl_insecure = do
    stream ← tcp_connect target
    ws ← map_err ws_error (ws_stream stream target.address target.path)
    ok (ws_connection ws)
  connect_scheme web_socket_tls target ssl_insecure = do
    stream ← tcp_connect target
    secured ← tls_connect target ssl_insecure stream
    ws ← map_err ws_error (wss_stream secured target.address target.path)
    ok (wss_connection ws)
  connect_scheme ssh target ssl_insecure = do
    stream ←
        map_err (λ e. record { code = ssh_failure; message = ssh_failed e })
          (ssh_stream target.address target.username target.path)
    ok (ssh_connection stream)
  connect_scheme socket target ssl_insecure = do
    stream ←
        map_err (λ e. record { code = connection_failed; message = unix_failed target.address e })
          (unix_stream target.address)
    ok (unix_connection stream)

  unfoldable pub connect : Target → Bool → Result ConnectError (Connection t)
  connect target ssl_insecure =
      if ssl_insecure && not (uses_tls target.scheme)
      then err (record { code = argument_mismatch; message = insecure_unused })
      else connect_scheme target.scheme target ssl_insecure
