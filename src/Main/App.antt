-- ===== src/Main/App.antt =====
-- src/main.rs: the handler of the event loop, which first shows the form and then is the session.
-- The result of a handler is `none` where the client panics.
use mathlib.Core.Option
use mathlib.Core.Option.{or_else}
use rust_xpra.Prelude.{
  Bool, true, false, Option, none, some, List, [], ◌∷◌, ◌++◌, if◌then◌else◌, Bytes, Result, ok, err,
}
use rust_xpra.Net.Uri.{Target, UriError, parse_target}
use rust_xpra.Client.Mmap.{MmapArea}
use rust_xpra.Client.Session.{
  Session, Env, ExitCode, ok_code, internal_error, first, new as new_session,
}
use rust_xpra.Client.Session.Dispatch.{resumed}
use rust_xpra.Client.ConnectDialog.{
  ConnectDialog, ConnectDetails, ConnectAction, no_action, cancel_action, connect_action, Display,
  draw, set_error, set_connecting, set_modifiers, set_pointer,
}
use rust_xpra.Client.ConnectDialog
use rust_xpra.Main.Connect.{Streams, Calls, Connection, ConnectError, ConnectMessage, connect}

-- What is done to the outside.
pub data AppEffect : Type 0 where
  loop_exited : AppEffect
  connecting_to : Target → Bool → AppEffect

module _ (t : Streams) where
  pub data AppState : Type 0 where
    prompt : Option ConnectDialog → AppState
    session : Connection t → Bytes → Session → AppState

  -- Of the context it matters only whether it is there; the receiver of a connection's thread is the
  -- outcome that the thread sends.
  pub record App : Type 0 where
    pub state : AppState
    pub context : Bool
    pub mmap : Option MmapArea
    pub ssl_insecure : Bool
    pub pending : Option ConnectDetails
    pub connect_rx : Option (Result ConnectError (Connection t))
    pub exit_code : Option ExitCode
    pub effects : List AppEffect

  -- What the outside answers during an event: the form's window, whether the context and the form can
  -- be made, the calls that connect, whether the outcome of the thread is there, the text of an error,
  -- and what the session asks.
  pub record AppEnv : Type 0 where
    pub display : Display
    pub context_opens : Bool
    pub dialog_opens : Bool
    pub calls : Calls t
    pub received : Bool
    pub connect_text : ConnectMessage → Bytes
    pub uri_text : UriError → Bytes
    pub client : Env

module _ {t : Streams} where
  unfoldable pub new : Option MmapArea → Bool → App t
  new area insecure = record {
    state = prompt none;
    context = false;
    mmap = area;
    ssl_insecure = insecure;
    pending = none;
    connect_rx = none;
    exit_code = none;
    effects = [];
  }

  unfoldable pub new_client : App t → Option Bytes → Option Bytes → Session
  new_client app username password = record (new_session app.mmap) {
    username = username;
    password = password;
  }

  unfoldable pub emit : AppEffect → App t → App t
  emit e app = record app { effects = app.effects ++ (e ∷ []) }

  unfoldable pub quit : ExitCode → App t → App t
  quit code app = emit loop_exited (record app { exit_code = some (first app.exit_code code) })

  abbrev pub session_code : AppState t → Option ExitCode
  session_code (session connection target client) = client.exit_code
  session_code (prompt dialog) = none

  unfoldable pub exit_code : App t → ExitCode
  exit_code app = Option.get_or (or_else (session_code app.state) app.exit_code) ok_code

  -- The form, if it is shown.
  abbrev pub dialog : AppState t → Option ConnectDialog
  dialog (prompt form) = form
  dialog (session connection target client) = none

  -- `if let Some(dialog) = self.dialog() { ... }`
  unfoldable pub with_dialog : (ConnectDialog → ConnectDialog) → App t → App t
  with_dialog f app = elim (dialog app.state) [
    | some form ↦ record app { state = prompt (some (f form)) }
    | none ↦ app
  ]

  unfoldable pub show_dialog : AppEnv t → App t → App t
  show_dialog env app =
      if env.context_opens
      then if env.dialog_opens
        then record app { context = true; state = prompt (some (ConnectDialog.new env.display)) }
        else quit internal_error app
      else quit internal_error app

  -- The thread calls `connect` for itself, and sends what comes of it.
  unfoldable pub try_target : AppEnv t → ConnectDetails → Target → App t → App t
  try_target env details target app =
      let shown = with_dialog (set_connecting env.display details.uri) app in
      emit (connecting_to target app.ssl_insecure) (record shown {
        connect_rx = some (connect env.calls target app.ssl_insecure);
        pending = some details;
      })

  unfoldable pub start_parsed : AppEnv t → ConnectDetails → Result UriError Target → App t → App t
  start_parsed env details (ok target) app = try_target env details target app
  start_parsed env details (err e) app = with_dialog (set_error env.display (env.uri_text e)) app

  unfoldable pub start_connect : AppEnv t → ConnectDetails → App t → App t
  start_connect env details app = start_parsed env details (parse_target details.uri) app

  -- What a handler of the session makes of its state.
  abbrev pub run_client :
      (app : App t) → Connection t → Bytes → Option (Unit {0} × Session) → Option (App t)
  run_client app connection target none = none
  run_client app connection target (some (_, client)) =
      some (record app { state = session connection target client })

  unfoldable pub start_session : AppEnv t → Connection t → ConnectDetails → App t → Option (App t)
  start_session env connection details app =
      run_client (record app { context = false }) connection details.uri
        (resumed env.client (new_client app details.username details.password))

  unfoldable pub outcome :
      AppEnv t → Result ConnectError (Connection t) → ConnectDetails → App t → Option (App t)
  outcome env (ok connection) details app = start_session env connection details app
  outcome env (err e) details app =
      some (with_dialog (set_error env.display (env.connect_text e.message)) app)

  unfoldable pub finish_with :
      AppEnv t
      → Option (Result ConnectError (Connection t))
      → Option ConnectDetails
      → App t
      → Option (App t)
  finish_with env (some rx) (some details) app =
      if env.received then outcome env rx details app else some app
  finish_with env _ _ app = some app

  -- Both are taken, whether there are both or not.
  unfoldable pub finish_connect : AppEnv t → App t → Option (App t)
  finish_connect env app =
      finish_with env app.connect_rx app.pending (record app { connect_rx = none; pending = none })
