-- ===== src/Main/Run.antt =====
-- src/main.rs: `run`, from the command line to the exit code, and the loop of events. The result is
-- `none` where the client panics. What is printed and logged is left out.
use rust_xpra.Prelude.{
  Bool, true, false, ◌||◌, Option, none, some, List, [], ◌∷◌, drop, if◌then◌else◌, Bytes, Result,
  ok, err,
}
use rust_xpra.Net.Packet.{Packet}
use rust_xpra.Net.Uri.{Target, UriError, parse_target}
use rust_xpra.Client.Mmap.{MmapArea}
use rust_xpra.Client.Session.{Effect, exited, ExitCode, ok_code, internal_error, argument_mismatch}
use rust_xpra.Main.{Options, ArgsError, is_help, is_version, any_arg, parse_args}
use rust_xpra.Main.Connect.{Streams, Calls, Connection, ConnectError, connect}
use rust_xpra.Main.App.{
  AppState, prompt, session, App, AppEnv, AppEffect, loop_exited, new, new_client, exit_code,
}
use rust_xpra.Main.Events.{AnyEvent, app_resumed, app_user_event, app_window_event}

pub data LoopEvent : Type 0 where
  on_resumed : LoopEvent
  on_packet : Packet → LoopEvent
  on_window : AnyEvent → LoopEvent

-- Whether the loop was told to exit.
unfoldable pub any_exited : List Effect → Bool
any_exited [] = false
any_exited (exited ∷ es) = true
any_exited (_ ∷ es) = any_exited es

unfoldable pub any_loop_exited : List AppEffect → Bool
any_loop_exited [] = false
any_loop_exited (loop_exited ∷ es) = true
any_loop_exited (_ ∷ es) = any_loop_exited es

module _ {t : Streams} where
  abbrev client_exited : AppState t → Bool
  client_exited (session connection target client) = any_exited client.effects
  client_exited (prompt form) = false

  unfoldable pub loop_ends : App t → Bool
  loop_ends app = any_loop_exited app.effects || client_exited app.state

  unfoldable pub app_event : AppEnv t → LoopEvent → App t → Option (App t)
  app_event env on_resumed app = app_resumed env app
  app_event env (on_packet p) app = app_user_event env p app
  app_event env (on_window e) app = app_window_event env e app

  -- `event_loop.run_app`, over the events that come, until the loop is told to exit.
  unfoldable pub run_app : List (AppEnv t × LoopEvent) → App t → Option (App t)
  run_app [] app = some app
  run_app ((env, e) ∷ events) app = elim (app_event env e app) [
    | none ↦ none
    | some next ↦ let rest = run_app events next in if loop_ends next then some next else rest
  ]

module _ (t : Streams) where
  -- What the outside gives a run: the calls that connect, whether there is an event loop and whether it
  -- ends in an error, the shared area, and the events.
  pub record RunEnv : Type 0 where
    pub calls : Calls t
    pub loop_builds : Bool
    pub loop_fails : Bool
    pub area : Option MmapArea
    pub events : List (AppEnv t × LoopEvent)

module _ {t : Streams} where
  abbrev pub loop_result : Bool → Option (App t) → Option ExitCode
  loop_result fails none = none
  loop_result fails (some app) = some (if fails then internal_error else exit_code app)

  abbrev pub with_session : App t → Option (Connection t × Bytes) → App t
  with_session app none = app
  with_session app (some (connection, target)) = record app {
    state = session connection target (new_client app none none);
  }

  unfoldable pub run_loop : RunEnv t → Bool → Option (Connection t × Bytes) → Option ExitCode
  run_loop env ssl_insecure connected =
      let ended = run_app env.events (with_session (new env.area ssl_insecure) connected) in
      if env.loop_builds then loop_result env.loop_fails ended else some internal_error

  unfoldable pub run_connected :
      RunEnv t → Bool → Bytes → Result ConnectError (Connection t) → Option ExitCode
  run_connected env ssl_insecure target (ok connection) =
      run_loop env ssl_insecure (some (connection, target))
  run_connected env ssl_insecure target (err e) = some e.code

  unfoldable pub run_target : RunEnv t → Bool → Bytes → Result UriError Target → Option ExitCode
  run_target env ssl_insecure text (ok target) =
      run_connected env ssl_insecure text (connect env.calls target ssl_insecure)
  run_target env ssl_insecure text (err e) = some argument_mismatch

  abbrev pub run_option : RunEnv t → Bool → Option Bytes → Option ExitCode
  run_option env ssl_insecure none = run_loop env ssl_insecure none
  run_option env ssl_insecure (some text) = run_target env ssl_insecure text (parse_target text)

  unfoldable pub run_parsed : RunEnv t → Result ArgsError Options → Option ExitCode
  run_parsed env (ok options) = run_option env options.ssl_insecure options.target
  run_parsed env (err e) = some argument_mismatch

  unfoldable pub run : RunEnv t → List Bytes → Option ExitCode
  run env args =
      if any_arg is_help (drop 1 args)
      then some ok_code
      else if any_arg is_version (drop 1 args)
      then some ok_code
      else run_parsed env (parse_args args)
