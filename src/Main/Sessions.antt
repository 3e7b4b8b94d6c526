-- ===== src/Main/Sessions.antt =====
-- The session that the loop ends up with, and its exit code.
use mathlib.Core.Option
use mathlib.Core.Option.{or_else}
use rust_xpra.Prelude.{
  ◌≡◌, refl, sym, ap, ◌∙◌, subst, true, false, Bool-cases, inl, inr, Option, none, some,
  some_injective, List, [], ◌∷◌, ◌++◌, if◌then◌else◌, Bytes, codes, Result, ok, err,
}
use rust_xpra.Net.Packet.{Packet, len, get_str}
use rust_xpra.Net.Uri.{Target, parse_target}
use rust_xpra.Client.Session.{Session, Env, ExitCode, ok_code, client_packet, new as new_session}
use rust_xpra.Client.Session.Dispatch.{resumed, user_event}
use rust_xpra.Client.Session.Input.{Key}
use rust_xpra.Client.Session.Runs.{
  Step, packet, submit, resume, input, cancel, Run, here, Run-exit_code,
}
use rust_xpra.Client.Session.Runs
use rust_xpra.Client.Session.Returns.{resumed_returns}
use rust_xpra.Client.ConnectDialog.{
  ConnectDialog, ConnectDetails, connect_action, set_connecting, set_error, error_status, draw,
}
use rust_xpra.Client.ConnectDialog.Keys.{handle_key}
use rust_xpra.Main.Connect.{Streams, Connection, ConnectError, connect}
use rust_xpra.Main.App.{
  AppState, prompt, session, App, AppEnv, new_client, session_code, exit_code, run_client, emit,
  connecting_to, with_dialog, try_target, start_parsed, start_connect, start_session, outcome,
  finish_with, finish_connect,
}
use rust_xpra.Main.Events.{
  AnyEvent, for_form, for_window, for_password, keyboard_input, act, handle_form,
  handle_dialog_event, client_event, resumed_in, user_event_in, window_event_in, app_resumed,
  app_user_event, app_window_event,
}
use rust_xpra.Main.Run.{LoopEvent, on_resumed, on_packet, on_window, app_event, run_app, loop_ends}

-- The packet by which the thread wakes the loop.
abbrev pub connect_result_packet : Packet
connect_result_packet = client_packet (codes "connect-result") []

-- A step of the session keeps its exit code.
step_code : (c : ExitCode) (s u : Session) → s.exit_code ≡ some c → Step s u → u.exit_code ≡ some c
step_code c s u e step = (Run-exit_code c e (Runs.next here step)).0

client_event_code :
    (env : Env) (e : AnyEvent) (c : ExitCode) (s u : Session)
    → s.exit_code ≡ some c
    → client_event env e s ≡ some (tt, u)
    → u.exit_code ≡ some c
unfolding client_event
client_event_code env (for_form e) c s u h k =
    ap (λ (r : Unit {0} × Session). r.1.exit_code) (sym (some_injective k)) ∙ h
client_event_code env (for_window wid e) c s u h k = step_code c s u h (input env wid e k)
client_event_code env (for_password (some password)) c s u h k =
    step_code c s u h (submit env password k)
client_event_code env (for_password none) c s u h k = step_code c s u h (cancel k)

module _ {t : Streams} where
  run_client_code :
      (app next : App t) (connection : Connection t) (target : Bytes) (c : ExitCode) (s : Session)
      (o : Option (Unit {0} × Session))
      → s.exit_code ≡ some c
      → ((u : Session) → o ≡ some (tt, u) → u.exit_code ≡ some c)
      → run_client app connection target o ≡ some next
      → session_code next.state ≡ some c
  run_client_code app next connection target c s none h f k = cc k
  run_client_code app next connection target c s (some (u, later)) h f k =
      ap (λ (a : App t). session_code a.state) (sym (some_injective k)) ∙ f later refl

  event_code :
      (env : AppEnv t) (e : LoopEvent) (app next : App t) (state : AppState t) (c : ExitCode)
      → app.state ≡ state
      → session_code state ≡ some c
      → app_event env e app ≡ some next
      → session_code next.state ≡ some c
  unfolding app_event app_resumed app_user_event app_window_event resumed_in user_event_in
      window_event_in
  event_code env e app next (prompt form) c p h k = cc h
  event_code env on_resumed app next (session connection target client) c p h k =
      run_client_code app next connection target c client (resumed env.client client) h
        (λ u q. step_code c client u h (resume env.client q))
        (subst (λ st. resumed_in env st app ≡ some next) p k)
  event_code env (on_packet pk) app next (session connection target client) c p h k =
      run_client_code app next connection target c client (user_event env.client pk client) h
        (λ u q. step_code c client u h (packet env.client pk q))
        (subst (λ st. user_event_in env pk st app ≡ some next) p k)
  event_code env (on_window e) app next (session connection target client) c p h k =
      run_client_code app next connection target c client (client_event env.client e client) h
        (λ u q. client_event_code env.client e c client u h q)
        (subst (λ st. window_event_in env e st app ≡ some next) p k)

  pub code_of : (app : App t) (c : ExitCode) → session_code app.state ≡ some c → exit_code app ≡ c
  unfolding exit_code or_else
  code_of app c h = ap (λ o. Option.get_or (or_else o app.exit_code) ok_code) h

  -- The exit code that the session has is the one of the application, whatever events still come.
  pub run_app-exit_code :
      (events : List (AppEnv t × LoopEvent)) (app last : App t) (c : ExitCode)
      → session_code app.state ≡ some c
      → run_app events app ≡ some last
      → exit_code last ≡ c
  unfolding run_app
  run_app-exit_code [] app last c h k = ap exit_code (sym (some_injective k)) ∙ code_of app c h
  run_app-exit_code ((env, e) ∷ events) app last c h k =
      behind (app_event env e app) refl k (λ next h' k'. run_app-exit_code events next last c h' k')
    where
      behind :
          (x : Option (App t))
          → app_event env e app ≡ x
          → elim x [
            | none ↦ none
            | some next ↦
                let rest = run_app events next in if loop_ends next then some next else rest
          ]
            ≡ some last
          → ((next : App t)
              → session_code next.state ≡ some c
              → run_app events next ≡ some last
              → exit_code last ≡ c)
          → exit_code last ≡ c
      behind none q k f = cc k
      behind (some next) q k f =
          let kept = event_code env e app next app.state c refl h q in
          elim (Bool-cases (loop_ends next)) [
            | inl b ↦ ap exit_code (sym (some_injective (rw b at k))) ∙ code_of next c kept
            | inr b ↦ f next kept (rw b at k)
          ]

  -- The form when an attempt for `details` has started.
  abbrev pub attempting : AppEnv t → ConnectDetails → Target → ConnectDialog → App t → App t
  attempting env details target form app = record app {
    state = prompt (some (set_connecting env.display details.uri form));
    connect_rx = some (connect env.calls target app.ssl_insecure);
    pending = some details;
    effects = app.effects ++ (connecting_to target app.ssl_insecure ∷ []);
  }

  pressed :
      (env : AppEnv t) (app : App t) (form next : ConnectDialog) (k : Key) (text : Option Bytes)
      (details : ConnectDetails) (target : Target)
      → handle_key env.display true k text form ≡ (connect_action details, next)
      → parse_target details.uri ≡ ok target
      → app_event env
          (on_window (for_form (keyboard_input false true k text)))
          (record app { state = prompt (some form) })
        ≡ some (attempting env details target next app)
  unfolding app_event app_window_event window_event_in handle_dialog_event handle_form act
      start_connect start_parsed try_target with_dialog emit
  pressed env app form next k text details target h p = rw (h, p) refl

  -- The outcome that the thread has sent, when its packet arrives.
  arrived :
      (env : AppEnv t) (details : ConnectDetails) (r : Result ConnectError (Connection t))
      (app : App t) (form : ConnectDialog)
      → env.received ≡ true
      → app_event env
          (on_packet connect_result_packet)
          (record app { state = prompt (some form); connect_rx = some r; pending = some details })
        ≡ outcome env r details
            (record app { state = prompt (some form); connect_rx = none; pending = none })
  unfolding app_event app_user_event user_event_in finish_connect finish_with get_str len
      rust_xpra.Net.Packet.yaml_str
  arrived env details r app form h =
      let idle = record app { state = prompt (some form); connect_rx = none; pending = none } in
      ap (λ b. if b then outcome env r details idle else some idle) h

  started :
      (env : AppEnv t) (connection : Connection t) (details : ConnectDetails) (app : App t)
      (client : Session)
      → resumed env.client (new_client app details.username details.password) ≡ some (tt, client)
      → outcome env (ok connection) details app
        ≡ some (record app { state = session connection details.uri client; context = false })
  unfolding outcome start_session
  started env connection details app client h =
      ap (run_client (record app { context = false }) connection details.uri) h

  -- When a key makes a form that is shown connect, to a URI that names a target, and the thread's
  -- connection is made, the packet that tells of it starts a session with this connection and with
  -- what the user typed as its name and password; its first step is `resumed`.
  pub form_connects :
      (env later : AppEnv t) (app : App t) (form next : ConnectDialog) (k : Key)
      (text : Option Bytes) (details : ConnectDetails) (target : Target) (connection : Connection t)
      → handle_key env.display true k text form ≡ (connect_action details, next)
      → parse_target details.uri ≡ ok target
      → connect env.calls target app.ssl_insecure ≡ ok connection
      → later.received ≡ true
      → (middle : App t) × (last : App t) × (client : Session) × (app_event env
            (on_window (for_form (keyboard_input false true k text)))
            (record app { state = prompt (some form) })
          ≡ some middle)
        × (app_event later (on_packet connect_result_packet) middle ≡ some last)
        × (last.state ≡ session connection details.uri client)
        × (resumed later.client (record (new_session app.mmap) {
          username = details.username;
          password = details.password;
        })
            ≡ some (tt, client))
  unfolding new_client
  form_connects env later app form next k text details target connection h p c r =
      let middle = attempting env details target next app in
      let shown = set_connecting env.display details.uri next in
      let idle = record middle { connect_rx = none; pending = none } in
      let (client, s) = resumed_returns later.client (record (new_session app.mmap) {
        username = details.username;
        password = details.password;
      }) in
      (
        middle,
        record idle { state = session connection details.uri client; context = false },
        client,
        pressed env app form next k text details target h p,
        arrived later details (connect env.calls target app.ssl_insecure) middle shown r
            ∙ ap (λ o. outcome later o details idle) c
            ∙ started later connection details idle client s,
        refl,
        s,
      )

  -- When a key makes a form that is shown connect, to a URI that names a target, and the thread's
  -- connection fails, the packet that tells of it shows the form again as the key left it, drawn with
  -- the text of the error as its status; no attempt is in flight, and the exit code stays.
  pub form_fails :
      (env later : AppEnv t) (app : App t) (form next : ConnectDialog) (k : Key)
      (text : Option Bytes) (details : ConnectDetails) (target : Target) (e : ConnectError)
      → handle_key env.display true k text form ≡ (connect_action details, next)
      → parse_target details.uri ≡ ok target
      → connect env.calls target app.ssl_insecure ≡ err e
      → later.received ≡ true
      → (middle : App t) × (last : App t) × (app_event env
            (on_window (for_form (keyboard_input false true k text)))
            (record app { state = prompt (some form) })
          ≡ some middle)
        × (app_event later (on_packet connect_result_packet) middle ≡ some last)
        × (last.pending ≡ none)
        × (last.exit_code ≡ app.exit_code)
        × (last.state
            ≡ prompt (
                some (
                  draw later.display
                    (record next { status = error_status (later.connect_text e.message) }))))
  unfolding outcome with_dialog set_error set_connecting draw
  form_fails env later app form next k text details target e h p c r =
      let middle = attempting env details target next app in
      let shown = set_connecting env.display details.uri next in
      let idle = record middle { connect_rx = none; pending = none } in
      (
        middle,
        with_dialog (set_error later.display (later.connect_text e.message)) idle,
        pressed env app form next k text details target h p,
        arrived later details (connect env.calls target app.ssl_insecure) middle shown r
            ∙ ap (λ o. outcome later o details idle) c,
        refl,
        refl,
        refl,
      )
