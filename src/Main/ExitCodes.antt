-- ===== src/Main/ExitCodes.antt =====
-- The exit code of the process, from the command line on.
use rust_xpra.Prelude.{
  ◌≡◌, refl, sym, ap, ◌∙◌, true, false, not, ◌&&◌, Bool, Bool-cases, inl, inr, Option, none, some,
  some_injective, List, [], ◌∷◌, ◌++◌, if◌then◌else◌, drop, Bytes, ok,
}
use rust_xpra.Net.Uri.{Target, parse_target}
use rust_xpra.Client.Session.{ExitCode, internal_error}
use rust_xpra.Main.{Options, is_help, is_version, any_arg, parse_args}
use rust_xpra.Main.Connect.{Streams, Connection, connect}
use rust_xpra.Main.App.{App, AppEnv, new, session_code, exit_code}
use rust_xpra.Main.Run.{
  LoopEvent, RunEnv, app_event, run_app, loop_ends, with_session, loop_result, run_loop,
  run_connected, run_target, run_parsed, run,
}
use rust_xpra.Main.Sessions.{code_of, run_app-exit_code}

module _ {t : Streams} where
  -- The events `before` lead to a session with an exit code, and `after` may come behind them.
  reached :
      (before after : List (AppEnv t × LoopEvent)) (app middle last : App t) (c : ExitCode)
      → session_code middle.state ≡ some c
      → run_app before app ≡ some middle
      → run_app (before ++ after) app ≡ some last
      → exit_code last ≡ c
  unfolding run_app
  reached [] after app middle last c k m r =
      run_app-exit_code after app last c
        (ap (λ (a : App t). session_code a.state) (some_injective m) ∙ k) r
  reached ((env, e) ∷ before) after app middle last c k m r =
      behind (app_event env e app) m r
        (λ next m' r'. reached before after next middle last c k m' r')
    where
      behind :
          (x : Option (App t))
          → elim x [
            | none ↦ none
            | some next ↦
                let rest = run_app before next in if loop_ends next then some next else rest
          ]
            ≡ some middle
          → elim x [
            | none ↦ none
            | some next ↦
                let rest = run_app (before ++ after) next in
                if loop_ends next then some next else rest
          ]
            ≡ some last
          → ((next : App t)
              → run_app before next ≡ some middle
              → run_app (before ++ after) next ≡ some last
              → exit_code last ≡ c)
          → exit_code last ≡ c
      behind none p q f = cc p
      behind (some next) p q f = elim (Bool-cases (loop_ends next)) [
        | inl b ↦
            let there : next ≡ middle = some_injective (rw b at p) in
            let here : next ≡ last = some_injective (rw b at q) in
            code_of last c (ap (λ (a : App t). session_code a.state) (sym here ∙ there) ∙ k)
        | inr b ↦ f next (rw b at p) (rw b at q)
      ]

  -- What the loop of events starts with: the form, or the connection to the target of the command line.
  abbrev pub Starts : RunEnv t → Options → Option (Connection t × Bytes) → Type 0
  Starts env options none = options.target ≡ none
  Starts env options (some (connection, text)) =
      (options.target ≡ some text)
      × (target : Target) × (parse_target text ≡ ok target)
      × (connect env.calls target options.ssl_insecure ≡ ok connection)

  run-run_loop :
      (env : RunEnv t) (args : List Bytes) (options : Options)
      (start : Option (Connection t × Bytes))
      → any_arg is_help (drop 1 args) ≡ false
      → any_arg is_version (drop 1 args) ≡ false
      → parse_args args ≡ ok options
      → Starts env options start
      → run env args ≡ run_loop env options.ssl_insecure start
  unfolding run run_parsed run_target run_connected
  run-run_loop env args options none h v p s = rw (h, v, p, run_parsed, s) refl
  run-run_loop env args options (some (connection, text)) h v p (s, target, q, c) =
      rw (h, v, p, run_parsed, s, q, run_target, c) refl

  ended :
      (builds fails : Bool) (o : Option (App t)) (c code : ExitCode)
      → ((last : App t) → o ≡ some last → exit_code last ≡ c)
      → (if builds then loop_result fails o else some internal_error) ≡ some code
      → code ≡ (if builds && not fails then c else internal_error)
  ended false fails o c code f h = sym (some_injective h)
  ended true fails none c code f h = cc h
  ended true true (some last) c code f h = sym (some_injective h)
  ended true false (some last) c code f h = sym (some_injective h) ∙ f last refl

  -- Once the events of a run, which a command line that asks for neither help nor version starts with
  -- the form or with a connection, have led to a session with an exit code, this is the code of the
  -- process, whatever events still come, unless the client panics: only where there is no event loop,
  -- or it fails, is it InternalError.
  pub run-exit_code :
      (env : RunEnv t) (args : List Bytes) (options : Options)
      (start : Option (Connection t × Bytes)) (before after : List (AppEnv t × LoopEvent))
      (middle : App t) (c code : ExitCode)
      → any_arg is_help (drop 1 args) ≡ false
      → any_arg is_version (drop 1 args) ≡ false
      → parse_args args ≡ ok options
      → Starts env options start
      → env.events ≡ before ++ after
      → run_app before (with_session (new env.area options.ssl_insecure) start) ≡ some middle
      → session_code middle.state ≡ some c
      → run env args ≡ some code
      → code ≡ (if env.loop_builds && not env.loop_fails then c else internal_error)
  unfolding run_loop
  run-exit_code env args options start before after middle c code h v p s es m k r =
      let app = with_session (new env.area options.ssl_insecure) start in
      ended env.loop_builds env.loop_fails (run_app env.events app) c code
        (λ last e.
          reached before after app middle last c k m
            (ap (λ (l : List (AppEnv t × LoopEvent)). run_app l app) (sym es) ∙ e))
        (sym (run-run_loop env args options start h v p s) ∙ r)
