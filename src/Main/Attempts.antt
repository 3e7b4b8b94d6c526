-- ===== src/Main/Attempts.antt =====
-- The form and the thread that connects: one attempt at a time.
use rust_xpra.Prelude.{
  ℕ, suc, ◌+◌, ◌≤◌, ◌≡◌, refl, sym, ap, ◌∙◌, Bool, true, false, not, ◌||◌, Bool-cases, ◌⊎◌, inl,
  inr, Option, none, some, Option-cases, List, [], ◌∷◌, ◌++◌, if◌then◌else◌, arith, Bytes, Result,
  ok, err,
}
use rust_xpra.Net.Uri.{Target, UriError, parse_target}
use rust_xpra.Client.Session.{Session}
use rust_xpra.Client.ConnectDialog.{
  ConnectDialog, ConnectDetails, ConnectAction, no_action, cancel_action, connect_action, draw,
  set_error, set_connecting, connecting,
}
use rust_xpra.Main.Connect.{Streams, Connection, ConnectError}
use rust_xpra.Main.App.{
  AppEffect, loop_exited, connecting_to, AppState, prompt, session, App, AppEnv, quit, emit, dialog,
  with_dialog, show_dialog, try_target, start_parsed, start_connect, run_client, start_session,
  outcome, finish_with,
}
use rust_xpra.Main.Events.{act, report}

abbrev pub is_some : {A : Type 0} → Option A → Bool
is_some none = false
is_some (some a) = true

-- The attempts that were started.
abbrev pub attempts : List AppEffect → ℕ
attempts [] = 0
attempts (connecting_to target insecure ∷ es) = suc (attempts es)
attempts (loop_exited ∷ es) = attempts es

module _ {t : Streams} where
  -- While an attempt is in flight there is a form, and it is frozen.
  abbrev pub is_waiting : AppState t → Bool → Bool
  is_waiting (prompt none) attempt = not attempt
  is_waiting (prompt (some form)) attempt = not attempt || connecting form
  is_waiting (session connection target client) attempt = not attempt

  pub record IsApp (app : App t) : Type 0 where
    pub paired : is_some app.pending ≡ is_some app.connect_rx
    pub waiting : is_waiting app.state (is_some app.pending) ≡ true

  -- A later state, with an attempt more only where none was in flight.
  pub record IsNext (app next : App t) : Type 0 where
    pub kept : IsApp next
    pub few :
        attempts next.effects + (if is_some app.pending then 1 else 0) ≤ attempts app.effects + 1

  pub data IfSome (P : App t → Type 0) : Option (App t) → Type 0 where
    panics : IfSome P none
    holds : {next : App t} → P next → IfSome P (some next)

pub attempts-quit : (es : List AppEffect) → attempts (es ++ (loop_exited ∷ [])) ≡ attempts es
attempts-quit [] = refl
attempts-quit (connecting_to target insecure ∷ es) = ap suc (attempts-quit es)
attempts-quit (loop_exited ∷ es) = attempts-quit es

attempts-connecting :
    (es : List AppEffect) (target : Target) (insecure : Bool)
    → attempts (es ++ (connecting_to target insecure ∷ [])) ≡ suc (attempts es)
attempts-connecting [] target insecure = refl
attempts-connecting (connecting_to u b ∷ es) target insecure =
    ap suc (attempts-connecting es target insecure)
attempts-connecting (loop_exited ∷ es) target insecure = attempts-connecting es target insecure

abbrev pub is_connect : ConnectAction → Bool
is_connect (connect_action details) = true
is_connect _ = false

module _ {t : Streams} where
  pub IfSome-if :
      {P : App t → Type 0} (b : Bool) (r s : Option (App t))
      → IfSome P r
      → IfSome P s
      → IfSome P (if b then r else s)
  IfSome-if true r s h k = h
  IfSome-if false r s h k = k

  idle : (state : AppState t) → is_waiting state false ≡ true
  idle (prompt none) = refl
  idle (prompt (some form)) = refl
  idle (session connection target client) = refl

  -- Nothing new in flight, and no new attempt.
  pub still :
      (app next : App t)
      → IsApp app
      → next.pending ≡ app.pending
      → next.connect_rx ≡ app.connect_rx
      → is_waiting next.state (is_some app.pending) ≡ true
      → attempts next.effects ≡ attempts app.effects
      → IsNext app next
  still app next h p r w e = record {
    kept = record {
      paired = ap is_some p ∙ h.paired ∙ ap is_some (sym r);
      waiting = ap (λ q. is_waiting next.state (is_some q)) p ∙ w;
    };
    few = ground (arith, e);
  }

  -- Nothing in flight any more, and no new attempt.
  done :
      (app next : App t)
      → next.pending ≡ none
      → next.connect_rx ≡ none
      → attempts next.effects ≡ attempts app.effects
      → IsNext app next
  done app next p r e = record {
    kept = record {
      paired = ap is_some p ∙ ap is_some (sym r);
      waiting = ap (λ q. is_waiting next.state (is_some q)) p ∙ idle next.state;
    };
    few = ground (arith, e);
  }

  pub session-IsNext :
      (app : App t) (connection : Connection t) (target : Bytes) (client : Session)
      (o : Option (Unit {0} × Session))
      → IsApp app
      → app.state ≡ session connection target client
      → IfSome (IsNext app) (run_client app connection target o)
  session-IsNext app connection target client none h e = panics
  session-IsNext app connection target client (some (u, later)) h e = holds (
      still app _ h refl refl (ap (λ s. is_waiting s (is_some app.pending)) (sym e) ∙ h.waiting)
        refl)

  pub show_dialog-IsNext :
      (env : AppEnv t) (app : App t)
      → IsApp app
      → app.state ≡ prompt none
      → IsNext app (show_dialog env app)
  unfolding show_dialog quit emit
  show_dialog-IsNext env app h e =
      let free : not (is_some app.pending) ≡ true =
        ap (λ s. is_waiting s (is_some app.pending)) (sym e) ∙ h.waiting in
      elim (Bool-cases env.context_opens) [
        | inr c ↦
            rw (c, show_dialog) (still app _ h refl refl h.waiting (attempts-quit app.effects))
        | inl c ↦ elim (Bool-cases env.dialog_opens) [
          | inr d ↦
              rw (c, d, show_dialog) (still app _ h refl refl h.waiting (attempts-quit app.effects))
          | inl d ↦ rw (c, d, show_dialog) (still app _ h refl refl (ground arith) refl)
        ]
      ]

  -- `app` with both ends of an attempt taken.
  abbrev pub taken : App t → App t
  taken app = record app { connect_rx = none; pending = none }

  with_dialog_done :
      (app : App t) (f : ConnectDialog → ConnectDialog) → IsNext app (with_dialog f (taken app))
  unfolding with_dialog
  with_dialog_done app f = elim (Option-cases (dialog app.state)) [
    | inl e ↦ rw (e, with_dialog) (done app _ refl refl refl)
    | inr (form, e) ↦ rw (e, with_dialog) (done app _ refl refl refl)
  ]

  start_session_done :
      (app : App t) (connection : Connection t) (target : Bytes) (o : Option (Unit {0} × Session))
      → IfSome
          (IsNext app)
          (run_client (record (taken app) { context = false }) connection target o)
  start_session_done app connection target none = panics
  start_session_done app connection target (some (u, later)) = holds (done app _ refl refl refl)

  outcome_done :
      (env : AppEnv t) (r : Result ConnectError (Connection t)) (details : ConnectDetails)
      (app : App t)
      → IfSome (IsNext app) (outcome env r details (taken app))
  unfolding outcome start_session
  outcome_done env (ok connection) details app = start_session_done app connection details.uri _
  outcome_done env (err e) details app = holds (with_dialog_done app _)

  pub finish_with_done :
      (env : AppEnv t) (rx : Option (Result ConnectError (Connection t)))
      (details : Option ConnectDetails) (app : App t)
      → IfSome (IsNext app) (finish_with env rx details (taken app))
  unfolding finish_with
  finish_with_done env none details app = holds (done app _ refl refl refl)
  finish_with_done env (some rx) none app = holds (done app _ refl refl refl)
  finish_with_done env (some rx) (some details) app =
      IfSome-if env.received _ _ (outcome_done env rx details app)
        (holds (done app _ refl refl refl))

  -- A form that nothing is in flight for, and what it asks for.
  start_parsed-IsNext :
      (env : AppEnv t) (details : ConnectDetails) (app : App t) (form : ConnectDialog)
      (r : Result UriError Target)
      → IsApp app
      → is_some app.pending ≡ false
      → IsNext app (start_parsed env details r (record app { state = prompt (some form) }))
  unfolding start_parsed try_target with_dialog emit set_connecting draw
  start_parsed-IsNext env details app form (err e) h idle_now =
      still app _ h refl refl
        (ap (λ b. not b || connecting (set_error env.display (env.uri_text e) form)) idle_now) refl
  start_parsed-IsNext env details app form (ok target) h idle_now = record {
    kept = record { paired = refl; waiting = refl };
    few = ground (arith, idle_now, attempts-connecting app.effects target app.ssl_insecure);
  }

  -- While an attempt is in flight, the form stays frozen and does not connect.
  pub report-IsNext :
      (env : AppEnv t) (app : App t) (form : ConnectDialog) (asked : ConnectAction)
      (next : ConnectDialog)
      → IsApp app
      → app.state ≡ prompt (some form)
      → (connecting form ≡ true → (is_connect asked ≡ false) × (connecting next ≡ true))
      → IsNext app (report env app (asked, next))
  unfolding act quit emit start_connect
  report-IsNext env app form asked next h e f = told asked (Bool-cases (is_some app.pending)) f
    where
      frozen : is_some app.pending ≡ true → connecting form ≡ true
      frozen p =
          let w = ap (λ s. is_waiting s (is_some app.pending)) (sym e) ∙ h.waiting in
          ground (arith, w, p)

      waits :
          (asked : ConnectAction)
          → (connecting form ≡ true → (is_connect asked ≡ false) × (connecting next ≡ true))
          → (not (is_some app.pending) || connecting next) ≡ true
      waits asked f = elim (Bool-cases (is_some app.pending)) [
        | inl p ↦ rw (p, (f (frozen p)).1) refl
        | inr p ↦ rw p refl
      ]

      told :
          (asked : ConnectAction)
          → (is_some app.pending ≡ true) ⊎ (is_some app.pending ≡ false)
          → (connecting form ≡ true → (is_connect asked ≡ false) × (connecting next ≡ true))
          → IsNext app (report env app (asked, next))
      told no_action c f = still app _ h refl refl (waits no_action f) refl
      told cancel_action c f =
          still app _ h refl refl (waits cancel_action f) (attempts-quit app.effects)
      told (connect_action details) (inr p) f =
          start_parsed-IsNext env details app next (parse_target details.uri) h p
      told (connect_action details) (inl p) f = cc (f (frozen p)).0
