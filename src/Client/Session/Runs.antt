-- ===== src/Client/Session/Runs.antt =====
-- Runs of the client: any sequence of packets, of events of a window, and of what the user does at the
-- password prompt.
use rust_xpra.Prelude.{ℕ, ◌≡◌, subst, some, List, ◌++◌, Bytes}
use rust_xpra.Net.Packet.{Packet}
use rust_xpra.Client.Session.{ExitCode, Effect, Session, Env, Action}
use rust_xpra.Client.Session.Challenge.{submit_password, cancel_auth}
use rust_xpra.Client.Session.Dispatch.{user_event, resumed}
use rust_xpra.Client.Session.Input.{WindowEvent, handle_window_event}
use rust_xpra.Client.Session.Handlers.Inputs.{Advances-handle_window_event}
use rust_xpra.Client.Session.Later.{IsLater, IsLater-refl, IsLater-trans, Holds, Advances, writes}
use rust_xpra.Client.Session.Handlers.{Advances-cancel_auth}
use rust_xpra.Client.Session.Handlers.Senders.{Advances-submit_password}
use rust_xpra.Client.Session.Handlers.Events.{Advances-user_event, Advances-resumed}

-- One event that the loop hands to the client, in any environment.
pub data Step (s t : Session) : Type 0 where
  packet : (env : Env) (p : Packet) → user_event env p s ≡ some (tt, t) → Step s t
  submit : (env : Env) (password : Bytes) → submit_password env password s ≡ some (tt, t) → Step s t
  resume : (env : Env) → resumed env s ≡ some (tt, t) → Step s t
  input :
      (env : Env) (wid : ℕ) (e : WindowEvent)
      → handle_window_event env wid e s ≡ some (tt, t)
      → Step s t
  cancel : cancel_auth s ≡ some (tt, t) → Step s t

pub data Run (s : Session) : Session → Type 0 where
  here : Run s s
  next : {t u : Session} → Run s t → Step t u → Run s u

returns : (m : Action Unit) (s t : Session) → Advances m → m s ≡ some (tt, t) → IsLater s t
returns m s t a e = subst (Holds s) e (a.at s)

Step-IsLater : (s t : Session) → Step s t → IsLater s t
Step-IsLater s t (packet env p e) = returns (user_event env p) s t (Advances-user_event env p) e
Step-IsLater s t (submit env pw e) =
    returns (submit_password env pw) s t (Advances-submit_password env pw) e
Step-IsLater s t (resume env e) = returns (resumed env) s t (Advances-resumed env) e
Step-IsLater s t (input env wid i e) =
    returns (handle_window_event env wid i) s t (Advances-handle_window_event env wid i) e
Step-IsLater s t (cancel e) = returns cancel_auth s t Advances-cancel_auth e

Run-IsLater : {s t : Session} → Run s t → IsLater s t
Run-IsLater {s = s} here = IsLater-refl s
Run-IsLater {s = s} (next {t = t} {u = u} r step) =
    IsLater-trans s t u (Run-IsLater r) (Step-IsLater t u step)

-- Once there is an exit code, any run keeps it, and writes no packet any more.
pub Run-exit_code :
    {s t : Session} (c : ExitCode)
    → s.exit_code ≡ some c
    → Run s t
    → (t.exit_code ≡ some c) × (writes t.effects ≡ writes s.effects)
Run-exit_code c e r = let l = Run-IsLater r in (l.stays c e, l.silent c e)

-- Any run only adds effects behind those that there are.
pub Run-effects : {s t : Session} → Run s t → (es : List Effect) × (t.effects ≡ s.effects ++ es)
Run-effects r = let l = Run-IsLater r in l.grows
