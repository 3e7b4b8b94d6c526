-- ===== src/Client/Session/Returns.antt =====
-- Handlers of client.rs that never panic.
use rust_xpra.Prelude.{◌≡◌, refl, ap, ◌∙◌, Bool, true, false, Option, some, Bytes}
use rust_xpra.Client.Json.{Json}
use rust_xpra.Client.Session.{
  Session, Env, Effect, Action, ◌>>=◌, pure, gets, assign, emit, write_json, when, continue,
}
use rust_xpra.Client.Session.Hello.{send_hello}
use rust_xpra.Client.Session.Dispatch.{resumed}

record Returns {A : Type 0} (m : Action A) : Type 0 where
  at : (s : Session) → (a : A) × (u : Session) × (m s ≡ some (a, u))

Returns-bind :
    {A B : Type 0} {m : Action A} {f : A → Action B}
    → Returns m
    → ((a : A) → Returns (f a))
    → Returns (m >>= f)
unfolding ◌>>=◌
Returns-bind {m} {f} h k = record {
  at = λ s.
      let (a, u, e) = h.at s in let (b, v, g) = (k a).at u in (b, v, ap (λ o. continue o f) e ∙ g);
}

Returns-gets : {A : Type 0} (f : Session → A) → Returns (gets f)
unfolding gets
Returns-gets f = record { at = λ s. (f s, s, refl) }

Returns-assign : (f : Session → Session) → Returns (assign f)
unfolding assign
Returns-assign f = record { at = λ s. (tt, _, refl) }

Returns-emit : (e : Effect) → Returns (emit e)
unfolding emit
Returns-emit e = record { at = λ s. (tt, _, refl) }

Returns-write_json : (env : Env) (packet : Json) → Returns (write_json env packet)
unfolding write_json
Returns-write_json env packet = record { at = λ s. (tt, _, refl) }

Returns-when : (b : Bool) {m : Action Unit} → Returns m → Returns (when b m)
unfolding pure
Returns-when true h = h
Returns-when false h = record { at = λ s. (tt, s, refl) }

ruleset returning =
    (Returns-bind, Returns-gets, Returns-assign, Returns-emit, Returns-write_json, Returns-when)

Returns-send_hello : (env : Env) (reply : Option (Bytes × Bytes)) → Returns (send_hello env reply)
unfolding send_hello
Returns-send_hello env reply = search returning

Returns-resumed : (env : Env) → Returns (resumed env)
unfolding resumed
Returns-resumed env = search (returning, Returns-send_hello) depth 20

-- The session's first step never panics.
pub resumed_returns : (env : Env) (s : Session) → (u : Session) × (resumed env s ≡ some (tt, u))
resumed_returns env s = let (a, u, e) = (Returns-resumed env).at s in (u, e)
