-- ===== src/Client/Session/Later.antt =====
-- What every handler leaves as it was, one rule for each way to build an action, and a write that
-- succeeds.
use rust_xpra.Prelude.{
  ◌≡◌, refl, sym, ap, ◌∙◌, Bool, true, false, Option, none, some, List, [], ◌∷◌, ◌++◌, append-nil,
  append_assoc, if◌then◌else◌, Bytes, codes,
}
use rust_xpra.Client.Json.{Json}
use rust_xpra.Client.Session.{
  ExitCode, Effect, wrote, posted, exited, client_packet, Session, Env, Action, continue, ◌>>=◌,
  pure, lift, gets, match_option, assign, emit, quit, try_write, write_unless, write_json,
}

abbrev pub written : Effect → List Json
written (wrote packet) = packet ∷ []
written _ = []

-- The packets that were written, in their order.
abbrev pub writes : List Effect → List Json
writes [] = []
writes (e ∷ es) = written e ++ writes es

pub writes-append : (es fs : List Effect) → writes (es ++ fs) ≡ writes es ++ writes fs
writes-append [] fs = refl
writes-append (e ∷ es) fs =
    ap (λ t. written e ++ t) (writes-append es fs)
    ∙ sym (append_assoc (written e) (writes es) (writes fs))

-- `t` can come after `s`: effects are added at the end, the exit code stays once it is there, and
-- from then on nothing is written.
pub record IsLater (s t : Session) : Type 0 where
  pub grows : (es : List Effect) × (t.effects ≡ s.effects ++ es)
  pub stays : (c : ExitCode) → s.exit_code ≡ some c → t.exit_code ≡ some c
  pub silent : (c : ExitCode) → s.exit_code ≡ some c → writes t.effects ≡ writes s.effects

pub IsLater-refl : (s : Session) → IsLater s s
IsLater-refl s = record {
  grows = ([], sym (append-nil s.effects));
  stays = λ c e. e;
  silent = λ c e. refl;
}

pub IsLater-trans : (s t u : Session) → IsLater s t → IsLater t u → IsLater s u
IsLater-trans s t u h g = record {
  grows =
      let (es, e) = h.grows in
      let (fs, f) = g.grows in (es ++ fs, f ∙ ap (λ x. x ++ fs) e ∙ append_assoc s.effects es fs);
  stays = λ c e. g.stays c (h.stays c e);
  silent = λ c e. g.silent c (h.stays c e) ∙ h.silent c e;
}

abbrev pub Holds : {A : Type 0} → Session → Option (A × Session) → Type 0
Holds s none = Unit
Holds s (some (a, t)) = IsLater s t

-- Where `m` returns, its state can come after.
pub record Advances {A : Type 0} (m : Action A) : Type 0 where
  pub at : (s : Session) → Holds s (m s)

module _ {A : Type 0} where
  pub Advances-pure : (a : A) → Advances (pure a)
  unfolding pure
  Advances-pure a = record { at = λ s. IsLater-refl s }

  pub Advances-lift : (o : Option A) → Advances (lift o)
  unfolding lift
  Advances-lift none = record { at = λ s. tt }
  Advances-lift (some a) = record { at = λ s. IsLater-refl s }

  pub Advances-gets : (f : Session → A) → Advances (gets f)
  unfolding gets
  Advances-gets f = record { at = λ s. IsLater-refl s }

  pub Advances-if :
      (b : Bool) (m n : Action A) → Advances m → Advances n → Advances (if b then m else n)
  Advances-if true m n km kn = km
  Advances-if false m n km kn = kn

module _ {A B : Type 0} where
  pub Advances-option :
      (o : Option A) (m : Action B) (f : A → Action B)
      → Advances m
      → ((a : A) → Advances (f a))
      → Advances (match_option o m f)
  unfolding match_option
  Advances-option none m f km kf = km
  Advances-option (some a) m f km kf = kf a

  Holds-continue :
      (s : Session) (r : Option (A × Session)) (f : A → Action B)
      → Holds s r
      → ((a : A) → Advances (f a))
      → Holds s (continue r f)
  Holds-continue s none f h kf = tt
  Holds-continue s (some (a, t)) f h kf = later (f a t) ((kf a).at t)
    where
      later : (r : Option (B × Session)) → Holds t r → Holds s r
      later none g = tt
      later (some (b, u)) g = IsLater-trans s t u h g

  pub Advances-bind :
      (m : Action A) (f : A → Action B)
      → Advances m
      → ((a : A) → Advances (f a))
      → Advances (m >>= f)
  unfolding ◌>>=◌
  Advances-bind m f km kf = record { at = λ s. Holds-continue s (m s) f (km.at s) kf }

pub Advances-assign : (f : Session → Session) → Advances (assign f)
unfolding assign
Advances-assign f = record {
  at = λ s. record {
    grows = ([], sym (append-nil s.effects));
    stays = λ c e. e;
    silent = λ c e. refl;
  };
}

-- An effect that is no write.
pub Advances-emit : (e : Effect) → written e ≡ [] → Advances (emit e)
unfolding emit
Advances-emit e h = record {
  at = λ s. record {
    grows = (e ∷ [], refl);
    stays = λ c x. x;
    silent = λ c x. writes-append s.effects (e ∷ []) ∙ rw h (append-nil (writes s.effects));
  };
}

pub Advances-quit : (c : ExitCode) → Advances (quit c)
unfolding quit
Advances-quit c = record {
  at = λ s. record {
    grows = (exited ∷ [], refl);
    stays = λ x e. rw e refl;
    silent = λ x e. writes-append s.effects (exited ∷ []) ∙ append-nil (writes s.effects);
  };
}

not_none : {A : Type 0} {o : Option A} {a : A} → o ≡ none → ¬ (o ≡ some a)
not_none e f = cc (e, f)

try_write-IsLater :
    (r : Option Bytes) (packet : Json) (s : Session)
    → s.exit_code ≡ none
    → IsLater s (try_write r packet s)
unfolding try_write
try_write-IsLater none packet s e = record {
  grows = (wrote packet ∷ [], refl);
  stays = λ c f. f;
  silent = λ c f. absurd (not_none e f);
}
try_write-IsLater (some message) packet s e = record {
  grows = (posted (client_packet (codes "connection-lost") message) ∷ [], refl);
  stays = λ c f. absurd (not_none e f);
  silent = λ c f. absurd (not_none e f);
}

write_unless-IsLater :
    (o : Option ExitCode) (env : Env) (packet : Json) (s : Session)
    → s.exit_code ≡ o
    → IsLater s (write_unless o env packet s)
write_unless-IsLater none env packet s e = try_write-IsLater (env.send_packet packet) packet s e
write_unless-IsLater (some c) env packet s e = IsLater-refl s

pub Advances-write_json : (env : Env) (packet : Json) → Advances (write_json env packet)
unfolding write_json
Advances-write_json env packet = record {
  at = λ s. write_unless-IsLater s.exit_code env packet s refl;
}

pub ruleset advances = (
  Advances-pure, Advances-lift, Advances-gets, Advances-assign, Advances-quit, Advances-write_json,
  Advances-bind, Advances-if, Advances-option,
)

-- Before the end of the session, a write that succeeds only adds the packet to the effects.
pub write_json_lem :
    (env : Env) (packet : Json) (s : Session)
    → s.exit_code ≡ none
    → env.send_packet packet ≡ none
    → write_json env packet s ≡ some (tt, record s { effects = s.effects ++ (wrote packet ∷ []) })
unfolding write_json try_write
write_json_lem env packet s up sent =
    ap (λ t. some (tt, t))
      (ap (λ o. write_unless o env packet s) up ∙ ap (λ r. try_write r packet s) sent)
