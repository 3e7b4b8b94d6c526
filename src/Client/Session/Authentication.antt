-- ===== src/Client/Session/Authentication.antt =====
-- What a challenge leads to.
use rust_xpra.Prelude.{
  ◌≡◌, ◌≤◌, refl, sym, ap, subst, some_injective, ◌∙◌, inl, inr, Bool, true, false, not, ◌||◌,
  Bool-cases, Option, none, some, Option-cases, List, String, [], ◌∷◌, ◌++◌, append-nil, Bytes,
  codes, is_empty, bytes_eq, leb, arith,
}
use rust_xpra.Net.Packet.{Packet, len, get_str, get_bytes}
use rust_xpra.Net.Digest.Hmac.{hmac_sha256_hex, secure_hex}
use rust_xpra.Client.Json.{Json, list, dict, str, text}
use rust_xpra.Client.Session.{
  ExitCode, authentication_failed, Session, Env, ◌>>=◌, pure, lift, gets, assign, quit, first,
  match_option, write_unless, try_write, write_json, wrote, exited,
}
use rust_xpra.Client.Session.Later.{writes, writes-append, write_json_lem}
use rust_xpra.Client.Session.Hello.{hello_packet, hello_packet-some, send_hello}
use rust_xpra.Client.Session.Challenge.{
  response, known_password, answer_challenge, obtain_password, take_challenge, process_challenge,
}

-- The fields of a challenge as the handler reads them.
pub record IsChallenge (env : Env) (p : Packet) (salt digest salt_digest : Bytes) : Type 0 where
  pub rest : Packet
  pub salt_field : get_bytes env.base64 p 1 ≡ some (salt, rest)
  pub digest_field : get_str rest 3 ≡ some digest
  pub long : 6 ≤ len rest
  pub salt_digest_field : get_str rest 4 ≡ some salt_digest
  pub prompt : Bytes
  pub prompt_field : get_str rest 5 ≡ some prompt

-- Not both digests are the one that the client knows.
abbrev pub is_other : Bytes → Bytes → Bool
is_other digest salt_digest =
    not (bytes_eq digest (codes "hmac+sha256")) || not (bytes_eq salt_digest (codes "hmac+sha256"))

abbrev pub IsIdle : Session → Type 0
IsIdle s = (s.pending_challenge ≡ none) × (s.auth_dialog ≡ false)

process_challenge_lem :
    (env : Env) (s : Session) (p : Packet) (salt digest salt_digest : Bytes)
    → IsIdle s
    → (c : IsChallenge env p salt digest salt_digest)
    → process_challenge env p s ≡ take_challenge env salt digest salt_digest c.prompt s
unfolding process_challenge ◌>>=◌ lift gets
process_challenge_lem env s p salt digest salt_digest idle c =
    let l4 : leb 5 (len c.rest) ≡ true = ground (arith, c.long) in
    let l5 : leb 6 (len c.rest) ≡ true = ground (arith, c.long) in
    rw (idle.0, idle.1, c.salt_field, c.digest_field, l4, c.salt_digest_field, l5, c.prompt_field)
      refl

-- A client that waits for no password ends the session with `AuthenticationFailed`, and writes
-- nothing, when a challenge has no salt or names another digest than `hmac+sha256` in either place.
pub process_challenge-refused :
    (env : Env) (s : Session) (p : Packet) (salt digest salt_digest : Bytes)
    → IsIdle s
    → IsChallenge env p salt digest salt_digest
    → is_empty salt || is_other digest salt_digest ≡ true
    → (t : Session) × (process_challenge env p s ≡ some (tt, t))
      × (t.exit_code ≡ some (first s.exit_code authentication_failed))
      × (t.pending_challenge ≡ none)
      × (writes t.effects ≡ writes s.effects)
unfolding take_challenge quit
process_challenge-refused env s p salt digest salt_digest idle c bad = (
  record s {
    exit_code = some (first s.exit_code authentication_failed);
    effects = s.effects ++ (exited ∷ []);
  },
  process_challenge_lem env s p salt digest salt_digest idle c ∙ refused,
  refl,
  idle.0,
  writes-append s.effects (exited ∷ []) ∙ append-nil (writes s.effects),
)
  where
    refused : take_challenge env salt digest salt_digest c.prompt s ≡ quit authentication_failed s
    refused = elim (Bool-cases (is_empty salt)) [
      | inl e ↦ rw e refl
      | inr e ↦
          let o : is_other digest salt_digest ≡ true =
            subst (λ b. b || is_other digest salt_digest ≡ true) e bad in
          rw (e, o) refl
    ]

-- A client that waits for no password and has one, whose session is not over and whose writes succeed,
-- answers a challenge with a salt and the digests `hmac+sha256` by one packet: the hello, with what it
-- says without a challenge and besides with the client's salt of 32 random bytes in hexadecimal, and
-- with the response, which is the hmac of the server's salt under the client's salt, and of that under
-- the password. No challenge is left pending.
pub process_challenge-response :
    (env : Env) (s : Session) (p : Packet) (salt password : Bytes)
    → IsIdle s
    → s.exit_code ≡ none
    → ((packet : Json) → env.send_packet packet ≡ none)
    → IsChallenge env p salt (codes "hmac+sha256") (codes "hmac+sha256")
    → is_empty salt ≡ false
    → known_password env s ≡ some password
    → (t : Session) × (process_challenge env p s ≡ some (tt, t))
      × (t.pending_challenge ≡ none)
      × (before : List (String × Json)) × (after : List (String × Json)) × (hello_packet env
            (record s { pending_challenge = none })
            none
          ≡ list (str "hello" ∷ dict (before ++ after) ∷ []))
      × (writes t.effects
          ≡ writes s.effects
            ++ (list (
                  str "hello"
                  ∷ dict (
                      before
                      ++ ((
                        "challenge_response",
                        text (
                            hmac_sha256_hex password
                              (hmac_sha256_hex (secure_hex env.secure_random_bytes 32) salt)),
                      )
                          ∷ ("challenge_client_salt", text (secure_hex env.secure_random_bytes 32))
                          ∷ ("challenge_padding", text (secure_hex env.secure_random_bytes 64))
                          ∷ after))
                  ∷ [])
                ∷ []))
unfolding take_challenge obtain_password answer_challenge send_hello ◌>>=◌ gets assign match_option
    known_password response
process_challenge-response env s p salt password idle up sent c salty known =
    let u = record s { pending_challenge = none } in
    let k = hello_packet env u (some (response env salt password)) in
    let known' : known_password env (record s { pending_challenge = some salt }) ≡ some password =
      known in
    let (before, after, plain, told) =
      hello_packet-some env u (response env salt password).0 (response env salt password).1 in
    (
      record u { effects = s.effects ++ (wrote k ∷ []) },
      process_challenge_lem env s p salt (codes "hmac+sha256") (codes "hmac+sha256") idle c
          ∙ rw (salty, known') (write_json_lem env k u up (sent k)),
      refl,
      before,
      after,
      plain,
      writes-append s.effects (wrote k ∷ []) ∙ ap (λ j. writes s.effects ++ (j ∷ [])) told,
    )

write_unless_pending :
    (o : Option ExitCode) (env : Env) (k : Json) (s : Session)
    → (write_unless o env k s).pending_challenge ≡ s.pending_challenge
unfolding try_write
write_unless_pending (some c) env k s = refl
write_unless_pending none env k s = tried (env.send_packet k)
  where
    tried : (r : Option Bytes) → (try_write r k s).pending_challenge ≡ s.pending_challenge
    tried none = refl
    tried (some e) = refl

answer_challenge_lem :
    (env : Env) (s : Session) (password : Bytes)
    → (t : Session) × (answer_challenge env password s ≡ some (tt, t))
      × (t.pending_challenge ≡ none)
unfolding answer_challenge send_hello ◌>>=◌ gets assign match_option pure write_json
answer_challenge_lem env s password = elim (Option-cases s.pending_challenge) [
  | inl e ↦ (s, rw e refl, e)
  | inr (salt, e) ↦
      let u = record s { pending_challenge = none } in
      let k = hello_packet env u (some (response env salt password)) in
      (write_unless s.exit_code env k u, rw e refl, write_unless_pending s.exit_code env k u)
]

-- After an answer nothing is pending, so a second answer changes nothing and writes nothing.
pub answer_challenge_once :
    (env later : Env) (s t : Session) (password second : Bytes)
    → answer_challenge env password s ≡ some (tt, t)
    → answer_challenge later second t ≡ some (tt, t)
unfolding answer_challenge ◌>>=◌ gets match_option pure
answer_challenge_once env later s t password second e =
    let (u, f, idle) = answer_challenge_lem env s password in
    let same : u ≡ t = ap (λ (r : Unit × Session). r.1) (some_injective (sym f ∙ e)) in
    let idle' : t.pending_challenge ≡ none =
      ap (λ (r : Session). r.pending_challenge) (sym same) ∙ idle in
    rw idle' refl
