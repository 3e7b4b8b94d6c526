-- ===== src/Client/Session/Selections.antt =====
-- A text of the server's clipboard does not go back to it, and a local one does.
use rust_xpra.Prelude.{
  ℕ, ◌≡◌, refl, sym, ap, ◌∙◌, subst, some_injective, Bool, true, false, not, ◌||◌, Bool-cases, inl,
  inr, none, some, [], ◌∷◌, ◌++◌, append_assoc, if◌then◌else◌, Bytes, is_empty, bytes_eq,
  bytes_eq_refl,
}
use rust_xpra.Net.Packet.{Packet, get_str, get_u64}
use rust_xpra.Client.Json.{Json}
use rust_xpra.Client.Session.{
  Session, Env, Action, ◌>>=◌, pure, lift, gets, assign, emit, to_clipboard, when, wrote,
}
use rust_xpra.Client.Session.Later.{writes, writes-append, write_json_lem}
use rust_xpra.Client.Session.Send.{
  clipboard_data_packet, clipboard_contents_packet, send_clipboard_data, send_clipboard_contents,
  send_clipboard_contents_none,
}
use rust_xpra.Client.Session.Clipboard.{
  is_text_target, set_local_clipboard, claim_clipboard, process_clipboard_changed,
  process_clipboard_request,
}

set_local_clipboard_lem :
    (s : Session) (t : Bytes)
    → (u : Session) × (set_local_clipboard t s ≡ some (tt, u)) × (u.last_clipboard ≡ t)
unfolding set_local_clipboard ◌>>=◌ gets assign emit pure
set_local_clipboard_lem s t = elim (Bool-cases s.clipboard) [
  | inl e ↦ (
    record s { last_clipboard = t; effects = s.effects ++ (to_clipboard t ∷ []) },
    rw e refl,
    refl,
  )
  | inr e ↦ (record s { last_clipboard = t }, rw e refl, refl)
]

or_true : (a : Bool) {b : Bool} → b ≡ true → a || b ≡ true
or_true true h = refl
or_true false h = h

or_left : (a b : Bool) → a || b ≡ false → a ≡ false
or_left true b h = h
or_left false b h = refl

-- When the clipboard's thread reports the text that was last put on the local clipboard for the
-- server, nothing is written and the state stays, so the text does not go back to the server.
pub process_clipboard_changed-own :
    (env : Env) (s u : Session) (p : Packet) (t : Bytes)
    → set_local_clipboard t s ≡ some (tt, u)
    → get_str p 1 ≡ some t
    → process_clipboard_changed env p u ≡ some (tt, u)
unfolding process_clipboard_changed claim_clipboard ◌>>=◌ gets lift pure
process_clipboard_changed-own env s u p t set field =
    let (v, e, own) = set_local_clipboard_lem s t in
    let same : v ≡ u = ap (λ (r : Unit × Session). r.1) (some_injective (sym e ∙ set)) in
    let own' : u.last_clipboard ≡ t = ap (λ (r : Session). r.last_clipboard) (sym same) ∙ own in
    let seen : is_empty t || bytes_eq t u.last_clipboard ≡ true =
      subst (λ x. is_empty t || bytes_eq t x ≡ true) (sym own')
        (or_true (is_empty t) (bytes_eq_refl t)) in
    elim (Bool-cases u.clipboard_enabled) [
      | inl on ↦ rw (on, field, claim_clipboard, seen) refl
      | inr off ↦ rw off refl
    ]

-- The end of the request's handler, by whether the clipboard is enabled.
abbrev reply : Env → ℕ → Bytes → Bytes → Bool → Action Unit
reply env request_id target t enabled =
    if not enabled || not (is_text_target target) || is_empty t
    then send_clipboard_contents_none env request_id
    else send_clipboard_contents env request_id target t

-- After the clipboard's thread has reported a new text, while the clipboard is enabled and writes
-- succeed, a request of the server for a text target is answered with that text.
pub process_clipboard_request-changed :
    (env : Env) (s : Session) (p q : Packet) (t target : Bytes) (request_id : ℕ)
    → s.exit_code ≡ none
    → s.clipboard_enabled ≡ true
    → ((packet : Json) → env.send_packet packet ≡ none)
    → get_str p 1 ≡ some t
    → is_empty t || bytes_eq t s.last_clipboard ≡ false
    → get_u64 q 1 ≡ some request_id
    → get_str q 3 ≡ some target
    → is_text_target target ≡ true
    → (u v : Session) × (process_clipboard_changed env p s ≡ some (tt, u))
      × (process_clipboard_request env q u ≡ some (tt, v))
      × (writes v.effects
          ≡ writes s.effects
            ++ (clipboard_data_packet t ∷ clipboard_contents_packet request_id target t ∷ []))
unfolding process_clipboard_changed claim_clipboard process_clipboard_request send_clipboard_data
    send_clipboard_contents ◌>>=◌ gets lift pure assign
process_clipboard_request-changed env s p q t target request_id up on sent e1 new f1 f3 is_text =
    let k = clipboard_data_packet t in
    let l = clipboard_contents_packet request_id target t in
    let u = record s { last_clipboard = t; effects = s.effects ++ (wrote k ∷ []) } in
    let v = record u { effects = u.effects ++ (wrote l ∷ []) } in
    let filled : is_empty t ≡ false = or_left (is_empty t) (bytes_eq t s.last_clipboard) new in
    let claimed : when true (lift (get_str p 1) >>= claim_clipboard env) s ≡ some (tt, u) =
      rw (e1, claim_clipboard, new)
        (write_json_lem env k (record s { last_clipboard = t }) up (sent k)) in
    let answered : reply env request_id target t true u ≡ some (tt, v) =
      rw (is_text, filled) (write_json_lem env l u up (sent l)) in
    (
      u,
      v,
      ap (λ b. when b (lift (get_str p 1) >>= claim_clipboard env) s) on ∙ claimed,
      rw (f1, f3) (ap (λ b. reply env request_id target t b u) on ∙ answered),
      writes-append (s.effects ++ (wrote k ∷ [])) (wrote l ∷ [])
          ∙ ap (λ x. x ++ (l ∷ [])) (writes-append s.effects (wrote k ∷ []))
          ∙ append_assoc (writes s.effects) (k ∷ []) (l ∷ []),
    )
