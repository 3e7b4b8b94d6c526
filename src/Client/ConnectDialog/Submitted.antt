-- ===== src/Client/ConnectDialog/Submitted.antt =====
-- What the form has checked when it submits.
use rust_xpra.Prelude.{
  ℕ, ◌<◌, ◌≡◌, refl, ap, sym, ◌∙◌, Bool, true, false, Option, none, some, [], ◌∷◌, arith,
  if◌then◌else◌, Bytes, codes, is_empty, below, parse_unsigned, ok,
}
use rust_xpra.Net.Uri.{parse_target}
use rust_xpra.Client.ConnectDialog.{
  ConnectDialog, ConnectAction, ConnectDetails, no_action, connect_action, protocol_at,
  error_status, on_host,
}
use rust_xpra.Client.ConnectDialog.Form.{
  submit, connect_details, build_uri, port_of, trim, non_empty, is_invalid_host, has_whitespace,
  missing_host, invalid_host,
}
use rust_xpra.Client.ConnectDialog.Submit.{scheme_at, target_of, NamesPlain, parse_target-build_uri}

-- What `submit` has checked when it connects.
pub record IsSubmitted (s : ConnectDialog) (d : ConnectDetails) : Type 0 where
  pub submitted_port : ℕ
  pub read : parse_unsigned 65536 (trim s.port) ≡ some submitted_port
  pub positive : 0 < submitted_port
  pub bound : submitted_port < 65536
  pub some_host : is_empty (trim s.host) ≡ false
  pub no_space : has_whitespace (trim s.host) ≡ false
  pub credentials : (d.username ≡ non_empty s.username) × (d.password ≡ non_empty s.password)
  pub target :
      parse_target d.uri
      ≡ ok (target_of (scheme_at s.protocol) (trim s.host) submitted_port d.username)

parsed_below : (m : ℕ) (o : Option ℕ) (n : ℕ) → below m o ≡ some n → n < m
parsed_below m none n h = cc h
parsed_below m (some k) n h = ground arith

parse_unsigned_bound : (m : ℕ) (s : Bytes) (n : ℕ) → parse_unsigned m s ≡ some n → n < m
parse_unsigned_bound m [] n h = cc h
parse_unsigned_bound m (c ∷ []) n h = parsed_below m _ n h
parse_unsigned_bound m (c ∷ d ∷ s) n h = parsed_below m _ n h

port_of_lem :
    (s : Bytes) (port : ℕ)
    → port_of s ≡ some port
    → (parse_unsigned 65536 s ≡ some port) × (0 < port)
unfolding port_of
port_of_lem s port h = ground arith

not_connected : (d : ConnectDetails) → ¬ (no_action ≡ connect_action d)
not_connected d e = cc e

details_or : ConnectDetails → ConnectAction → ConnectDetails
details_or d (connect_action e) = e
details_or d _ = d

connect_details_lem :
    (s t : ConnectDialog) (host : Bytes) (o : Option ℕ) (d : ConnectDetails)
    → connect_details s host o ≡ (connect_action d, t)
    → (port : ℕ) × (o ≡ some port)
      × (d.uri ≡ build_uri (codes (protocol_at s.protocol).0) host port (non_empty s.username))
      × (d.username ≡ non_empty s.username)
      × (d.password ≡ non_empty s.password)
unfolding connect_details details_or
connect_details_lem s t host none d h =
    absurd (not_connected d (ap (λ (r : ConnectAction × ConnectDialog). r.0) h))
connect_details_lem s t host (some port) d h =
    let same = ap (λ (r : ConnectAction × ConnectDialog). details_or d r.0) h in
    (
      port,
      refl,
      sym (ap (λ (e : ConnectDetails). e.uri) same),
      sym (ap (λ (e : ConnectDetails). e.username) same),
      sym (ap (λ (e : ConnectDetails). e.password) same),
    )

submit_checks :
    (s t : ConnectDialog) (d : ConnectDetails)
    → submit s ≡ (connect_action d, t)
    → (is_empty (trim s.host) ≡ false)
      × (is_invalid_host (trim s.host) ≡ false)
      × (connect_details s (trim s.host) (port_of (trim s.port)) ≡ (connect_action d, t))
unfolding submit
submit_checks s t d h = go (is_empty (trim s.host)) (is_invalid_host (trim s.host)) refl refl h
  where
    go :
        (a b : Bool)
        → is_empty (trim s.host) ≡ a
        → is_invalid_host (trim s.host) ≡ b
        → (if a
            then (no_action, record s { status = error_status missing_host; focus = on_host })
            else if b
            then (no_action, record s { status = error_status invalid_host; focus = on_host })
            else connect_details s (trim s.host) (port_of (trim s.port)))
          ≡ (connect_action d, t)
        → (is_empty (trim s.host) ≡ false)
          × (is_invalid_host (trim s.host) ≡ false)
          × (connect_details s (trim s.host) (port_of (trim s.port)) ≡ (connect_action d, t))
    go true b e f h = absurd (not_connected d (ap (λ (r : ConnectAction × ConnectDialog). r.0) h))
    go false true e f h =
        absurd (not_connected d (ap (λ (r : ConnectAction × ConnectDialog). r.0) h))
    go false false e f h = (e, f, h)

submitted :
    (s : ConnectDialog) (d : ConnectDetails) (port : ℕ)
    → s.protocol < 5
    → NamesPlain (scheme_at s.protocol) (non_empty s.username)
    → is_empty (trim s.host) ≡ false
    → is_invalid_host (trim s.host) ≡ false
    → port_of (trim s.port) ≡ some port
    → d.uri ≡ build_uri (codes (protocol_at s.protocol).0) (trim s.host) port (non_empty s.username)
    → d.username ≡ non_empty s.username
    → d.password ≡ non_empty s.password
    → IsSubmitted s d
submitted s d port l plain e f p u n w =
    let read = port_of_lem (trim s.port) port p in
    record {
      submitted_port = port;
      read = read.0;
      positive = read.1;
      bound = parse_unsigned_bound 65536 (trim s.port) port read.0;
      some_host = e;
      no_space = ground arith;
      credentials = (n, w);
      target =
          ap parse_target u
          ∙ parse_target-build_uri s.protocol (trim s.host) port (non_empty s.username) l plain
              (ground arith) (ground arith)
          ∙ ap (λ (v : Option Bytes). ok (target_of (scheme_at s.protocol) (trim s.host) port v))
              (sym n);
    }

-- When the form, with a protocol of its list and, for ssh, no user with a slash or an at sign, connects,
-- its host is not empty and has no white space, its port is from 1 to 65535, and the user and the
-- password are the trimmed ones, if there are any. The URI that it hands on is read as a target of
-- the chosen protocol with this host and port, and for ssh with this user.
pub submit-IsSubmitted :
    (s t : ConnectDialog) (d : ConnectDetails)
    → s.protocol < 5
    → NamesPlain (scheme_at s.protocol) (non_empty s.username)
    → submit s ≡ (connect_action d, t)
    → IsSubmitted s d
submit-IsSubmitted s t d l plain h =
    let (e, f, c) = submit_checks s t d h in
    let (port, p, u, n, w) = connect_details_lem s t (trim s.host) (port_of (trim s.port)) d c in
    submitted s d port l plain e f p u n w
