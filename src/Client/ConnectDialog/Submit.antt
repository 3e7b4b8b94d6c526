-- ===== src/Client/ConnectDialog/Submit.antt =====
-- What the form submits, as src/net/uri.rs reads it.
use rust_xpra.Prelude.{
  ℕ, zero, suc, ◌<◌, ◌≡◌, ◌≢◌, refl, ap, sym, ◌∙◌, true, false, Bool-cases, inl, inr, Option, none,
  some, [], ◌∷◌, ◌++◌, append_assoc, arith, Bytes, codes, is_empty, map, lower, contains, bytes_eq,
  bytes_eq_refl, ok,
}
use rust_xpra.Prelude.Decimal.{decimal, contains-decimal}
use rust_xpra.Net.Uri.{
  Scheme, Target, tcp, tls, web_socket, web_socket_tls, ssh, socket, parse_target, direct_target,
  ssh_target,
}
use rust_xpra.Net.Uri.RoundTrip.{
  scheme_name, uri, parse_target-uri, MaybePlain, contains-append, user_of-text, user_text,
}
use rust_xpra.Client.ConnectDialog.{protocol_at}
use rust_xpra.Client.ConnectDialog.Form.{build_uri, authority_of, bracketed}

-- The transport that stands at a position of the list.
abbrev pub scheme_at : ℕ → Scheme
scheme_at zero = tcp
scheme_at (suc zero) = tls
scheme_at (suc (suc zero)) = web_socket
scheme_at (suc (suc (suc zero))) = web_socket_tls
scheme_at (suc (suc (suc (suc n)))) = ssh

scheme_at-name : (i : ℕ) → i < 5 → codes (protocol_at i).0 ≡ scheme_name (scheme_at i)
scheme_at-name zero h = refl
scheme_at-name (suc zero) h = refl
scheme_at-name (suc (suc zero)) h = refl
scheme_at-name (suc (suc (suc zero))) h = refl
scheme_at-name (suc (suc (suc (suc zero)))) h = refl
scheme_at-name (suc (suc (suc (suc (suc n))))) h = absurd (omega arith)

scheme_at_not_socket : (i : ℕ) → scheme_at i ≢ socket
scheme_at_not_socket zero e = cc e
scheme_at_not_socket (suc zero) e = cc e
scheme_at_not_socket (suc (suc zero)) e = cc e
scheme_at_not_socket (suc (suc (suc zero))) e = cc e
scheme_at_not_socket (suc (suc (suc (suc n)))) e = cc e

-- The address, which `host_only` and the connect calls take apart again.
abbrev pub address_of : Bytes → ℕ → Bytes
address_of host port = bracketed host ++ b':' ∷ decimal 5 port

-- What the form asks for: for ssh the user stands in the target and there is no display; for the
-- others the path is the root.
abbrev pub target_of : Scheme → Bytes → ℕ → Option Bytes → Target
target_of ssh host port username = record {
  scheme = ssh;
  address = address_of host port;
  path = [];
  username = username;
}
target_of scheme host port username = record {
  scheme = scheme;
  address = address_of host port;
  path = codes "/";
  username = none;
}

contains-bracketed :
    (host : Bytes) (c : ℕ)
    → contains host c ≡ false
    → contains (codes "[]") c ≡ false
    → contains (bracketed host) c ≡ false
unfolding bracketed
contains-bracketed host c h k =
    ground
      (arith, contains-append (codes "[") (host ++ codes "]") c, contains-append host (codes "]") c)

contains-address_of :
    (host : Bytes) (port c : ℕ)
    → contains host c ≡ false
    → contains (codes "[]:0123456789") c ≡ false
    → contains (address_of host port) c ≡ false
contains-address_of host port c h k = ground (
  arith,
  contains-append (bracketed host) (b':' ∷ decimal 5 port) c,
  contains-bracketed host c h,
  contains-decimal 5 port c,
)

some_address : (b d : Bytes) → is_empty (b ++ b':' ∷ d) ≡ false
some_address [] d = refl
some_address (c ∷ b) d = refl

with_colon : (b d : Bytes) → contains (b ++ b':' ∷ d) b':' ≡ true
with_colon b d = ground (arith, contains-append b (b':' ∷ d) b':')

some_authority :
    (scheme host : Bytes) (port : ℕ) (username : Option Bytes)
    → is_empty (authority_of scheme host port username) ≡ false
unfolding authority_of
some_authority scheme host port none = some_address (bracketed host) (decimal 5 port)
some_authority scheme host port (some u) = elim (Bool-cases (bytes_eq scheme (codes "ssh"))) [
  | inl e ↦ rw e (some_user u)
  | inr e ↦ rw e (some_address (bracketed host) (decimal 5 port))
]
  where
    some_user :
        (u : Bytes) → is_empty (u ++ b'@' ∷ (bracketed host ++ b':' ∷ decimal 5 port)) ≡ false
    some_user [] = refl
    some_user (c ∷ u) = refl

authority_of-direct :
    (k : Scheme) (host : Bytes) (port : ℕ) (username : Option Bytes)
    → bytes_eq (scheme_name k) (codes "ssh") ≡ false
    → authority_of (scheme_name k) host port username ≡ address_of host port
unfolding authority_of
authority_of-direct k host port none e = refl
authority_of-direct k host port (some u) e = rw e refl

authority_of-ssh :
    (host : Bytes) (port : ℕ) (username : Option Bytes)
    → authority_of (codes "ssh") host port username ≡ user_text username ++ address_of host port
unfolding authority_of
authority_of-ssh host port none = refl
authority_of-ssh host port (some u) = rw (append_assoc u (codes "@") (address_of host port)) refl

user_plain :
    (username : Option Bytes) → MaybePlain username → contains (user_text username) b'/' ≡ false
user_plain none h = refl
user_plain (some u) h = ground (arith, contains-append u (codes "@") b'/')

parsed :
    (k : Scheme) (authority : Bytes)
    → k ≢ socket
    → is_empty authority ≡ false
    → contains authority b'/' ≡ false
    → parse_target (uri (scheme_name k) (authority ++ codes "/"))
      ≡ ok (direct_target k authority (codes "/"))
parsed k authority n e c =
    parse_target-uri k (scheme_name k) authority (codes "/")
      (bytes_eq_refl (map lower (scheme_name k))) n e c refl

ssh_target_lem :
    (host : Bytes) (port : ℕ) (username : Option Bytes)
    → MaybePlain username
    → contains host b'@' ≡ false
    → ssh_target (user_text username ++ address_of host port) (codes "/")
      ≡ target_of ssh host port username
unfolding ssh_target
ssh_target_lem host port username h k =
    rw
      (
        user_of-text username (address_of host port) h (contains-address_of host port b'@' k refl),
        with_colon (bracketed host) (decimal 5 port),
        ssh_target,
      )
      refl

-- The user of a target is plain, where the target names it.
abbrev pub NamesPlain : Scheme → Option Bytes → Type 0
NamesPlain ssh username = MaybePlain username
NamesPlain tcp username = Unit
NamesPlain _ username = Unit

direct :
    (k : Scheme) (host : Bytes) (port : ℕ) (username : Option Bytes)
    → k ≢ socket
    → bytes_eq (scheme_name k) (codes "ssh") ≡ false
    → contains host b'/' ≡ false
    → direct_target k (address_of host port) (codes "/") ≡ target_of k host port username
    → parse_target (build_uri (scheme_name k) host port username)
      ≡ ok (target_of k host port username)
unfolding build_uri
direct k host port username n e h t =
    let same = authority_of-direct k host port username e in
    ap (λ (a : Bytes). parse_target (uri (scheme_name k) (a ++ codes "/"))) same
    ∙ parsed k (address_of host port) n (some_address (bracketed host) (decimal 5 port))
        (contains-address_of host port b'/' h refl)
    ∙ ap ok t

build_uri-name :
    (k : Scheme) (host : Bytes) (port : ℕ) (username : Option Bytes)
    → k ≢ socket
    → NamesPlain k username
    → contains host b'/' ≡ false
    → contains host b'@' ≡ false
    → parse_target (build_uri (scheme_name k) host port username)
      ≡ ok (target_of k host port username)
unfolding direct_target build_uri
build_uri-name tcp host port username n u h a = direct tcp host port username n refl h refl
build_uri-name tls host port username n u h a = direct tls host port username n refl h refl
build_uri-name web_socket host port username n u h a =
    direct web_socket host port username n refl h refl
build_uri-name web_socket_tls host port username n u h a =
    direct web_socket_tls host port username n refl h refl
build_uri-name socket host port username n u h a = absurd (n refl)
build_uri-name ssh host port username n u h a =
    let same = authority_of-ssh host port username in
    let plain : contains (user_text username ++ address_of host port) b'/' ≡ false = ground (
      arith,
      contains-append (user_text username) (address_of host port) b'/',
      user_plain username u,
      contains-address_of host port b'/' h refl,
    ) in
    let some_one : is_empty (user_text username ++ address_of host port) ≡ false =
      ap is_empty (sym same) ∙ some_authority (codes "ssh") host port username in
    ap (λ (t : Bytes). parse_target (uri (codes "ssh") (t ++ codes "/"))) same
    ∙ parsed ssh (user_text username ++ address_of host port) n some_one plain
    ∙ ap ok (ssh_target_lem host port username u a)

-- The URI that is built of a protocol of the list, a host without the characters that separate a
-- target's parts, a port and a user is read as just these, where ssh has a user without those
-- characters.
pub parse_target-build_uri :
    (i : ℕ) (host : Bytes) (port : ℕ) (username : Option Bytes)
    → i < 5
    → NamesPlain (scheme_at i) username
    → contains host b'/' ≡ false
    → contains host b'@' ≡ false
    → parse_target (build_uri (codes (protocol_at i).0) host port username)
      ≡ ok (target_of (scheme_at i) host port username)
parse_target-build_uri i host port username l u h a =
    ap (λ (t : Bytes). parse_target (build_uri t host port username)) (scheme_at-name i l)
    ∙ build_uri-name (scheme_at i) host port username (scheme_at_not_socket i) u h a
