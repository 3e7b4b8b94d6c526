-- ===== src/Net/Uri/RoundTrip.antt =====
-- Targets that uri.rs reads back from the URIs that stand for them.
use rust_xpra.Prelude.{
  ℕ, ◌≡◌, ◌≢◌, refl, ap, ◌∙◌, true, false, Option, none, some, [], ◌∷◌, ◌++◌, ◌||◌, arith,
  if◌then◌else◌, Bytes, codes, starts_with, contains, is_empty, lower, map, append_assoc,
  append-nil, eq_ignore_case, split_at, break_at, trim_start, split_once, ok, bytes_eq→eq,
}
use rust_xpra.Net.Uri.{
  Scheme, tcp, tls, web_socket, web_socket_tls, ssh, socket, parse_scheme, ssh_target,
  direct_target, network_target, parse_uri, parse_target, user_of,
}

abbrev pub scheme_name : Scheme → Bytes
scheme_name tcp = codes "tcp"
scheme_name tls = codes "ssl"
scheme_name web_socket = codes "ws"
scheme_name web_socket_tls = codes "wss"
scheme_name ssh = codes "ssh"
scheme_name socket = codes "socket"

abbrev pub uri : Bytes → Bytes → Bytes
uri scheme rest = scheme ++ codes "://" ++ rest

contains-lower : (s : Bytes) (c : ℕ) → (c ≡ b':') → contains s c ≡ contains (map lower s) c
contains-lower [] c h = refl
contains-lower (a ∷ s) c h = ground (arith, contains-lower s c h)

split_at-uri :
    (s rest : Bytes)
    → contains s b':' ≡ false
    → split_at (codes "://") (uri s rest) ≡ some (s, rest)
split_at-uri [] rest h = refl
split_at-uri (a ∷ s) rest h = ground (arith, split_at-uri s rest)

-- A path is empty, or begins with a slash.
abbrev pub IsPath : Bytes → Type 0
IsPath [] = Unit
IsPath (c ∷ p) = c ≡ b'/'

break_at-append :
    (a p : Bytes) → contains a b'/' ≡ false → IsPath p → break_at b'/' (a ++ p) ≡ (a, p)
break_at-append [] [] h k = refl
break_at-append [] (c ∷ p) h k = ground arith
break_at-append (x ∷ a) p h k = rw (break_at-append a p (ground arith) k) (ground arith)

scheme_chars : (k : Scheme) → contains (scheme_name k) b':' ≡ false
scheme_chars tcp = refl
scheme_chars tls = refl
scheme_chars web_socket = refl
scheme_chars web_socket_tls = refl
scheme_chars ssh = refl
scheme_chars socket = refl

module _ (k : Scheme) (s : Bytes) (same : map lower s ≡ scheme_name k) where
  no_colon : contains s b':' ≡ false
  no_colon = contains-lower s b':' refl ∙ ap (λ (t : Bytes). contains t b':') same ∙ scheme_chars k

slash_first :
    (k : Scheme) (s rest : Bytes)
    → map lower s ≡ scheme_name k
    → starts_with (uri s rest) (codes "/") ≡ false
slash_first tcp [] rest h = cc
slash_first tls [] rest h = cc
slash_first web_socket [] rest h = cc
slash_first web_socket_tls [] rest h = cc
slash_first ssh [] rest h = cc
slash_first socket [] rest h = cc
slash_first tcp (a ∷ s) rest h = ground (arith, h)
slash_first tls (a ∷ s) rest h = ground arith
slash_first web_socket (a ∷ s) rest h = ground arith
slash_first web_socket_tls (a ∷ s) rest h = ground arith
slash_first ssh (a ∷ s) rest h = ground arith
slash_first socket (a ∷ s) rest h = ground arith

parse_scheme-name :
    (k : Scheme) (s : Bytes) → map lower s ≡ scheme_name k → k ≢ socket → parse_scheme s ≡ ok k
unfolding parse_scheme
parse_scheme-name tcp s h n = rw h refl
parse_scheme-name tls s h n = rw h refl
parse_scheme-name web_socket s h n = rw h refl
parse_scheme-name web_socket_tls s h n = rw h refl
parse_scheme-name ssh s h n = rw h refl
parse_scheme-name socket s h n = absurd (n refl)

not_socket :
    (k : Scheme) (s : Bytes)
    → map lower s ≡ scheme_name k
    → k ≢ socket
    → eq_ignore_case s (codes "socket") ≡ false
not_socket tcp s h n = rw h refl
not_socket tls s h n = rw h refl
not_socket web_socket s h n = rw h refl
not_socket web_socket_tls s h n = rw h refl
not_socket ssh s h n = rw h refl
not_socket socket s h n = absurd (n refl)

lower_name : (k : Scheme) → map lower (scheme_name k) ≡ scheme_name k
lower_name tcp = refl
lower_name tls = refl
lower_name web_socket = refl
lower_name web_socket_tls = refl
lower_name ssh = refl
lower_name socket = refl

pub parse_target-uri :
    (k : Scheme) (s authority path : Bytes)
    → eq_ignore_case s (scheme_name k) ≡ true
    → k ≢ socket
    → is_empty authority ≡ false
    → contains authority b'/' ≡ false
    → IsPath path
    → parse_target (uri s (authority ++ path)) ≡ ok (direct_target k authority path)
unfolding parse_target parse_uri network_target
parse_target-uri k s authority path e n some_host no_slash is_path =
    let same : map lower s ≡ scheme_name k = bytes_eq→eq (map lower s) _ e ∙ lower_name k in
    rw
      (
        slash_first k s (authority ++ path) same,
        split_at-uri s (authority ++ path) (no_colon k s same),
        not_socket k s same n,
        break_at-append authority path no_slash is_path,
        some_host,
        parse_scheme-name k s same n,
      )
      refl

-- A URI of a scheme other than `ssh` and `socket`, in any case of letters, is read as its parts: the
-- authority is the address, and the path is kept.
pub parse_target-direct :
    (k : Scheme) (s authority path : Bytes)
    → eq_ignore_case s (scheme_name k) ≡ true
    → k ≢ socket
    → k ≢ ssh
    → is_empty authority ≡ false
    → contains authority b'/' ≡ false
    → IsPath path
    → parse_target (uri s (authority ++ path))
      ≡ ok (record { scheme = k; address = authority; path = path; username = none })
parse_target-direct k s authority path e n m some_host no_slash is_path =
    parse_target-uri k s authority path e n some_host no_slash is_path ∙ ap ok (direct k m)
  where
    direct :
        (k : Scheme)
        → k ≢ ssh
        → direct_target k authority path
          ≡ record { scheme = k; address = authority; path = path; username = none }
    direct ssh m = absurd (m refl)
    direct tcp m = unfold direct_target in refl
    direct tls m = unfold direct_target in refl
    direct web_socket m = unfold direct_target in refl
    direct web_socket_tls m = unfold direct_target in refl
    direct socket m = unfold direct_target in refl

-- What an ssh URI says: `ssh://[user@]host[:port][/display]`.
pub record SshParts : Type 0 where
  pub user : Option Bytes
  pub host : Bytes
  pub port : Option Bytes
  pub display : Bytes

abbrev pub user_text : Option Bytes → Bytes
user_text none = []
user_text (some u) = u ++ codes "@"

abbrev pub port_text : Option Bytes → Bytes
port_text none = []
port_text (some p) = b':' ∷ p

abbrev pub display_text : Bytes → Bytes
display_text [] = []
display_text (c ∷ d) = b'/' ∷ c ∷ d

abbrev pub ssh_uri : SshParts → Bytes
ssh_uri p =
    uri (codes "ssh") ((user_text p.user ++ (p.host ++ port_text p.port)) ++ display_text p.display)

-- The characters that separate the parts stand in none of them.
abbrev pub IsPlain : Bytes → Type 0
IsPlain s = (contains s b'/' ≡ false) × (contains s b'@' ≡ false)

abbrev pub MaybePlain : Option Bytes → Type 0
MaybePlain none = Unit
MaybePlain (some s) = IsPlain s

pub record AreSshParts (p : SshParts) : Type 0 where
  pub user : MaybePlain p.user
  pub host : IsPlain p.host
  pub some_host : is_empty p.host ≡ false
  pub no_colon : contains p.host b':' ≡ false
  pub port : MaybePlain p.port
  pub display : starts_with p.display (codes "/") ≡ false

abbrev pub port_or_default : Option Bytes → Bytes
port_or_default none = codes "22"
port_or_default (some p) = p

pub contains-append : (a b : Bytes) (c : ℕ) → contains (a ++ b) c ≡ (contains a c || contains b c)
contains-append [] b c = refl
contains-append (x ∷ a) b c = ground (arith, contains-append a b c)

split_once-append :
    (a b : Bytes) (c : ℕ) → contains a c ≡ false → split_once (a ++ c ∷ b) c ≡ some (a, b)
split_once-append [] b c h = ground arith
split_once-append (x ∷ a) b c h = rw (split_once-append a b c (ground arith)) (ground arith)

split_once_absent : (a : Bytes) (c : ℕ) → contains a c ≡ false → split_once a c ≡ none
split_once_absent [] c h = refl
split_once_absent (x ∷ a) c h = rw (split_once_absent a c (ground arith)) (ground arith)

host_port-IsPlain :
    (host : Bytes) (port : Option Bytes) (c : ℕ)
    → contains host c ≡ false
    → contains (port_text port) c ≡ false
    → contains (host ++ port_text port) c ≡ false
host_port-IsPlain host port c h k = ground (arith, contains-append host (port_text port) c)

port-IsPlain : (port : Option Bytes) → MaybePlain port → IsPlain (port_text port)
port-IsPlain none h = (refl, refl)
port-IsPlain (some p) h = (h.0, h.1)

pub user_of-text :
    (user : Option Bytes) (h : Bytes)
    → MaybePlain user
    → contains h b'@' ≡ false
    → user_of (user_text user ++ h) (split_once (user_text user ++ h) b'@') ≡ (user, h)
unfolding user_of
user_of-text none h u k = rw (split_once_absent h b'@' k) refl
user_of-text (some u) h p k = rw (append_assoc u (codes "@") h, split_once-append u h b'@' p.1) refl

address_of :
    (host : Bytes) (port : Option Bytes)
    → contains host b':' ≡ false
    → (if contains (host ++ port_text port) b':'
        then host ++ port_text port
        else (host ++ port_text port) ++ codes ":22")
      ≡ host ++ b':' ∷ port_or_default port
address_of host none h = rw (append-nil, h) refl
address_of host (some p) h = rw (contains-append host (b':' ∷ p) b':', h) refl

display_of : (d : Bytes) → starts_with d (codes "/") ≡ false → trim_start b'/' (display_text d) ≡ d
display_of [] h = refl
display_of (c ∷ d) h = ground arith

ssh_target_lem :
    (p : SshParts)
    → AreSshParts p
    → ssh_target (user_text p.user ++ (p.host ++ port_text p.port)) (display_text p.display)
      ≡ record {
        scheme = ssh;
        address = p.host ++ b':' ∷ port_or_default p.port;
        path = p.display;
        username = p.user;
      }
unfolding ssh_target
ssh_target_lem p h =
    rw
      (
        user_of-text p.user (p.host ++ port_text p.port) h.user
            (host_port-IsPlain p.host p.port b'@' h.host.1 (port-IsPlain p.port h.port).1),
        address_of p.host p.port h.no_colon,
        display_of p.display h.display,
        ssh_target,
      )
      refl

some_authority :
    (user : Option Bytes) (host r : Bytes)
    → is_empty host ≡ false
    → is_empty (user_text user ++ (host ++ r)) ≡ false
some_authority none [] r h = cc
some_authority none (c ∷ host) r h = refl
some_authority (some []) host r h = refl
some_authority (some (c ∷ u)) host r h = refl

user_plain : (user : Option Bytes) → MaybePlain user → contains (user_text user) b'/' ≡ false
user_plain none h = refl
user_plain (some u) h = ground (arith, contains-append u (codes "@") b'/')

authority_plain :
    (p : SshParts)
    → AreSshParts p
    → contains (user_text p.user ++ (p.host ++ port_text p.port)) b'/' ≡ false
authority_plain p h = ground (
  arith,
  contains-append (user_text p.user) (p.host ++ port_text p.port) b'/',
  user_plain p.user h.user,
  host_port-IsPlain p.host p.port b'/' h.host.0 (port-IsPlain p.port h.port).0,
)

display-IsPath : (d : Bytes) → IsPath (display_text d)
display-IsPath [] = tt
display-IsPath (c ∷ d) = refl

-- An ssh URI is read as its parts, with port 22 where it names none: the display is handed on
-- without its slash, and the user is split off.
pub parse_target-ssh_uri :
    (p : SshParts)
    → AreSshParts p
    → parse_target (ssh_uri p)
      ≡ ok (record {
        scheme = ssh;
        address = p.host ++ b':' ∷ port_or_default p.port;
        path = p.display;
        username = p.user;
      })
parse_target-ssh_uri p h =
    parse_target-uri ssh (codes "ssh") (user_text p.user ++ (p.host ++ port_text p.port))
      (display_text p.display) refl (λ e. cc)
      (some_authority p.user p.host (port_text p.port) h.some_host) (authority_plain p h)
      (display-IsPath p.display)
    ∙ ap ok (unfold direct_target in ssh_target_lem p h)
