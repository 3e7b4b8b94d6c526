-- ===== src/Net/Uri.antt =====
-- src/net/uri.rs: the connection target of the command line.
pub mod Laws
pub mod RoundTrip
mod Tests
use rust_xpra.Prelude.{
  ℕ, Bool, true, false, Option, none, some, List, [], ◌∷◌, ◌++◌, not, if◌then◌else◌, Bytes, codes,
  starts_with, contains, is_empty, eq_ignore_case, split_once, rsplit_once, split_at, break_at,
  trim_start, Result, ok, err, ◌>>=◌, ◌>>◌, guard,
}

pub data Scheme : Type 0 where
  tcp tls web_socket web_socket_tls ssh socket : Scheme

pub record Target : Type 0 where
  pub scheme : Scheme
  pub address : Bytes
  pub path : Bytes
  pub username : Option Bytes

-- The messages of the errors, with the texts that they show.
pub data UriError : Type 0 where
  missing_socket_path : Bytes → UriError
  relative_socket_path : Bytes → UriError
  missing_host_port : Bytes → UriError
  unsupported_protocol : Bytes → UriError

unfoldable pub parse_scheme : Bytes → Result UriError Scheme
parse_scheme s =
    if eq_ignore_case s (codes "tcp")
    then ok tcp
    else if eq_ignore_case s (codes "ssl")
    then ok tls
    else if eq_ignore_case s (codes "ws")
    then ok web_socket
    else if eq_ignore_case s (codes "wss")
    then ok web_socket_tls
    else if eq_ignore_case s (codes "ssh")
    then ok ssh
    else err (unsupported_protocol s)

-- `match authority.split_once('@')`
unfoldable pub user_of : Bytes → Option (Bytes × Bytes) → Option Bytes × Bytes
user_of authority (some (user, host_port)) = (some user, host_port)
user_of authority none = (none, authority)

-- `user@host[:port]`, with the default port
unfoldable pub ssh_target : Bytes → Bytes → Target
ssh_target authority path =
    let (user, host_port) = user_of authority (split_once authority b'@') in
    record {
      scheme = ssh;
      address = if contains host_port b':' then host_port else host_port ++ codes ":22";
      path = trim_start b'/' path;
      username = user;
    }

unfoldable pub direct_target : Scheme → Bytes → Bytes → Target
direct_target ssh authority path = ssh_target authority path
direct_target scheme authority path = record {
  scheme = scheme;
  address = authority;
  path = path;
  username = none;
}

pub socket_target : Bytes → Bytes → Result UriError Target
socket_target target rest = do
  guard (not (is_empty rest)) (missing_socket_path target)
  guard (starts_with rest (codes "/")) (relative_socket_path target)
  ok (record { scheme = socket; address = rest; path = []; username = none })

unfoldable pub network_target : Bytes → Bytes → Bytes → Result UriError Target
network_target target scheme_str rest = do
  let authority = (break_at b'/' rest).0
  let path = (break_at b'/' rest).1
  guard (not (is_empty authority)) (missing_host_port target)
  scheme ← parse_scheme scheme_str
  ok (direct_target scheme authority path)

unfoldable pub parse_uri : Bytes → Option (Bytes × Bytes) → Result UriError Target
parse_uri target none = ok (record { scheme = tcp; address = target; path = []; username = none })
parse_uri target (some (scheme_str, rest)) =
    if eq_ignore_case scheme_str (codes "socket")
    then socket_target target rest
    else network_target target scheme_str rest

unfoldable pub parse_target : Bytes → Result UriError Target
parse_target target =
    if starts_with target (codes "/")
    then ok (record { scheme = socket; address = target; path = []; username = none })
    else parse_uri target (split_at (codes "://") target)

pub host_only : Bytes → Bytes
host_only address = elim (rsplit_once address b':') [ none ↦ address | some p ↦ p.0 ]
