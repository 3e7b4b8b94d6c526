-- ===== src/Client/ConnectDialog/Form.antt =====
-- The form's fields become a URI: `submit`, `build_uri` and what they use.
use rust_xpra.Prelude.{
  ℕ, Bool, false, not, ◌&&◌, ◌||◌, Option, none, some, [], ◌∷◌, ◌++◌, if◌then◌else◌, leb, ltb,
  Bytes, codes, bytes_eq, contains, starts_with, is_empty, is_whitespace, trim_left, trim_right,
  parse_unsigned, length, take, drop, ◌-◌,
}
use rust_xpra.Prelude.Decimal.{decimal}
use rust_xpra.Client.ConnectDialog.{
  ConnectDialog, ConnectAction, no_action, connect_action, no_status, error_status, on_host,
  on_port, protocol_at,
}

unfoldable pub trim : Bytes → Bytes
trim s = trim_right (trim_left s)

unfoldable pub has_whitespace : Bytes → Bool
has_whitespace [] = false
has_whitespace (c ∷ s) = is_whitespace c || has_whitespace s

unfoldable pub non_empty : Bytes → Option Bytes
non_empty value = if is_empty (trim value) then none else some (trim value)

-- A bare IPv6 address in brackets
unfoldable pub bracketed : Bytes → Bytes
bracketed host =
    if contains host b':' && not (starts_with host (codes "["))
    then codes "[" ++ (host ++ codes "]")
    else host

unfoldable pub authority_of : Bytes → Bytes → ℕ → Option Bytes → Bytes
authority_of scheme host port none = bracketed host ++ b':' ∷ decimal 5 port
authority_of scheme host port (some username) =
    if bytes_eq scheme (codes "ssh")
    then username ++ b'@' ∷ (bracketed host ++ b':' ∷ decimal 5 port)
    else bracketed host ++ b':' ∷ decimal 5 port

unfoldable pub build_uri : Bytes → Bytes → ℕ → Option Bytes → Bytes
build_uri scheme host port username =
    scheme ++ codes "://" ++ (authority_of scheme host port username ++ codes "/")

-- `parse::<u16>()`, and `Ok(port) if port > 0`
unfoldable pub port_of : Bytes → Option ℕ
port_of s = elim (parse_unsigned 65536 s) [
  | none ↦ none
  | some port ↦ if ltb 0 port then some port else none
]

abbrev pub missing_host : Bytes
missing_host = codes "please enter a hostname or IP address"

abbrev pub invalid_host : Bytes
invalid_host = codes "the hostname contains invalid characters"

abbrev pub invalid_port : Bytes
invalid_port = codes "the port must be a number between 1 and 65535"

abbrev pub is_invalid_host : Bytes → Bool
is_invalid_host host = has_whitespace host || contains host b'/' || contains host b'@'

unfoldable pub connect_details : ConnectDialog → Bytes → Option ℕ → ConnectAction × ConnectDialog
connect_details s host none =
    (no_action, record s { status = error_status invalid_port; focus = on_port })
connect_details s host (some port) =
    let username = non_empty s.username in
    (
      connect_action (record {
        uri = build_uri (codes (protocol_at s.protocol).0) host port username;
        username = username;
        password = non_empty s.password;
      }),
      record s { status = no_status },
    )

unfoldable pub submit : ConnectDialog → ConnectAction × ConnectDialog
submit s =
    let host = trim s.host in
    if is_empty host
    then (no_action, record s { status = error_status missing_host; focus = on_host })
    else if is_invalid_host host
    then (no_action, record s { status = error_status invalid_host; focus = on_host })
    else connect_details s host (port_of (trim s.port))

-- The last `most` characters
unfoldable pub tail : Bytes → ℕ → Bytes
tail text most = if leb (length text) most then text else drop (length text - most) text

-- The first characters, with an ellipsis
unfoldable pub clip : Bytes → ℕ → Bytes
clip text most = if leb (length text) most then text else take (most - 3) text ++ codes "..."
