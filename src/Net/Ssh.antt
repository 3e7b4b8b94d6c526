-- ===== src/Net/Ssh.antt =====
-- src/net/ssh.rs: the arguments of the `ssh` process, and the command that it runs remotely. The
-- process itself, its pipes and the thread that reaps it are not modelled.
pub mod Shell
pub mod Arguments
mod Tests
use rust_xpra.Prelude.{
  Bool, true, false, Option, none, some, List, [], ◌∷◌, ◌++◌, ◌==◌, if◌then◌else◌, Bytes, codes,
  bytes_eq, is_empty, rsplit_once, Result, ok, err, map, not,
}

-- `s.replace('\'', "'\\''")`
pub escape_quotes : Bytes → Bytes
escape_quotes [] = []
escape_quotes (c ∷ s) = (if c == b'\'' then codes "'\\''" else c ∷ []) ++ escape_quotes s

pub shell_quote : Bytes → Bytes
shell_quote s = codes "'" ++ (escape_quotes s ++ codes "'")

pub proxy_command : Bytes → Bytes
proxy_command display =
    if is_empty display then codes "xpra _proxy" else codes "xpra _proxy " ++ shell_quote display

pub guarded_command : Bytes → Bytes
guarded_command display =
    codes "if command -v \"xpra\" > /dev/null 2>&1; then "
    ++ (proxy_command display ++ codes "; else echo \"no xpra command found\" 1>&2; exit 1; fi")

pub remote_command : Bytes → Bytes
remote_command display = codes "sh -c " ++ shell_quote (guarded_command display)

pub data SshError : Type 0 where
  missing_port : Bytes → SshError

port_args : Bytes → List Bytes
port_args port = if bytes_eq port (codes "22") then [] else codes "-p" ∷ port ∷ []

user_args : Option Bytes → List Bytes
user_args none = []
user_args (some user) = codes "-l" ∷ user ∷ []

-- The arguments that `connect` gives to `ssh`.
unfoldable pub ssh_args : Bytes → Option Bytes → Bytes → Result SshError (List Bytes)
unfolding port_args user_args
ssh_args address username display = elim (rsplit_once address b':') [
  | none ↦ err (missing_port address)
  | some p ↦ ok (
      codes "-x"
      ∷ codes "-T"
      ∷ (port_args p.1 ++ (user_args username ++ p.0 ∷ remote_command display ∷ [])))
]
