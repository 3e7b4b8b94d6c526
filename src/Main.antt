-- ===== src/Main.antt =====
-- src/main.rs: the command line.
pub mod Args
pub mod Orders
pub mod Connect
pub mod App
pub mod Events
pub mod Run
pub mod Exits
pub mod Attempts
pub mod OneAttempt
pub mod Sessions
pub mod ExitCodes
mod Tests
use rust_xpra.Prelude.{
  Bool, true, false, ◌||◌, Option, none, some, List, [], ◌∷◌, drop, if◌then◌else◌, Bytes, codes,
  bytes_eq, starts_with, Result, ok, err,
}

pub record Options : Type 0 where
  pub target : Option Bytes
  pub ssl_insecure : Bool

-- The messages of the errors, with the texts that they show.
pub data ArgsError : Type 0 where
  unrecognized_option : Bytes → ArgsError
  more_than_one_target : Bytes → Bytes → ArgsError

abbrev pub is_help : Bytes → Bool
is_help arg = bytes_eq arg (codes "-h") || bytes_eq arg (codes "--help")

abbrev pub is_version : Bytes → Bool
is_version arg = bytes_eq arg (codes "--version")

pub add_target : Options → Option Bytes → Bytes → Result ArgsError Options
add_target options (some first) arg = err (more_than_one_target first arg)
add_target options none arg = ok (record options { target = some arg })

pub parse_arg : Options → Bytes → Result ArgsError Options
parse_arg options arg =
    if is_help arg || is_version arg
    then ok options
    else if bytes_eq arg (codes "--ssl-insecure")
    then ok (record options { ssl_insecure = true })
    else if starts_with arg (codes "-")
    then err (unrecognized_option arg)
    else add_target options options.target arg

pub parse_from : Options → List Bytes → Result ArgsError Options
parse_from options [] = ok options
parse_from options (arg ∷ args) = elim (parse_arg options arg) [
  | ok next ↦ parse_from next args
  | err e ↦ err e
]

abbrev pub default_options : Options
default_options = record { target = none; ssl_insecure = false }

pub parse_args : List Bytes → Result ArgsError Options
parse_args args = parse_from default_options (drop 1 args)

-- `args.iter().skip(1).any(test)`
pub any_arg : (Bytes → Bool) → List Bytes → Bool
any_arg test [] = false
any_arg test (arg ∷ args) = test arg || any_arg test args
