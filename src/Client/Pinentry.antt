-- ===== src/Client/Pinentry.antt =====
-- src/client/pinentry.rs: the password that the pinentry program asks for, over its lines. What the
-- program writes is a list of lines, and an error where reading fails.
pub mod Escapes
mod Tests
use mathlib.Core.List.{reverse}
use rust_xpra.Prelude.{
  ℕ, zero, suc, ◌+◌, ◌-◌, ◌*◌, Bool, true, false, not, ◌&&◌, ◌||◌, Option, none, some, List, [],
  ◌∷◌, ◌++◌, if◌then◌else◌, ◌==◌, leb, Bytes, codes, bytes_eq, starts_with, is_empty, drop,
  is_digit, Result, ok, err, ◌>>=◌, ◌>>◌, guard,
}
use rust_xpra.Net.Packet.{Packet}
use rust_xpra.Client.Session.{client_packet}

pub assuan_escape : Bytes → Bytes
assuan_escape [] = []
assuan_escape (c ∷ s) =
    (if c == b'%'
      then codes "%25"
      else if c == 0x0d
      then codes "%0D"
      else if c == 0x0a
      then codes "%0A"
      else c ∷ [])
    ++ assuan_escape s

-- `(c as char).to_digit(16)`
pub to_digit : ℕ → Option ℕ
to_digit c =
    if is_digit c
    then some (c - b'0')
    else if leb b'a' c && leb c b'f'
    then some (c - b'a' + 10)
    else if leb b'A' c && leb c b'F'
    then some (c - b'A' + 10)
    else none

-- Both digits, or none.
pub both_digits : Option ℕ → Option ℕ → Option ℕ
both_digits (some hi) (some lo) = some (hi * 16 + lo)
both_digits _ _ = none

-- The bytes that an escaped text stands for, before they are read as utf-8.
pub unescape_bytes : Bytes → Bytes
unescape_bytes [] = []
unescape_bytes (a ∷ []) = a ∷ []
unescape_bytes (a ∷ b ∷ []) = a ∷ b ∷ []
unescape_bytes (a ∷ b ∷ c ∷ s) =
    let later = unescape_bytes s in
    let rest = unescape_bytes (b ∷ c ∷ s) in
    if a == b'%'
    then elim (both_digits (to_digit b) (to_digit c)) [ some v ↦ v ∷ later | none ↦ a ∷ rest ]
    else a ∷ rest

pub data PinentryError : Type 0 where
  not_started : Bytes → PinentryError
  closed : PinentryError
  read_failed : Bytes → PinentryError
  write_failed : Bytes → PinentryError
  refused : Bytes → PinentryError

pub data Line : Type 0 where
  line : Bytes → Line
  read_error : Bytes → Line

-- The last bytes, in reverse, of a character with the property White_Space: in utf-8, one of ASCII,
-- U+0085 and U+00A0 in two bytes, and U+1680, U+2000 to U+200A, U+2028, U+2029, U+202F, U+205F and
-- U+3000 in three.
abbrev ascii_space : ℕ → Bool
ascii_space c = (c == b' ') || (leb 0x09 c && leb c 0x0d)

abbrev two_byte_space : ℕ → ℕ → Bool
two_byte_space a b = (b == 0xc2) && ((a == 0x85) || (a == 0xa0))

abbrev three_byte_space : ℕ → ℕ → ℕ → Bool
three_byte_space a b c =
    ((c == 0xe1) && ((b == 0x9a) && (a == 0x80)))
    || (((c == 0xe2)
          && (((b == 0x80)
                && ((leb 0x80 a && leb a 0x8a) || ((a == 0xa8) || ((a == 0xa9) || (a == 0xaf)))))
              || ((b == 0x81) && (a == 0x9f))))
        || ((c == 0xe3) && ((b == 0x80) && (a == 0x80))))

-- `trim_end`, on the bytes of a text from the last one on
unfoldable pub trim_reversed : Bytes → Bytes
trim_reversed [] = []
trim_reversed (a ∷ []) = if ascii_space a then [] else a ∷ []
trim_reversed (a ∷ b ∷ []) =
    let one = trim_reversed (b ∷ []) in
    if ascii_space a then one else if two_byte_space a b then [] else a ∷ b ∷ []
trim_reversed (a ∷ b ∷ c ∷ s) =
    let one = trim_reversed (b ∷ c ∷ s) in
    let two = trim_reversed (c ∷ s) in
    let three = trim_reversed s in
    if ascii_space a
    then one
    else if two_byte_space a b
    then two
    else if three_byte_space a b c
    then three
    else a ∷ b ∷ c ∷ s

-- `trim_end` takes whole characters of white space off the end of a text.
unfoldable pub trim_end : Bytes → Bytes
unfolding trim_reversed
trim_end s = reverse (trim_reversed (reverse s))

-- What the outside gives: the start of the program, the writes that fail, the terminal, and the reading
-- of utf-8.
pub record PinentryEnv : Type 0 where
  pub spawn_error : Option Bytes
  pub write_error : Bytes → Option Bytes
  pub gpg_tty : Option Bytes
  pub from_utf8_lossy : Bytes → Bytes

abbrev pub is_skipped : Bytes → Bool
is_skipped l = starts_with l (codes "S") || starts_with l (codes "#") || is_empty l

abbrev pub is_acknowledged : Bytes → Bool
is_acknowledged l = bytes_eq l (codes "OK") || starts_with l (codes "OK ")

-- `read_line!`, with the lines that are left
pub read_line : List Line → Result PinentryError (Bytes × List Line)
read_line [] = err closed
read_line (read_error e ∷ ls) = err (read_failed e)
read_line (line l ∷ ls) =
    let rest = read_line ls in if is_skipped (trim_end l) then rest else ok (trim_end l, ls)

abbrev pub write_result : Option Bytes → Result PinentryError (Unit {0})
write_result none = ok tt
write_result (some e) = err (write_failed e)

-- `writeln!`
pub write_line : PinentryEnv → Bytes → Result PinentryError (Unit {0})
write_line env command = write_result (env.write_error command)

pub greet : List Line → Result PinentryError (List Line)
greet ls = do (l, rest) ← read_line ls; guard (is_acknowledged l) (refused l); ok rest

-- `send_ok!`
pub send_ok : PinentryEnv → Bytes → List Line → Result PinentryError (List Line)
send_ok env command ls = do write_line env command; greet ls

pub send_tty : PinentryEnv → Option Bytes → List Line → Result PinentryError (List Line)
send_tty env none ls = ok ls
send_tty env (some tty) ls = do
  write_line env (codes "OPTION ttyname=" ++ tty)
  (l, rest) ← read_line ls
  ok rest

-- `assuan_unescape`
pub assuan_unescape : PinentryEnv → Bytes → Bytes
assuan_unescape env s = env.from_utf8_lossy (unescape_bytes s)

-- The answer to GETPIN, which begins with no line skipped.
pub get_pin : PinentryEnv → List Line → Option Bytes → Result PinentryError (Option Bytes)
get_pin env [] pin = err closed
get_pin env (read_error e ∷ ls) pin = err (read_failed e)
get_pin env (line raw ∷ ls) pin =
    let l = trim_end raw in
    let found = get_pin env ls (some (assuan_unescape env (drop 2 l))) in
    let rest = get_pin env ls pin in
    if is_skipped l
    then rest
    else if starts_with l (codes "D ")
    then found
    else if is_acknowledged l
    then ok pin
    else if starts_with l (codes "ERR")
    then ok none
    else rest

pub exchange : PinentryEnv → Bytes → List Line → Result PinentryError (Option Bytes)
exchange env prompt ls = do
  a ← greet ls
  b ← send_tty env env.gpg_tty a
  c ← send_ok env (codes "SETTITLE Xpra Authentication") b
  d ← send_ok env (codes "SETPROMPT Password:") c
  e ← send_ok env (codes "SETDESC " ++ assuan_escape prompt) d
  write_line env (codes "GETPIN")
  get_pin env e none

pub run_pinentry : PinentryEnv → Bytes → List Line → Result PinentryError (Option Bytes)
run_pinentry env prompt ls = elim env.spawn_error [
  | some e ↦ err (not_started e)
  | none ↦ exchange env prompt ls
]

-- The packet that the thread posts.
pub pinentry_packet : Bytes → Result PinentryError (Option Bytes) → Packet
pinentry_packet prompt (ok (some password)) = client_packet (codes "challenge-password") password
pinentry_packet prompt (ok none) = client_packet (codes "challenge-cancel") []
pinentry_packet prompt (err e) = client_packet (codes "challenge-fallback-dialog") prompt

pub spawn_pinentry : PinentryEnv → Bytes → List Line → Packet
spawn_pinentry env prompt ls = pinentry_packet prompt (run_pinentry env prompt ls)
