-- ===== src/Client/Pinentry/Tests.antt =====
-- The theorems on pinentry's lines at concrete lines.
use rust_xpra.Prelude.{◌≡◌, refl, false, some, none, [], ◌∷◌, ok, codes, contains}
use rust_xpra.Client.Session.{client_packet}
use rust_xpra.Client.Pinentry.{
  assuan_escape, unescape_bytes, to_digit, both_digits, assuan_unescape, line, PinentryEnv,
  run_pinentry, exchange, send_tty, send_ok, greet, read_line, write_line, get_pin, trim_end,
  pinentry_packet, spawn_pinentry,
}
use rust_xpra.Client.Pinentry.Escapes.{assuan_escape_one_line, unescape_bytes-assuan_escape}

abbrev env : PinentryEnv
env = record {
  spawn_error = none;
  write_error = λ command. none;
  gpg_tty = none;
  from_utf8_lossy = λ b. b;
}

abbrev with_tty : PinentryEnv
with_tty = record env { gpg_tty = some (codes "/dev/pts/1") }

-- A no-break space ends with a byte that ends other characters too.
trimmed :
    trim_end (0x61 ∷ 0xc3 ∷ 0xa0 ∷ 0xc2 ∷ 0xa0 ∷ 0xe2 ∷ 0x80 ∷ 0x89 ∷ []) ≡ 0x61 ∷ 0xc3 ∷ 0xa0 ∷ []
unfolding trim_end
trimmed = refl

unescape_bytes-assuan_escape_example :
    unescape_bytes (assuan_escape (codes "50%41")) ≡ codes "50%41"
unescape_bytes-assuan_escape_example = unescape_bytes-assuan_escape (codes "50%41")

unescaped : unescape_bytes (codes "a%41%4") ≡ codes "aA%4"
unfolding unescape_bytes to_digit both_digits
unescaped = refl

assuan_escape_one_line_case :
    (contains (assuan_escape (0x0a ∷ codes "BYE")) 0x0a ≡ false)
    × (contains (assuan_escape (0x0a ∷ codes "BYE")) 0x0d ≡ false)
assuan_escape_one_line_case = assuan_escape_one_line (0x0a ∷ codes "BYE")

-- A space at the end of a password is lost.
lost_space :
    run_pinentry env (codes "why") (
      line (codes "OK")
      ∷ line (codes "OK")
      ∷ line (codes "OK")
      ∷ line (codes "OK")
      ∷ line (codes "D secret ")
      ∷ line (codes "OK")
      ∷ [])
    ≡ ok (some (codes "secret"))
unfolding run_pinentry exchange send_tty send_ok greet read_line write_line get_pin assuan_unescape
    unescape_bytes trim_end
lost_space = refl

cancelled :
    spawn_pinentry env (codes "why") (
      line (codes "OK")
      ∷ line (codes "OK")
      ∷ line (codes "# a comment")
      ∷ line (codes "OK")
      ∷ line (codes "OK")
      ∷ line (codes "ERR 83886179 canceled")
      ∷ [])
    ≡ client_packet (codes "challenge-cancel") []
unfolding spawn_pinentry pinentry_packet run_pinentry exchange send_tty send_ok greet read_line
    write_line get_pin trim_end
cancelled = refl
