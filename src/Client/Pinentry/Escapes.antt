-- ===== src/Client/Pinentry/Escapes.antt =====
-- The escapes of pinentry's lines.
use rust_xpra.Prelude.{
  ℕ, ◌≡◌, refl, ap, false, Bool-cases, inl, inr, Option, none, some, List, [], ◌∷◌, ◌++◌, arith,
  ◌==◌, Bytes, codes, contains, ==_iff, ◌∙◌,
}
use rust_xpra.Client.Pinentry.{assuan_escape, to_digit, both_digits, unescape_bytes, Line, line}

-- What is escaped stands in one line.
pub assuan_escape_one_line :
    (s : Bytes)
    → (contains (assuan_escape s) 0x0a ≡ false) × (contains (assuan_escape s) 0x0d ≡ false)
unfolding assuan_escape
assuan_escape_one_line [] = (refl, refl)
assuan_escape_one_line (c ∷ s) =
    let h = assuan_escape_one_line s in (ground (arith, h.0), ground (arith, h.1))

-- A character that is not escaped is handed on.
unescape_plain :
    (c : ℕ) (s : Bytes) → (c == b'%') ≡ false → unescape_bytes (c ∷ s) ≡ c ∷ unescape_bytes s
unfolding unescape_bytes
unescape_plain c [] h = refl
unescape_plain c (a ∷ []) h = refl
unescape_plain c (a ∷ b ∷ s) h = rw h refl

-- What is escaped is read back.
pub unescape_bytes-assuan_escape : (s : Bytes) → unescape_bytes (assuan_escape s) ≡ s
unfolding assuan_escape unescape_bytes to_digit both_digits
unescape_bytes-assuan_escape [] = refl
unescape_bytes-assuan_escape (c ∷ s) = elim (Bool-cases (c == b'%')) [
  | inl e ↦
      rw (e, (==_iff c b'%').0 e) (ap (λ (r : Bytes). b'%' ∷ r) (unescape_bytes-assuan_escape s))
  | inr e ↦ elim (Bool-cases (c == 0x0d)) [
    | inl f ↦
        rw (e, f, (==_iff c 0x0d).0 f)
          (ap (λ (r : Bytes). 0x0d ∷ r) (unescape_bytes-assuan_escape s))
    | inr f ↦ elim (Bool-cases (c == 0x0a)) [
      | inl g ↦
          rw (e, f, g, (==_iff c 0x0a).0 g)
            (ap (λ (r : Bytes). 0x0a ∷ r) (unescape_bytes-assuan_escape s))
      | inr g ↦
          rw (e, f, g)
            (unescape_plain c (assuan_escape s) e
              ∙ ap (λ (r : Bytes). c ∷ r) (unescape_bytes-assuan_escape s))
    ]
  ]
]

-- What pinentry writes for a pin.
abbrev pub pin_line : Bytes → Bytes
pin_line pin = codes "D " ++ assuan_escape pin

-- What pinentry writes to the terminal's option, where there is a terminal.
abbrev pub tty_replies : Option Bytes → Bytes → List Line → List Line
tty_replies none reply ls = ls
tty_replies (some tty) reply ls = line reply ∷ ls
