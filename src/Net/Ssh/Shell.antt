-- ===== src/Net/Ssh/Shell.antt =====
-- How a POSIX shell reads a word, as far as quotes and escapes go, and what it makes of the remote
-- command of ssh.rs.
use rust_xpra.Prelude.{
  ◌≡◌, refl, Bool, true, Option, none, some, List, [], ◌∷◌, ◌++◌, ◌==◌, ◌||◌, arith, if◌then◌else◌,
  Bytes, codes, append_assoc, append-nil, ℕ, contains, Bool-cases, inl, inr,
}
use rust_xpra.Net.Ssh.{escape_quotes, shell_quote, proxy_command, guarded_command, remote_command}

pub data Mode : Type 0 where
  bare quoted escaped : Mode

-- Blanks and `;` end a word; the other operators and expansions of the shell do not belong to a
-- plain word.
abbrev pub ends_word : ℕ → Bool
ends_word c = (c == b' ') || (c == b';')

abbrev pub special : ℕ → Bool
special c = contains (codes "\"$&|<>()*?[]{}`~#!\n\t") c

abbrev push : ℕ → Option (Bytes × Bytes) → Option (Bytes × Bytes)
push c none = none
push c (some (word, rest)) = some (c ∷ word, rest)

-- The word at the start of a text, and what stands behind the character that ends it. `none`: a
-- quote is left open, or the word is not plain.
pub read_word : Mode → Bytes → Option (Bytes × Bytes)
read_word bare [] = some ([], [])
read_word quoted [] = none
read_word escaped [] = none
read_word bare (c ∷ s) =
    let in_quotes = read_word quoted s in
    let after_escape = read_word escaped s in
    let plain = push c (read_word bare s) in
    if c == b'\''
    then in_quotes
    else if c == b'\\'
    then after_escape
    else if ends_word c
    then some ([], s)
    else if special c
    then none
    else plain
read_word quoted (c ∷ s) =
    let closed = read_word bare s in
    let inside = push c (read_word quoted s) in if c == b'\'' then closed else inside
read_word escaped (c ∷ s) = push c (read_word bare s)

-- What may follow a word.
abbrev pub Ends : Bytes → Type 0
Ends [] = Unit
Ends (c ∷ s) = ends_word c ≡ true

abbrev pub after_end : Bytes → Bytes
after_end [] = []
after_end (c ∷ s) = s

read_word_end : (rest : Bytes) → Ends rest → read_word bare rest ≡ some ([], after_end rest)
unfolding read_word
read_word_end [] h = refl
read_word_end (c ∷ s) h = ground arith

read_word-escape_quotes :
    (s rest : Bytes)
    → Ends rest
    → read_word quoted (escape_quotes s ++ (b'\'' ∷ rest)) ≡ some (s, after_end rest)
unfolding read_word escape_quotes
read_word-escape_quotes [] rest h = read_word_end rest h
read_word-escape_quotes (c ∷ s) rest h = elim (Bool-cases (c == b'\'')) [
  | inl e ↦ rw (e, read_word-escape_quotes s rest h) (ground arith)
  | inr e ↦ rw (e, read_word-escape_quotes s rest h) (ground arith)
]

-- Whatever a quoted text holds, the shell reads it as one word, and as that text.
pub read_word-shell_quote :
    (s rest : Bytes) → Ends rest → read_word bare (shell_quote s ++ rest) ≡ some (s, after_end rest)
unfolding shell_quote read_word
read_word-shell_quote s rest h =
    rw (append_assoc (escape_quotes s) (codes "'") rest) (read_word-escape_quotes s rest h)

whole_word : (s : Bytes) → read_word bare (shell_quote s) ≡ some (s, [])
whole_word s = rw append-nil at (read_word-shell_quote s [] tt)

-- The words of a command line, as many as are asked for.
abbrev pub Words : List Bytes → Bytes → Type 0
Words [] rest = rest ≡ []
Words (w ∷ ws) text = (rest : Bytes) × (read_word bare text ≡ some (w, rest)) × Words ws rest

-- The login shell reads three words, `sh`, `-c` and the guarded command, and in that command the
-- word behind `xpra _proxy` is the display, whatever its characters.
pub remote_command-Words :
    (c : ℕ) (d : Bytes)
    → Words (codes "sh" ∷ codes "-c" ∷ guarded_command (c ∷ d) ∷ []) (remote_command (c ∷ d))
      × ((tail : Bytes) × (guarded_command (c ∷ d)
            ≡ codes "if command -v \"xpra\" > /dev/null 2>&1; then xpra _proxy " ++ tail)
          × (read_word bare tail
              ≡ some (c ∷ d, codes " else echo \"no xpra command found\" 1>&2; exit 1; fi")))
unfolding remote_command read_word
remote_command-Words c d = (
  (
    codes "-c " ++ shell_quote (guarded_command (c ∷ d)),
    refl,
    (shell_quote (guarded_command (c ∷ d)), refl, ([], whole_word (guarded_command (c ∷ d)), refl)),
  ),
  (
    shell_quote (c ∷ d) ++ codes "; else echo \"no xpra command found\" 1>&2; exit 1; fi",
    unfold guarded_command proxy_command in refl,
    read_word-shell_quote (c ∷ d) (codes "; else echo \"no xpra command found\" 1>&2; exit 1; fi")
        refl,
  ),
)
