-- ===== src/Client/ClipboardThread.antt =====
-- src/client/clipboard.rs: the thread that owns the local clipboard.
mod Tests
use rust_xpra.Prelude.{
  ◌≡◌, refl, sym, ap, ◌∙◌, Bool, true, false, not, ◌&&◌, Bool-cases, inl, inr, Option, none, some,
  List, [], ◌∷◌, ◌++◌, if◌then◌else◌, Bytes, codes, bytes_eq, bytes_eq_refl, bytes_eq→eq,
  some_injective, is_empty,
}
use rust_xpra.Net.Packet.{Packet}
use rust_xpra.Client.Session.{client_packet}

-- What the outside answers: whether a text is taken, what the clipboard holds, if it is a text, and
-- whether the event loop takes a packet.
pub record ClipboardEnv : Type 0 where
  pub sets : Bytes → Bool
  pub contents : Option Bytes
  pub sends : Bool

-- What `recv_timeout` gives: a text and those that have come since, nothing, or the end.
pub data Received : Type 0 where
  texts : Bytes → List Bytes → Received
  timeout : Received
  disconnected : Received

-- The text that was last seen or set, the packets that were posted, and whether the loop has ended.
pub record ClipboardThread : Type 0 where
  pub last : Bytes
  pub posted : List Packet
  pub stopped : Bool

pub apply_set : ClipboardEnv → Bytes → ClipboardThread → ClipboardThread
apply_set env text s = if env.sets text then record s { last = text } else s

pub apply_all : ClipboardEnv → List Bytes → ClipboardThread → ClipboardThread
apply_all env [] s = s
apply_all env (text ∷ more) s = apply_all env more (apply_set env text s)

abbrev pub changed_packet : Bytes → Packet
changed_packet text = client_packet (codes "clipboard-changed") text

pub report_text : ClipboardEnv → Bytes → ClipboardThread → ClipboardThread
report_text env text s =
    if env.sends
    then record s { last = text; posted = s.posted ++ (changed_packet text ∷ []) }
    else record s { last = text; stopped = true }

pub poll_contents : ClipboardEnv → Option Bytes → ClipboardThread → ClipboardThread
poll_contents env none s = s
poll_contents env (some text) s =
    if not (is_empty text) && not (bytes_eq text s.last) then report_text env text s else s

-- One round of the loop.
pub clipboard_round : ClipboardEnv → Received → ClipboardThread → ClipboardThread
clipboard_round env (texts text more) s = apply_all env more (apply_set env text s)
clipboard_round env timeout s = poll_contents env env.contents s
clipboard_round env disconnected s = record s { stopped = true }

-- The thread, once it has a clipboard: what is there already is not reported.
pub start_clipboard : Option Bytes → ClipboardThread
start_clipboard none = record { last = []; posted = []; stopped = false }
start_clipboard (some text) = record { last = text; posted = []; stopped = false }

-- The newest of the texts.
abbrev pub newest : Bytes → List Bytes → Bytes
newest text [] = text
newest text (next ∷ more) = newest next more

apply_all_last :
    (env : ClipboardEnv) (text : Bytes) (more : List Bytes) (s : ClipboardThread)
    → ((t : Bytes) → env.sets t ≡ true)
    → (apply_all env more (apply_set env text s)).last ≡ newest text more
unfolding apply_all apply_set
apply_all_last env text [] s h = taken (env.sets text) (h text)
  where
    taken : (b : Bool) → b ≡ true → (if b then record s { last = text } else s).last ≡ text
    taken true e = refl
    taken false e = cc e
apply_all_last env text (next ∷ more) s h = apply_all_last env next more (apply_set env text s) h

poll_same :
    (env : ClipboardEnv) (text : Bytes) (o : Option Bytes) (s : ClipboardThread)
    → s.last ≡ text
    → o ≡ some text
    → poll_contents env o s ≡ s
unfolding poll_contents
poll_same env text none s h e = cc e
poll_same env text (some other) s h e =
    let same : s.last ≡ other = h ∙ sym (some_injective e) in
    unchanged (is_empty other) (bytes_eq other s.last)
      (ap (λ t. bytes_eq other t) same ∙ bytes_eq_refl other)
  where
    unchanged :
        (a b : Bool) → b ≡ true → (if not a && not b then report_text env other s else s) ≡ s
    unchanged true b e = refl
    unchanged false true e = refl
    unchanged false false e = cc e

report_text_last :
    (env : ClipboardEnv) (text : Bytes) (s : ClipboardThread) → (report_text env text s).last ≡ text
unfolding report_text
report_text_last env text s = sent env.sends
  where
    sent :
        (b : Bool)
        → (if b
            then record s { last = text; posted = s.posted ++ (changed_packet text ∷ []) }
            else record s { last = text; stopped = true }).last
          ≡ text
    sent true = refl
    sent false = refl

poll_contents_last :
    (env : ClipboardEnv) (text : Bytes) (o : Option Bytes) (s : ClipboardThread)
    → is_empty text ≡ false
    → o ≡ some text
    → (poll_contents env o s).last ≡ text
unfolding poll_contents
poll_contents_last env text none s h e = cc e
poll_contents_last env text (some other) s h e =
    polled (is_empty other) (bytes_eq other s.last) (ap is_empty (some_injective e) ∙ h)
      (λ b. sym (bytes_eq→eq other s.last b))
    ∙ some_injective e
  where
    polled :
        (a b : Bool)
        → a ≡ false
        → (b ≡ true → s.last ≡ other)
        → (if not a && not b then report_text env other s else s).last ≡ other
    polled true b e f = cc e
    polled false true e f = f refl
    polled false false e f = report_text_last env other s

-- The text that was put on the clipboard last for the server, of any number that came at once and were
-- all taken, is not reported as a change when the thread next reads the clipboard.
pub clipboard_round_own :
    (env later : ClipboardEnv) (text : Bytes) (more : List Bytes) (s : ClipboardThread)
    → ((t : Bytes) → env.sets t ≡ true)
    → later.contents ≡ some (newest text more)
    → clipboard_round later timeout (clipboard_round env (texts text more) s)
      ≡ clipboard_round env (texts text more) s
unfolding clipboard_round
clipboard_round_own env later text more s h e =
    poll_same later (newest text more) later.contents (apply_all env more (apply_set env text s))
      (apply_all_last env text more s h) e

-- A change that was reported is not reported again.
pub clipboard_round_once :
    (env later : ClipboardEnv) (text : Bytes) (s : ClipboardThread)
    → env.contents ≡ some text
    → later.contents ≡ some text
    → is_empty text ≡ false
    → clipboard_round later timeout (clipboard_round env timeout s) ≡ clipboard_round env timeout s
unfolding clipboard_round
clipboard_round_once env later text s e f h =
    poll_same later text later.contents (poll_contents env env.contents s)
      (poll_contents_last env text env.contents s h e) f
