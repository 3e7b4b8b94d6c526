-- ===== src/Client/ClipboardThread/Tests.antt =====
-- The clipboard's thread at concrete texts.
use rust_xpra.Prelude.{◌≡◌, refl, true, false, some, [], ◌∷◌, codes}
use rust_xpra.Client.ClipboardThread.{
  ClipboardEnv, texts, timeout, ClipboardThread, report_text, poll_contents, clipboard_round,
  start_clipboard, changed_packet, clipboard_round_own, clipboard_round_once,
}

abbrev env : ClipboardEnv
env = record { sets = λ t. true; contents = some (codes "new"); sends = true }

abbrev idle : ClipboardThread
idle = record { last = codes "old"; posted = []; stopped = false }

clipboard_round_own_example :
    clipboard_round env timeout
      (clipboard_round env (texts (codes "older") (codes "new" ∷ [])) idle)
    ≡ clipboard_round env (texts (codes "older") (codes "new" ∷ [])) idle
clipboard_round_own_example =
    clipboard_round_own env env (codes "older") (codes "new" ∷ []) idle (λ t. refl) refl

clipboard_round_once_case :
    clipboard_round env timeout (clipboard_round env timeout idle)
    ≡ clipboard_round env timeout idle
clipboard_round_once_case = clipboard_round_once env env (codes "new") idle refl refl refl

reported :
    clipboard_round env timeout idle
    ≡ record idle { last = codes "new"; posted = changed_packet (codes "new") ∷ [] }
unfolding clipboard_round poll_contents report_text
reported = refl

nothing_at_first :
    clipboard_round env timeout (start_clipboard (some (codes "new")))
    ≡ start_clipboard (some (codes "new"))
unfolding clipboard_round poll_contents start_clipboard
nothing_at_first = refl
