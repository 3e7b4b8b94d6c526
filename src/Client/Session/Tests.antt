-- ===== src/Client/Session/Tests.antt =====
-- The theorems about the session at concrete packets.

use rust_xpra.Prelude.{
  some_injective, sym, ℕ, ◌≤◌, ◌<◌, ◌^◌, ◌≡◌, refl, inl, true, false, ◌&&◌, none, some, String,
  ◌++◌, List, [], ◌∷◌, Bytes, codes, arith,
}
use rust_xpra.Prelude.Int.{pos}
use rust_xpra.Net.Packet.{
  Yaml, item, no_items, array, hash, entry, no_entries, integer, string, Packet, len, get_str,
  get_u64, get_u32, get_bytes, yaml_str, yaml_u64, yaml_u32, yaml_bytes, get,
}
use rust_xpra.Net.Io.{find_chunk}
use rust_xpra.Net.Digest.Hmac.{hmac_sha256_hex, secure_hex}
use rust_xpra.Client.Json.{Json, list, dict, str, text}
use rust_xpra.Client.Session
use rust_xpra.Client.Session.{
  Session, Env, ExitCode, ok_code, authentication_failed, exited, XpraWindow, Effect, find_window,
  ◌>>=◌, gets, assign, emit, pure, lift, quit, match_option, write_json,
}
use rust_xpra.Client.Session.Later.{writes}
use rust_xpra.Client.Session.Hello.{hello_packet, send_hello}
use rust_xpra.Client.Session.Send.{clipboard_data_packet, clipboard_contents_packet}
use rust_xpra.Client.Session.Challenge.{
  known_password, answer_challenge, process_challenge, cancel_auth,
}
use rust_xpra.Client.Session.Clipboard.{
  set_local_clipboard, process_clipboard_changed, process_clipboard_request, is_text_target,
}
use rust_xpra.Client.Session.Windowing.{process_lost_window}
use rust_xpra.Client.Session.Metadata.{WindowMetadataUpdate, stacked, metadata_pair, as_pair}
use rust_xpra.Client.Session.Dispatch.{user_event}
use rust_xpra.Client.Session.Acks.{IsAck, IsSized, draw-acknowledged}
use rust_xpra.Client.Session.Authentication.{
  IsChallenge, process_challenge-refused, process_challenge-response, answer_challenge_once,
}
use rust_xpra.Client.Session.Selections.{
  process_clipboard_changed-own, process_clipboard_request-changed,
}
use rust_xpra.Client.Session.Grabs.{IsHeld, held, process_lost_window-IsHeld}
use rust_xpra.Client.Session.Stacking.{stacked_exclusive, metadata_pair_bounds}
use rust_xpra.Client.Session.Runs.{here, next, cancel, Run-exit_code}
use rust_xpra.Client.Draw.Answers.{IsAnswer}
use rust_xpra.Client.Painting.{create_surface}
use rust_xpra.Client.Painting.Bounds.{create_surface-IsSurface}

abbrev env : Env
env = record {
  send_packet = λ packet. none;
  elapsed_ms = pos 1000;
  secure_random_bytes = λ n. [];
  base64 = λ b. some b;
  from_utf8_lossy = λ b. b;
  platform = codes "linux";
  user_variable = none;
  username_variable = none;
  hostname = none;
  machine_uid = codes "id";
  local_monitors = [];
  mmap_path = [];
  xpra_password = none;
  find_pinentry = none;
  dialog_opens = true;
  decoder_runs = true;
  creates_window = λ wid. true;
  surface = λ wid. create_surface 1 1;
  current_monitor = λ wid. none;
  grabs = λ wid g. true;
  has_focus = λ wid. false;
  inner_size = λ wid. (1, 1);
  get_geometry = λ wid. (pos 0, pos 0, 1, 1);
  decode_png_rgba = λ b. none;
  is_cursor = λ c. false;
  is_icon = λ w h b. false;
}

abbrev packet : List Yaml → Packet
packet main = record { main = main; raw = []; decode_time_us = none }

abbrev num : ℕ → Yaml
num n = integer (pos n)

abbrev draw_fields : Yaml → List Yaml
draw_fields ptype =
    ptype
    ∷ num 3
    ∷ num 0
    ∷ num 0
    ∷ num 1
    ∷ num 1
    ∷ string (codes "png")
    ∷ string (codes "pixels")
    ∷ num 17
    ∷ []

abbrev drawn : Packet
drawn = packet (draw_fields (string (codes "draw")))

abbrev decoded : Packet
decoded = packet (draw_fields (string (codes "draw-decoded")))

answered : IsAnswer drawn decoded
unfolding get_str yaml_str
answered = record {
  kind = inl refl;
  window = refl;
  left = refl;
  top = refl;
  width = refl;
  height = refl;
  coding = refl;
  sequence = refl;
  size = refl;
}

sized : IsSized drawn
unfolding get_u32 yaml_u32
sized w h e f =
    let across : w ≡ 1 = sym (some_injective e) in
    let down : h ≡ 1 = sym (some_injective f) in rw (across, down) (omega arith)

draw-acknowledged_example :
    (t : Session) × (ack : Json) × (user_event env decoded (Session.new none) ≡ some (tt, t))
    × IsAck (Session.new none) drawn ack
    × (writes t.effects ≡ ack ∷ [])
draw-acknowledged_example =
    draw-acknowledged env (Session.new none) drawn decoded refl (λ k. refl) (omega arith)
      (λ wid. create_surface-IsSurface 1 1 (omega arith)) sized answered

-- A session whose user gave a password, and the server's challenge.
abbrev waiting : Session
waiting = record (Session.new none) { password = some (codes "secret") }

abbrev challenge_fields : Bytes → Packet
challenge_fields digest = packet (
    string (codes "challenge")
    ∷ string (codes "salt")
    ∷ string []
    ∷ string digest
    ∷ string (codes "hmac+sha256")
    ∷ string (codes "password")
    ∷ [])

challenged :
    (digest : Bytes)
    → IsChallenge env (challenge_fields digest) (codes "salt") digest (codes "hmac+sha256")
unfolding get_bytes yaml_bytes get_str yaml_str len find_chunk
challenged digest = record {
  rest = challenge_fields digest;
  salt_field = refl;
  digest_field = refl;
  long = omega arith;
  salt_digest_field = refl;
  prompt = codes "password";
  prompt_field = refl;
}

process_challenge-refused_example :
    (t : Session) × (process_challenge env (challenge_fields (codes "xor")) waiting ≡ some (tt, t))
    × (t.exit_code ≡ some authentication_failed)
    × (t.pending_challenge ≡ none)
    × (writes t.effects ≡ [])
process_challenge-refused_example =
    process_challenge-refused env waiting (challenge_fields (codes "xor")) (codes "salt")
      (codes "xor") (codes "hmac+sha256") (refl, refl) (challenged (codes "xor")) refl

process_challenge-response_example :
    (t : Session) × (process_challenge env (challenge_fields (codes "hmac+sha256")) waiting
      ≡ some (tt, t))
    × (t.pending_challenge ≡ none)
    × (before : List (String × Json)) × (after : List (String × Json)) × (hello_packet env waiting
          none
        ≡ list (str "hello" ∷ dict (before ++ after) ∷ []))
    × (writes t.effects
        ≡ list (
            str "hello"
            ∷ dict (
                before
                ++ ((
                  "challenge_response",
                  text (
                      hmac_sha256_hex
                        (codes "secret")
                        (hmac_sha256_hex (secure_hex env.secure_random_bytes 32) (codes "salt"))),
                )
                    ∷ ("challenge_client_salt", text (secure_hex env.secure_random_bytes 32))
                    ∷ ("challenge_padding", text (secure_hex env.secure_random_bytes 64))
                    ∷ after))
            ∷ [])
          ∷ [])
unfolding known_password
process_challenge-response_example =
    process_challenge-response env waiting (challenge_fields (codes "hmac+sha256")) (codes "salt")
      (codes "secret") (refl, refl) refl (λ k. refl) (challenged (codes "hmac+sha256")) refl refl

abbrev over : Session
over = record (Session.new none) { exit_code = some ok_code }

abbrev asked : Session
asked = record over { pending_challenge = some (codes "salt") }

-- The session is over, so that the hello is not written.
answers : answer_challenge env (codes "one") asked ≡ some (tt, over)
unfolding answer_challenge send_hello write_json ◌>>=◌ gets assign match_option
answers = refl

answer_challenge_once_case : answer_challenge env (codes "two") over ≡ some (tt, over)
answer_challenge_once_case =
    answer_challenge_once env env asked over (codes "one") (codes "two") answers

abbrev sharing : Session
sharing = record (Session.new none) { clipboard_enabled = true; last_clipboard = codes "text" }

own_text : set_local_clipboard (codes "text") sharing ≡ some (tt, sharing)
unfolding set_local_clipboard ◌>>=◌ gets assign pure
own_text = refl

abbrev changed : Bytes → Packet
changed t = packet (string (codes "clipboard-changed") ∷ string t ∷ [])

process_clipboard_changed-own_example :
    process_clipboard_changed env (changed (codes "text")) sharing ≡ some (tt, sharing)
unfolding get_str yaml_str
process_clipboard_changed-own_example =
    process_clipboard_changed-own env sharing sharing (changed (codes "text")) (codes "text")
      own_text refl

abbrev requested : Packet
requested = packet (
    string (codes "clipboard-request")
    ∷ num 9
    ∷ string (codes "CLIPBOARD")
    ∷ string (codes "TEXT")
    ∷ [])

process_clipboard_request-changed_example :
    (u v : Session) × (process_clipboard_changed env (changed (codes "new")) sharing ≡ some (tt, u))
    × (process_clipboard_request env requested u ≡ some (tt, v))
    × (writes v.effects
        ≡ clipboard_data_packet (codes "new")
          ∷ clipboard_contents_packet 9 (codes "TEXT") (codes "new")
          ∷ [])
unfolding get_str yaml_str get_u64 yaml_u64 is_text_target
process_clipboard_request-changed_example =
    process_clipboard_request-changed env sharing (changed (codes "new")) requested (codes "new")
      (codes "TEXT") 9 refl refl (λ k. refl) refl refl refl refl refl

abbrev plain : XpraWindow
plain = record {
  override_redirect = false;
  above = false;
  below = false;
  last_cursor = (pos 0, pos 0);
}

abbrev grabbed : Session
grabbed = record (Session.new none) {
  windows = (3, plain) ∷ (4, plain) ∷ [];
  pointer_grabbed = some 3;
}

process_lost_window-IsHeld_example :
    (t : Session) × (process_lost_window
        (packet (string (codes "lost-window") ∷ num 3 ∷ []))
        grabbed
      ≡ some (tt, t))
    × (find_window t.windows 3 ≡ none)
    × IsHeld t
unfolding get_u64 yaml_u64
process_lost_window-IsHeld_example =
    process_lost_window-IsHeld grabbed (packet (string (codes "lost-window") ∷ num 3 ∷ [])) 3 refl
      (held 3 plain refl refl)

abbrev update : WindowMetadataUpdate
update = record {
  title = none;
  decorations = none;
  fullscreen = none;
  maximized = none;
  iconic = none;
  above = some true;
  below = some true;
  size_constraints = none;
}

stacked_exclusive_case : (stacked update plain).above && (stacked update plain).below ≡ false
stacked_exclusive_case = stacked_exclusive update plain refl

metadata_pair_bounds_case : ((1 ≤ 640) × (640 < 2 ^ 32)) × ((1 ≤ 480) × (480 < 2 ^ 32))
unfolding metadata_pair as_pair get
metadata_pair_bounds_case =
    metadata_pair_bounds
      (hash (
        entry (string (codes "minimum-size")) (array (item (num 640) (item (num 480) no_items)))
          no_entries))
      "minimum-size" 640 480 refl

abbrev cancelled : Session
cancelled = record over { effects = exited ∷ [] }

cancels : cancel_auth over ≡ some (tt, cancelled)
unfolding cancel_auth ◌>>=◌ assign quit
cancels = refl

Run-exit_code_example : (cancelled.exit_code ≡ some ok_code) × (writes cancelled.effects ≡ [])
Run-exit_code_example =
    Run-exit_code {s = over} {t = cancelled} ok_code refl (next here (cancel cancels))
