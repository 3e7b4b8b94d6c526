-- ===== src/Client/Session/Acks.antt =====
-- Each draw is acknowledged once, with its own sequence and window.
use mathlib.Core.Option
use rust_xpra.Prelude.{
  ℕ, ◌≡◌, refl, ◌∙◌, ◌⊎◌, ◌==◌, inl, inr, Bool, true, false, not, Option, none, some, Option-cases,
  [], ◌∷◌, ◌++◌, append-nil, Bytes, codes, is_empty, length, get_elem?, if◌then◌else◌, ◌≤◌, ◌<◌,
  ◌*◌, ◌^◌, arith,
}
use rust_xpra.Prelude.Int.{ℤ, pos, negsuc}
use rust_xpra.Net.Packet.{
  Packet, len, get_str, get_u64, get_u32, get_i32, get_bytes, yaml_bytes, remove_chunk, Yaml,
  yaml_u64, yaml_u32, yaml_str, yaml_i32,
}
use rust_xpra.Net.Io.{find_chunk}
use rust_xpra.Client.Json.{Json, list, str, nat, number, text}
use rust_xpra.Client.Session.{
  Session, Env, ◌>>=◌, pure, lift, gets, emit, match_option, find_window, XpraWindow, Call, call,
  when, ◌>>◌, called, paint, wrote,
}
use rust_xpra.Client.Session.Later.{writes, writes-append, write_json_lem}
use rust_xpra.Client.Session.Send.{draw_ack_packet, send_draw_ack}
use rust_xpra.Client.Session.Pings.{process_draw_decoded, process_draw_failed}
use rust_xpra.Client.Session.Dispatch.{kind_of, process_kind, do_process_packet, user_event}
use rust_xpra.Client.Painting.{Surface, paint_pixels}
use rust_xpra.Client.Painting.Bounds.{IsSurface, paint_pixels-IsSurface}
use rust_xpra.Client.Draw.Decoding.{has_field}
use rust_xpra.Client.Draw.Answers.{IsAnswer}

-- An image of the size of the draw has less than 2^64 bytes.
abbrev pub IsSized : Packet → Type 0
IsSized p = (w h : ℕ) → get_u32 p 4 ≡ some w → get_u32 p 5 ≡ some h → w * h * 4 < 2 ^ 64

-- The packet that acknowledges the draw of the window in field 1 and the sequence in field 8.
abbrev pub IsAck : Session → Packet → Json → Type 0
IsAck s p ack =
    (seq wid w h : ℕ) × (time : ℤ) × (message : Bytes) × (get_u64 p 8 ≡ some seq)
    × (get_u64 p 1 ≡ some wid)
    × (get_u32 p 4 ≡ some w)
    × (get_u32 p 5 ≡ some h)
    × (ack ≡ (
        if s.server_backwards_compatible
        then list (
            str "window-draw-ack"
            ∷ nat seq
            ∷ nat wid
            ∷ nat w
            ∷ nat h
            ∷ number time
            ∷ text message
            ∷ [])
        else list (
            str "window-ack"
            ∷ nat wid
            ∷ nat w
            ∷ nat h
            ∷ nat seq
            ∷ number time
            ∷ text message
            ∷ [])))

get_bytes_total :
    (base64 : Bytes → Option Bytes) (p : Packet) (i : ℕ)
    → i < length p.main
    → (v : Bytes) × (p' : Packet) × (get_bytes base64 p i ≡ some (v, p')) × (p'.main ≡ p.main)
unfolding get_bytes
get_bytes_total base64 p i h = elim (Option-cases (find_chunk p.raw i)) [
  | inl e ↦
      let (y, f) = has_field p.main i h in (yaml_bytes base64 y, p, rw (get_bytes, e, f) refl, refl)
  | inr (v, e) ↦ (v, record p { raw = remove_chunk p.raw i }, rw (get_bytes, e) refl, refl)
]

-- The fields of a draw's answer that its acknowledgement reads.
record Has (q : Packet) (seq wid w h : Yaml) : Type 0 where
  e8 : get_elem? q.main 8 ≡ some seq
  e1 : get_elem? q.main 1 ≡ some wid
  e4 : get_elem? q.main 4 ≡ some w
  e5 : get_elem? q.main 5 ≡ some h

-- What a handler must come to.
abbrev Acknowledges : Session → Yaml → Yaml → Yaml → Yaml → Option {0} (Unit × Session) → Type 0
Acknowledges s seq wid w h r =
    (t : Session) × (time : ℤ) × (message : Bytes) × (r ≡ some (tt, t))
    × (writes t.effects
        ≡ writes s.effects
          ++ (draw_ack_packet s.server_backwards_compatible (yaml_u64 seq) (yaml_u64 wid)
                (yaml_u32 w) (yaml_u32 h) time message
              ∷ []))

module _ (env : Env) (s : Session) (up : s.exit_code ≡ none)
    (sent : (packet : Json) → env.send_packet packet ≡ none) where
  send_draw_ack-Acknowledges :
      (seq wid w h : Yaml) (time : ℤ) (message : Bytes)
      → Acknowledges s seq wid w h
          (send_draw_ack env (yaml_u64 seq) (yaml_u64 wid) (yaml_u32 w) (yaml_u32 h) time message s)
  unfolding send_draw_ack ◌>>=◌ gets
  send_draw_ack-Acknowledges seq wid w h time message =
      let k =
        draw_ack_packet s.server_backwards_compatible (yaml_u64 seq) (yaml_u64 wid) (yaml_u32 w)
          (yaml_u32 h) time message in
      (
        record s { effects = s.effects ++ (wrote k ∷ []) },
        time,
        message,
        write_json_lem env k s up (sent k),
        writes-append s.effects (wrote k ∷ []),
      )

  process_draw_failed_lem :
      (q : Packet) (seq wid w h : Yaml)
      → 9 ≤ length q.main
      → Has q seq wid w h
      → Acknowledges s seq wid w h (process_draw_failed env q s)
  unfolding process_draw_failed ◌>>=◌ lift gets send_draw_ack get_u64 get_u32 get_str
  process_draw_failed_lem q seq wid w h long f =
      let (m, e7) = has_field q.main 7 (omega arith) in
      rw (f.e1, f.e4, f.e5, e7, f.e8)
        (send_draw_ack-Acknowledges seq wid w h (negsuc 0) (yaml_str m))

module _ (env : Env) (sent : (packet : Json) → env.send_packet packet ≡ none) where
  paint-Acknowledges :
      (s : Session) (found : Option XpraWindow) (blank : Bool) (o : Option Surface) (c : Call)
      (seq wid w h : Yaml) (time : ℤ) (lost : Bytes)
      → (after : Surface) × (o ≡ some after)
      → s.exit_code ≡ none
      → Acknowledges s seq wid w h (
          match_option found
            (send_draw_ack env
              (yaml_u64 seq)
              (yaml_u64 wid)
              (yaml_u32 w)
              (yaml_u32 h)
              (negsuc 0)
              lost)
            (λ window.
              when (not blank) (lift o >>= λ _. call (yaml_u64 wid) c)
              >> send_draw_ack env (yaml_u64 seq) (yaml_u64 wid) (yaml_u32 w) (yaml_u32 h) time [])
            s)
  unfolding match_option ◌>>=◌ pure emit lift
  paint-Acknowledges s none blank o c seq wid w h time lost p up =
      send_draw_ack-Acknowledges env s up sent seq wid w h (negsuc 0) lost
  paint-Acknowledges s (some window) true o c seq wid w h time lost p up =
      send_draw_ack-Acknowledges env s up sent seq wid w h time []
  paint-Acknowledges s (some window) false none c seq wid w h time lost (after, p) up = cc p
  paint-Acknowledges s (some window) false (some painted) c seq wid w h time lost p up =
      let shown = record s { effects = s.effects ++ (called (yaml_u64 wid) c ∷ []) } in
      let (t, time', message, e, f) =
        send_draw_ack-Acknowledges env shown up sent seq wid w h time [] in
      (
        t,
        time',
        message,
        e,
        f
            ∙ rw
                (
                  writes-append s.effects (called (yaml_u64 wid) c ∷ []),
                  append-nil (writes s.effects),
                )
                refl,
      )

module _ (env : Env) (s : Session) (up : s.exit_code ≡ none)
    (sent : (packet : Json) → env.send_packet packet ≡ none)
    (whole : (wid : ℕ) → IsSurface (env.surface wid)) where
  process_draw_decoded_lem :
      (q : Packet) (seq wid w h : Yaml)
      → 9 ≤ length q.main
      → Has q seq wid w h
      → yaml_u32 w * yaml_u32 h * 4 < 2 ^ 64
      → Acknowledges s seq wid w h (process_draw_decoded env q s)
  unfolding process_draw_decoded ◌>>=◌ lift gets send_draw_ack get_u64 get_u32 get_i32 get_str
      match_option emit pure
  process_draw_decoded_lem q seq wid w h long f fits =
      let (x, e2) = has_field q.main 2 (omega arith) in
      let (y, e3) = has_field q.main 3 (omega arith) in
      let (c, e6) = has_field q.main 6 (omega arith) in
      let (v, q', g, m) = get_bytes_total env.base64 q 7 (omega arith) in
      let (painted, shown, _, _, _) =
        paint_pixels-IsSurface (env.surface (yaml_u64 wid)) (yaml_i32 x) (yaml_i32 y) (yaml_u32 w)
          (yaml_u32 h) (yaml_str c) v fits (whole (yaml_u64 wid)) in
      rw (f.e1, e2, e3, f.e4, f.e5, e6, g, m, f.e8)
        (paint-Acknowledges env sent s (find_window s.windows (yaml_u64 wid)) (is_empty v)
          (paint_pixels (env.surface (yaml_u64 wid)) (yaml_i32 x) (yaml_i32 y) (yaml_u32 w)
            (yaml_u32 h) (yaml_str c) v)
          (paint (yaml_u64 seq) (yaml_i32 x) (yaml_i32 y) (yaml_u32 w) (yaml_u32 h) (yaml_str c) v)
          seq wid w h (Option.get_or q'.decode_time_us (pos 0)) (codes "window not found!")
          (painted, shown) up)

  user_event-Acknowledges :
      (q : Packet) (seq wid w h : Yaml)
      → 9 ≤ length q.main
      → Has q seq wid w h
      → yaml_u32 w * yaml_u32 h * 4 < 2 ^ 64
      → (get_str q 0 ≡ some (codes "draw-decoded")) ⊎ (get_str q 0 ≡ some (codes "decoding-failed"))
      → Acknowledges s seq wid w h (user_event env q s)
  unfolding user_event do_process_packet process_kind ◌>>=◌ lift len kind_of
  user_event-Acknowledges q seq wid w h long f fits (inl e) =
      let n : (length q.main == 0) ≡ false = ground arith in
      rw (n, e) (process_draw_decoded_lem q seq wid w h long f fits)
  user_event-Acknowledges q seq wid w h long f fits (inr e) =
      let n : (length q.main == 0) ≡ false = ground arith in
      rw (n, e) (process_draw_failed_lem env s up sent q seq wid w h long f)

-- The packet that the decode thread posts for a draw of nine fields leads, in a session that is not
-- over, whose writes succeed and whose windows have as many pixels as their size says, where the size
-- of the draw is one of less than 2^64 bytes, to one packet written: the acknowledgement, in the
-- layout of the server, with the sequence, the window and the size of the draw, whether it was decoded
-- or not and whether its window is still there.
pub draw-acknowledged :
    (env : Env) (s : Session) (p q : Packet)
    → s.exit_code ≡ none
    → ((packet : Json) → env.send_packet packet ≡ none)
    → 9 ≤ length p.main
    → ((wid : ℕ) → IsSurface (env.surface wid))
    → IsSized p
    → IsAnswer p q
    → (t : Session) × (ack : Json) × (user_event env q s ≡ some (tt, t))
      × IsAck s p ack
      × (writes t.effects ≡ writes s.effects ++ (ack ∷ []))
unfolding get_u64 get_u32 draw_ack_packet
draw-acknowledged env s p q up sent long whole sized answer =
    let (wid, e1) = has_field p.main 1 (omega arith) in
    let (w, e4) = has_field p.main 4 (omega arith) in
    let (h, e5) = has_field p.main 5 (omega arith) in
    let (seq, e8) = has_field p.main 8 (omega arith) in
    let f : Has q seq wid w h = record {
      e8 = answer.sequence ∙ e8;
      e1 = answer.window ∙ e1;
      e4 = answer.width ∙ e4;
      e5 = answer.height ∙ e5;
    } in
    let (t, time, message, e, g) =
      user_event-Acknowledges env s up sent whole q seq wid w h (rw answer.size long) f
        (sized (yaml_u32 w) (yaml_u32 h) (rw e4 refl) (rw e5 refl)) answer.kind in
    (
      t,
      draw_ack_packet s.server_backwards_compatible (yaml_u64 seq) (yaml_u64 wid) (yaml_u32 w)
          (yaml_u32 h) time message,
      e,
      (
        yaml_u64 seq,
        yaml_u64 wid,
        yaml_u32 w,
        yaml_u32 h,
        time,
        message,
        rw e8 refl,
        rw e1 refl,
        rw e4 refl,
        rw e5 refl,
        refl,
      ),
      g,
    )
