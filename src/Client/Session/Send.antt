-- ===== src/Client/Session/Send.antt =====
-- The packets that the client writes (src/client/client.rs, the `send_` methods but `send_hello`).
use mathlib.Core.Option
use rust_xpra.Prelude.{
  ℕ, suc, String, Bool, true, Option, none, some, List, [], ◌∷◌, ◌++◌, if◌then◌else◌, Bytes, ◌==◌,
  ◌&&◌,
}
use rust_xpra.Prelude.Int.{ℤ, leb_ℤ}
use rust_xpra.Client.Json.{Json, number, text, boolean, list, dict, str, nat}
use rust_xpra.Client.Monitors.{MonitorInfo, monitor_relative_position, sub_i32}
use rust_xpra.Client.Session.{Session, Env, Action, ◌>>=◌, gets, find_window, write_json}

unfoldable pub draw_ack_packet : Bool → ℕ → ℕ → ℕ → ℕ → ℤ → Bytes → Json
draw_ack_packet backwards_compatible seq wid width height decode_time message =
    if backwards_compatible
    then list (
        str "window-draw-ack"
        ∷ nat seq
        ∷ nat wid
        ∷ nat width
        ∷ nat height
        ∷ number decode_time
        ∷ text message
        ∷ [])
    else list (
        str "window-ack"
        ∷ nat wid
        ∷ nat width
        ∷ nat height
        ∷ nat seq
        ∷ number decode_time
        ∷ text message
        ∷ [])

abbrev pub descriptor : ℕ → ℤ → ℤ → Json
descriptor index x y =
    dict (("index", nat index) ∷ ("position", list (number x ∷ number y ∷ [])) ∷ [])

pub monitor_descriptor : List MonitorInfo → ℤ → ℤ → Option Json
monitor_descriptor monitors x y =
    Option.map (λ (p : ℕ × ℤ × ℤ). descriptor p.0 p.1 p.2) (monitor_relative_position monitors x y)

same_ℤ : ℤ → ℤ → Bool
same_ℤ a b = leb_ℤ a b && leb_ℤ b a

abbrev Geometry : Type 0
Geometry = ℤ × ℤ × ℕ × ℕ

-- `m.geometry == geometry`
has_geometry : MonitorInfo → Geometry → Bool
has_geometry m (x, y, w, h) = (same_ℤ m.x x && same_ℤ m.y y) && ((m.width == w) && (m.height == h))

-- `self.monitors.iter().position(...)`, with the monitor, from the `index`th on
position_from : ℕ → List MonitorInfo → Geometry → Option (ℕ × MonitorInfo)
position_from index [] g = none
position_from index (m ∷ ms) g =
    let rest = position_from (suc index) ms g in if has_geometry m g then some (index, m) else rest

-- The index of the monitor that winit has the window on, with that monitor.
pub window_monitor : Env → Session → ℕ → Option (ℕ × MonitorInfo)
window_monitor env s wid =
    Option.bind (find_window s.windows wid) λ window.
      Option.bind (env.current_monitor wid) λ geometry. position_from 0 s.monitors geometry

pub window_monitor_descriptor : Env → Session → ℕ → ℤ → ℤ → Option Json
window_monitor_descriptor env s wid x y = elim (window_monitor env s wid) [
  | some p ↦ some (descriptor p.0 (sub_i32 x p.1.x) (sub_i32 y p.1.y))
  | none ↦ monitor_descriptor s.monitors x y
]

-- A packet with the descriptor behind its fields, where there is one.
pub with_last : List Json → Option Json → List Json
with_last xs none = xs
with_last [] (some y) = y ∷ []
with_last (x ∷ xs) (some y) = x ∷ with_last xs (some y)

-- A dictionary with the descriptor, where there is one.
pub monitor_entry : Option Json → List (String × Json)
monitor_entry none = []
monitor_entry (some d) = ("monitor", d) ∷ []

pub clipboard_data_packet : Bytes → Json
clipboard_data_packet t = list (
    str "clipboard-data"
    ∷ str "CLIPBOARD"
    ∷ dict (
        ("claim", boolean true)
        ∷ ("greedy", boolean true)
        ∷ (
          "targets",
          list (
              str "UTF8_STRING"
              ∷ str "TEXT"
              ∷ str "STRING"
              ∷ str "text/plain;charset=utf-8"
              ∷ str "text/plain"
              ∷ []),
        )
        ∷ (
          "data",
          dict (("UTF8_STRING", list (str "UTF8_STRING" ∷ nat 8 ∷ str "bytes" ∷ text t ∷ [])) ∷ []),
        )
        ∷ [])
    ∷ [])

pub clipboard_contents_packet : ℕ → Bytes → Bytes → Json
clipboard_contents_packet request_id dtype t = list (
    str "clipboard-contents"
    ∷ nat request_id
    ∷ str "CLIPBOARD"
    ∷ text dtype
    ∷ nat 8
    ∷ str "bytes"
    ∷ text t
    ∷ [])

pub get_modifier_state : Session → List Json
get_modifier_state s =
    (if s.modifiers.shift_key then str "shift" ∷ [] else [])
    ++ ((if s.modifiers.control_key then str "control" ∷ [] else [])
        ++ (if s.modifiers.alt_key then str "mod1" ∷ [] else []))

module _ (env : Env) where
  unfoldable pub send_focus : ℕ → Action Unit
  send_focus wid = write_json env (list (str "window-focus" ∷ nat wid ∷ []))

  unfoldable pub send_pointer_position : ℕ → ℤ → ℤ → Action Unit
  send_pointer_position wid x y = do
    monitors ← gets (λ s. s.monitors)
    write_json env (
        list (
          str "pointer-motion"
          ∷ nat 0
          ∷ nat 0
          ∷ nat wid
          ∷ list (number x ∷ number y ∷ [])
          ∷ dict (monitor_entry (monitor_descriptor monitors x y))
          ∷ []))

  unfoldable pub send_pointer_button : ℕ → ℤ → Bool → ℤ → ℤ → Action Unit
  send_pointer_button wid button pressed x y = do
    monitors ← gets (λ s. s.monitors)
    write_json env (
        list (
          str "pointer-button"
          ∷ nat 0
          ∷ nat 0
          ∷ nat wid
          ∷ number button
          ∷ boolean pressed
          ∷ list (number x ∷ number y ∷ [])
          ∷ dict (monitor_entry (monitor_descriptor monitors x y))
          ∷ []))

  unfoldable pub send_window_map : ℕ → ℤ → ℤ → ℕ → ℕ → Action Unit
  send_window_map wid x y w h = do
    monitor ← gets (λ s. window_monitor_descriptor env s wid x y)
    write_json env (
        list (
          with_last
            (str "window-map"
              ∷ nat wid
              ∷ number x
              ∷ number y
              ∷ nat w
              ∷ nat h
              ∷ dict []
              ∷ dict []
              ∷ [])
            monitor))

  unfoldable pub send_window_configure : ℕ → ℤ → ℤ → ℕ → ℕ → Action Unit
  send_window_configure wid x y w h = do
    monitor ← gets (λ s. window_monitor_descriptor env s wid x y)
    write_json env (
        list (
          str "window-configure"
          ∷ nat wid
          ∷ dict (
              ("geometry", list (number x ∷ number y ∷ nat w ∷ nat h ∷ [])) ∷ monitor_entry monitor)
          ∷ []))

  unfoldable pub send_window_close : ℕ → Action Unit
  send_window_close wid = write_json env (list (str "window-close" ∷ nat wid ∷ []))

  unfoldable pub send_clipboard_data : Bytes → Action Unit
  send_clipboard_data t = write_json env (clipboard_data_packet t)

  unfoldable pub send_clipboard_request : Action Unit
  send_clipboard_request =
      write_json env
        (list (str "clipboard-request" ∷ nat 0 ∷ str "CLIPBOARD" ∷ str "UTF8_STRING" ∷ []))

  unfoldable pub send_clipboard_contents : ℕ → Bytes → Bytes → Action Unit
  send_clipboard_contents request_id dtype t =
      write_json env (clipboard_contents_packet request_id dtype t)

  unfoldable pub send_clipboard_contents_none : ℕ → Action Unit
  send_clipboard_contents_none request_id =
      write_json env (list (str "clipboard-contents-none" ∷ nat request_id ∷ str "CLIPBOARD" ∷ []))

  unfoldable pub send_draw_ack : ℕ → ℕ → ℕ → ℕ → ℤ → Bytes → Action Unit
  send_draw_ack seq wid w h decode_time message = do
    compatible ← gets (λ s. s.server_backwards_compatible)
    write_json env (draw_ack_packet compatible seq wid w h decode_time message)

  unfoldable pub send_ping_echo : ℕ → Bytes → Action Unit
  send_ping_echo echotime sid = do
    latency ← gets (λ s. s.last_client_latency_ms)
    write_json env (
        list
          (str "ping_echo" ∷ nat echotime ∷ nat 0 ∷ nat 0 ∷ nat 0 ∷ number latency ∷ text sid ∷ []))

  unfoldable pub send_ping : Action Unit
  send_ping = write_json env (list (str "ping" ∷ number env.elapsed_ms ∷ []))

  unfoldable pub send_log : ℤ → Bytes → Action Unit
  send_log level message =
      write_json env
        (list (str "logging-event" ∷ number level ∷ text message ∷ number env.elapsed_ms ∷ []))

  unfoldable pub send_key_event : ℕ → ℕ → Bytes → Bytes → Bool → Action Unit
  send_key_event wid keycode keyname keystr pressed = do
    modifiers ← gets get_modifier_state
    write_json env (
        list (
          str "keyboard-event"
          ∷ nat wid
          ∷ text keyname
          ∷ boolean pressed
          ∷ dict (
              ("modifiers", list modifiers)
              ∷ ("keyval", nat 0)
              ∷ ("string", text keystr)
              ∷ ("keycode", nat keycode)
              ∷ ("group", nat 0)
              ∷ [])
          ∷ []))
