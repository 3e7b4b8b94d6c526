-- ===== src/Client/Session/State.antt =====
-- src/client/client.rs and src/exit_codes.rs: the state of the client, what it does to the outside, and
-- what the outside answers.

use rust_xpra.Prelude.{ℕ, Bool, true, false, Option, none, List, [], Bytes}
use rust_xpra.Prelude.Int.{ℤ, negsuc}
use rust_xpra.Net.Packet.{Packet}
use rust_xpra.Client.Json.{Json}
use rust_xpra.Client.Mmap.{MmapArea}
use rust_xpra.Client.Monitors.{MonitorInfo}
use rust_xpra.Client.Painting.{Surface}

-- src/exit_codes.rs
pub data ExitCode : Type 0 where
  ok_code : ExitCode
  connection_lost : ExitCode
  failure : ExitCode
  ssh_failure : ExitCode
  packet_failure : ExitCode
  mmap_token_failure : ExitCode
  internal_error : ExitCode
  ssl_failure : ExitCode
  connection_failed : ExitCode
  authentication_failed : ExitCode
  argument_mismatch : ExitCode

pub value : ExitCode → ℕ
value ok_code = 0
value connection_lost = 1
value failure = 7
value ssh_failure = 8
value packet_failure = 9
value mmap_token_failure = 10
value internal_error = 14
value ssl_failure = 16
value connection_failed = 18
value authentication_failed = 28
value argument_mismatch = 34

-- `CustomCursor::from_rgba`'s arguments
pub record Cursor : Type 0 where
  pub rgba : Bytes
  pub width : ℕ
  pub height : ℕ
  pub hotspot_x : ℕ
  pub hotspot_y : ℕ

-- The fields of `XpraWindow` that the client's handlers read or write.
pub record XpraWindow : Type 0 where
  pub override_redirect : Bool
  pub above : Bool
  pub below : Bool
  pub last_cursor : ℤ × ℤ

-- `ModifiersState`, the keys that the client reports
pub record Modifiers : Type 0 where
  pub shift_key : Bool
  pub control_key : Bool
  pub alt_key : Bool

-- The requests to a window, `window.window` and `paint`.
pub data Grab : Type 0 where
  confined : Grab
  locked : Grab
  released : Grab

pub data Level : Type 0 where
  always_on_top : Level
  always_on_bottom : Level
  normal : Level

pub data Call : Type 0 where
  create : (title : Bytes) (x y : ℤ) (w h : ℕ) (decorated resizable : Bool) → Call
  set_title : Bytes → Call
  set_decorations : Bool → Call
  set_min_inner_size : Option (ℕ × ℕ) → Call
  set_max_inner_size : Option (ℕ × ℕ) → Call
  set_resize_increments : Option (ℕ × ℕ) → Call
  set_resizable : Bool → Call
  set_fullscreen : Bool → Call
  set_maximized : Bool → Call
  set_minimized : Bool → Call
  set_window_level : Level → Call
  move_resize : (x y : ℤ) (w h : ℕ) → Call
  drag : Option ℕ → Call
  focus_window : Call
  set_cursor : Option Cursor → Call
  set_window_icon : ℕ → ℕ → Bytes → Call
  set_cursor_grab : Grab → Call
  resize : ℕ → ℕ → Call
  draw_screen : Call
  paint : (seq : ℕ) (x y : ℤ) (w h : ℕ) (coding pixels : Bytes) → Call

-- What a handler does outside the state: packets to the server, to the event loop, to the decode
-- thread and to the clipboard thread, threads and prompts that it starts, and calls of a window.
pub data Effect : Type 0 where
  wrote : Json → Effect
  posted : Packet → Effect
  to_decoder : Packet → Effect
  to_clipboard : Bytes → Effect
  started_reader : Effect
  started_pings : Effect
  started_clipboard : Effect
  prompted : Bytes → Bytes → Effect
  opened_dialog : Bytes → Effect
  unlinked : Effect
  exited : Effect
  called : ℕ → Call → Effect
  rang : ℤ → ℤ → Effect

-- `XpraClient`: of the log sink, the clipboard's sender and the dialog it matters only whether they are
-- there.
pub record Session : Type 0 where
  pub hello_sent : Bool
  pub server_version : Bytes
  pub server_backwards_compatible : Bool
  pub windows : List (ℕ × XpraWindow)
  pub modifiers : Modifiers
  pub startup_complete : Bool
  pub last_client_latency_ms : ℤ
  pub current_cursor : Option Cursor
  pub monitors : List MonitorInfo
  pub desktop_size : Option (ℕ × ℕ)
  pub pointer_grabbed : Option ℕ
  pub auth_dialog : Bool
  pub pending_challenge : Option Bytes
  pub exit_code : Option ExitCode
  pub log_sink : Bool
  pub clipboard : Bool
  pub clipboard_enabled : Bool
  pub last_clipboard : Bytes
  pub username : Option Bytes
  pub password : Option Bytes
  pub mmap : Option MmapArea
  pub effects : List Effect

-- `XpraClient::new`
abbrev pub new : Option MmapArea → Session
new area = record {
  hello_sent = false;
  server_version = [];
  server_backwards_compatible = true;
  windows = [];
  modifiers = record { shift_key = false; control_key = false; alt_key = false };
  startup_complete = false;
  last_client_latency_ms = negsuc 0;
  current_cursor = none;
  monitors = [];
  desktop_size = none;
  pointer_grabbed = none;
  auth_dialog = false;
  pending_challenge = none;
  exit_code = none;
  log_sink = false;
  clipboard = false;
  clipboard_enabled = false;
  last_clipboard = [];
  username = none;
  password = none;
  mmap = area;
  effects = [];
}

-- What the outside answers while one event is handled: `send_packet` for `write_packet`, which fails
-- with a text, the clock, the system's random bytes, base64 and utf-8, the environment's variables, the
-- prompts, the calls of a window, and whether an image is taken.
pub record Env : Type 0 where
  pub send_packet : Json → Option Bytes
  pub elapsed_ms : ℤ
  pub secure_random_bytes : ℕ → Bytes
  pub base64 : Bytes → Option Bytes
  pub from_utf8_lossy : Bytes → Bytes
  pub platform : Bytes
  pub user_variable : Option Bytes
  pub username_variable : Option Bytes
  pub hostname : Option Bytes
  pub machine_uid : Bytes
  pub local_monitors : List MonitorInfo
  pub mmap_path : Bytes
  pub xpra_password : Option Bytes
  pub find_pinentry : Option Bytes
  pub dialog_opens : Bool
  pub decoder_runs : Bool
  pub creates_window : ℕ → Bool
  pub surface : ℕ → Surface
  pub current_monitor : ℕ → Option (ℤ × ℤ × ℕ × ℕ)
  pub grabs : ℕ → Grab → Bool
  pub has_focus : ℕ → Bool
  pub inner_size : ℕ → ℕ × ℕ
  pub get_geometry : ℕ → ℤ × ℤ × ℕ × ℕ
  pub decode_png_rgba : Bytes → Option (ℕ × ℕ × Bytes)
  pub is_cursor : Cursor → Bool
  pub is_icon : ℕ → ℕ → Bytes → Bool
