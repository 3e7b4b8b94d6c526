-- ===== src/Client/Session.antt =====
-- src/client/client.rs: what the handlers are made of, and the way a packet leaves the client,
-- without the parts that are compiled on Windows only. A handler is an `Action`, which panics with
-- `none`.
mod State
pub mod Later
pub mod Send
pub mod Hello
pub mod Challenge
pub mod Clipboard
pub mod Metadata
pub mod Windowing
pub mod Pings
pub mod Dispatch
pub mod Input
pub mod Handlers
pub mod Runs
pub mod Returns
pub mod Acks
pub mod Authentication
pub mod Selections
pub mod Grabs
pub mod Stacking
mod Tests
pub use State.*
use mathlib.Core.Option
use rust_xpra.Prelude.{
  ℕ, suc, leb, Bool, true, false, Option, none, some, List, [], ◌∷◌, ◌++◌, if◌then◌else◌, ◌==◌,
  Bytes, codes,
}
use rust_xpra.Prelude.Int.{ℤ, negsuc}
use rust_xpra.Net.Packet.{Packet, string, len, get_str}
use rust_xpra.Client.Json.{Json}
use rust_xpra.Client.Mmap.{MmapArea}
use rust_xpra.Client.Monitors.{MonitorInfo}

abbrev pub Action : Type 0 → Type 0
Action A = Session → Option (A × Session)

module _ {A B : Type 0} where
  abbrev pub continue : Option (A × Session) → (A → Action B) → Option (B × Session)
  continue none f = none
  continue (some (a, s)) f = f a s

  infixl 10 ◌>>=◌ ◌>>◌
  unfoldable pub ◌>>=◌ : Action A → (A → Action B) → Action B
  ◌>>=◌ m f s = continue (m s) f

  abbrev pub ◌>>◌ : Action A → Action B → Action B
  m >> n = m >>= λ _. n

module _ {A : Type 0} where
  pub pure : A → Action A
  pure a s = some (a, s)

  -- A call that may panic.
  pub lift : Option A → Action A
  lift none s = none
  lift (some a) s = some (a, s)

  pub gets : (Session → A) → Action A
  gets f s = some (f s, s)

module _ {A B : Type 0} where
  -- `match o { None => m, Some(a) => f(a) }`
  pub match_option : Option A → Action B → (A → Action B) → Action B
  match_option none m f = m
  match_option (some a) m f = f a

-- An assignment to fields other than the exit code and the effects.
unfoldable pub assign : (Session → Session) → Action Unit
assign f s = some (tt, record (f s) { exit_code = s.exit_code; effects = s.effects })

pub emit : Effect → Action Unit
emit e s = some (tt, record s { effects = s.effects ++ (e ∷ []) })

-- `client_packet`
abbrev pub client_packet : Bytes → Bytes → Packet
client_packet packet_type message = record {
  main = string packet_type ∷ string message ∷ [];
  raw = [];
  decode_time_us = none;
}

abbrev pub first : Option ExitCode → ExitCode → ExitCode
first none c = c
first (some c) d = c

unfoldable pub quit : ExitCode → Action Unit
quit c s =
    some (
      tt,
      record s { exit_code = some (first s.exit_code c); effects = s.effects ++ (exited ∷ []) },
    )

pub connection_lost_code : Session → ExitCode
connection_lost_code s = if s.startup_complete then connection_lost else connection_failed

-- The write, and what is done where it fails.
pub try_write : Option Bytes → Json → Session → Session
try_write none packet s = record s { effects = s.effects ++ (wrote packet ∷ []) }
try_write (some e) packet s = record s {
  exit_code = some (connection_lost_code s);
  effects = s.effects ++ (posted (client_packet (codes "connection-lost") e) ∷ []);
}

abbrev pub write_unless : Option ExitCode → Env → Json → Session → Session
write_unless (some c) env packet s = s
write_unless none env packet s = try_write (env.send_packet packet) packet s

pub write_json : Env → Json → Action Unit
write_json env packet s = some (tt, write_unless s.exit_code env packet s)

-- The map of the windows.
abbrev pub find_window : List (ℕ × XpraWindow) → ℕ → Option XpraWindow
find_window [] wid = none
find_window ((i, w) ∷ ws) wid = let rest = find_window ws wid in if i == wid then some w else rest

abbrev pub remove_window : List (ℕ × XpraWindow) → ℕ → List (ℕ × XpraWindow)
remove_window [] wid = []
remove_window ((i, w) ∷ ws) wid =
    let rest = remove_window ws wid in if i == wid then rest else (i, w) ∷ rest

abbrev pub insert_window : List (ℕ × XpraWindow) → ℕ → XpraWindow → List (ℕ × XpraWindow)
insert_window ws wid w = (wid, w) ∷ remove_window ws wid

-- The request to one window, and to each.
abbrev pub call : ℕ → Call → Action Unit
call wid c = emit (called wid c)

pub call_each : List (ℕ × XpraWindow) → Call → Action Unit
call_each [] c = pure tt
call_each ((wid, w) ∷ ws) c = call wid c >> call_each ws c

-- A block that is left early, or not.
abbrev pub when : Bool → Action Unit → Action Unit
when b m = if b then m else pure tt

-- A field that may be missing, and what stands for it then.
abbrev pub str_or : Packet → ℕ → Bytes → Option Bytes
str_or p i d = if leb (suc i) (len p) then get_str p i else some d
