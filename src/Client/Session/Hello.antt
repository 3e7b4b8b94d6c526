-- ===== src/Client/Session/Hello.antt =====
-- src/client/client.rs: the hello that the client sends, and the server's.
use mathlib.Core.Option
use rust_xpra.Prelude.{
  ℕ, suc, ◌≡◌, refl, Bool, true, false, not, ◌&&◌, ◌||◌, Option, none, some, List, [], ◌∷◌, ◌++◌,
  if◌then◌else◌, Bytes, String, codes, is_empty, length, Result, ok, err,
}
use rust_xpra.Prelude.Decimal.{decimal}
use rust_xpra.Net.Packet
use rust_xpra.Net.Packet.{
  Yaml, no_items, item, Entries, string, hash, get, yaml_hash_bool, is_string,
}
use rust_xpra.Net.Digest.Hmac.{secure_hex}
use rust_xpra.Client.Json.{
  Json, object, field, Fields, no_fields, number, text, boolean, list, dict, str, nat,
}
use rust_xpra.Client.Mmap.{MmapArea, token_bytes, check_server_caps, MmapError}
use rust_xpra.Client.Monitors.{MonitorInfo}
use rust_xpra.Client.Session.{
  mmap_token_failure, started_clipboard, unlinked, Session, Env, Action, ◌>>=◌, ◌>>◌, pure, lift,
  gets, assign, match_option, emit, quit, when, write_json,
}

-- `if let Some(v) = o { caps[key] = f(v) }`
abbrev optional : {A : Type 0} → String → Option A → (A → Json) → List (String × Json)
optional key none f = []
optional key (some v) f = (key, f v) ∷ []

monitor_definition : MonitorInfo → Json
monitor_definition m = dict (
    ("geometry", list (number m.x ∷ number m.y ∷ nat m.width ∷ nat m.height ∷ []))
    ∷ ("primary", boolean m.primary)
    ∷ ((if is_empty m.name then [] else ("name", text m.name) ∷ [])
        ++ optional "refresh-rate" m.refresh_rate_millihertz nat))

-- The definitions of the monitors from the `index`th on.
monitor_fields : ℕ → List MonitorInfo → Fields
monitor_fields index [] = no_fields
monitor_fields index (m ∷ ms) =
    field (decimal 20 index) (monitor_definition m) (monitor_fields (suc index) ms)

monitors_entry : List MonitorInfo → List (String × Json)
monitors_entry [] = []
monitors_entry (m ∷ ms) = ("monitors", object (monitor_fields 0 (m ∷ ms))) ∷ []

display_caps : Session → Json
display_caps s = dict (
    ("show-desktop", boolean true)
    ∷ ("resize-events", boolean false)
    ∷ (optional "desktop_size" s.desktop_size (λ (d : ℕ × ℕ). list (nat d.0 ∷ nat d.1 ∷ []))
        ++ monitors_entry s.monitors))

abbrev encodings : List Json
encodings = str "jpeg" ∷ str "png" ∷ str "webp" ∷ []

encoding_caps : Session → Json
encoding_caps s = dict (
    ("window-icon", list (str "png" ∷ []))
    ∷ ("options", list encodings)
    ∷ ("core", list encodings)
    ∷ optional "rgb_formats" s.mmap (λ area. list (str "BGRX" ∷ [])))

-- `MmapArea::caps`
mmap_caps : Env → MmapArea → Json
mmap_caps env area = dict (
    ("file", text env.mmap_path)
    ∷ ("size", nat (length area.memory))
    ∷ ("token", nat area.token)
    ∷ ("token_index", nat area.token_index)
    ∷ ("token_bytes", nat token_bytes)
    ∷ [])

abbrev or_empty : Option Bytes → Bytes
or_empty o = Option.get_or o []

-- The name of the dialog, or else the environment's.
username_of : Env → Session → Bytes
username_of env s = elim s.username [
  | some name ↦ name
  | none ↦ elim env.username_variable [ some name ↦ name | none ↦ or_empty env.user_variable ]
]

-- What answers the challenge: the response, the client's salt, and padding.
pub reply_caps : Env → Option (Bytes × Bytes) → List (String × Json)
reply_caps env none = []
reply_caps env (some (response, client_salt)) =
    ("challenge_response", text response)
    ∷ ("challenge_client_salt", text client_salt)
    ∷ ("challenge_padding", text (secure_hex env.secure_random_bytes 64))
    ∷ []

-- What is said to every server, in the order of the source.
base_caps : Env → Session → List (String × Json)
base_caps env s =
    ("version", str "6.4")
    ∷ ("wants", list (str "packet-types" ∷ []))
    ∷ ("encoders", list (str "yaml" ∷ []))
    ∷ ("chunks", boolean true)
    ∷ ("compressors", list (str "lz4" ∷ []))
    ∷ ("compression_level", nat 1)
    ∷ ("windows", boolean true)
    ∷ ("keyboard", boolean true)
    ∷ ("mouse", boolean true)
    ∷ ("sharing", boolean true)
    ∷ ("bell", boolean true)
    ∷ ("display", display_caps s)
    ∷ ("digest", list (str "hmac+sha256" ∷ []))
    ∷ ("salt-digest", list (str "hmac+sha256" ∷ []))
    ∷ (
      "cursor",
      dict (("encodings", list (str "png" ∷ [])) ∷ ("backwards-compatible", boolean true) ∷ []),
    )
    ∷ ("cursors", boolean true)
    ∷ ("pointer", dict (("grabs", boolean true) ∷ []))
    ∷ (
      "metadata",
      dict (
          (
            "supported",
            list (
                str "title"
                ∷ str "size-constraints"
                ∷ str "fullscreen"
                ∷ str "maximized"
                ∷ str "iconic"
                ∷ str "decorations"
                ∷ str "above"
                ∷ str "below"
                ∷ []),
          )
          ∷ []),
    )
    ∷ ("notifications", dict (("enabled", boolean true) ∷ []))
    ∷ ("events", boolean true)
    ∷ (
      "clipboard",
      dict (
          ("enabled", boolean true)
          ∷ ("greedy", boolean true)
          ∷ ("want_targets", boolean true)
          ∷ ("selections", list (str "CLIPBOARD" ∷ []))
          ∷ ("preferred-targets", list (str "UTF8_STRING" ∷ str "STRING" ∷ str "text/plain" ∷ []))
          ∷ []),
    )
    ∷ ("ping", boolean true)
    ∷ ("encoding", encoding_caps s)
    ∷ ("client_type", str "rust")
    ∷ ("platform", text env.platform)
    ∷ ("user", text (or_empty env.user_variable))
    ∷ ("username", text (username_of env s))
    ∷ ("hostname", text (or_empty env.hostname))
    ∷ ("uuid", text env.machine_uid)
    ∷ []

pub hello_packet : Env → Session → Option (Bytes × Bytes) → Json
hello_packet env s reply = list (
    str "hello"
    ∷ dict (
        base_caps env s
        ++ (reply_caps env reply
            ++ optional "mmap" s.mmap (λ area. dict (("read", mmap_caps env area) ∷ []))))
    ∷ [])

-- The answer to a challenge is what the hello has besides.
pub hello_packet-some :
    (env : Env) (s : Session) (response client_salt : Bytes)
    → (before : List (String × Json)) × (after : List (String × Json)) × (hello_packet env s none
        ≡ list (str "hello" ∷ dict (before ++ after) ∷ []))
      × (hello_packet env s (some (response, client_salt))
          ≡ list (
              str "hello"
              ∷ dict (
                  before
                  ++ (("challenge_response", text response)
                      ∷ ("challenge_client_salt", text client_salt)
                      ∷ ("challenge_padding", text (secure_hex env.secure_random_bytes 64))
                      ∷ after))
              ∷ []))
unfolding hello_packet reply_caps
hello_packet-some env s response client_salt = (
  base_caps env s,
  optional "mmap" s.mmap (λ area. dict (("read", mmap_caps env area) ∷ [])),
  refl,
  refl,
)

unfoldable pub send_hello : Env → Option (Bytes × Bytes) → Action Unit
send_hello env reply = do packet ← gets (λ s. hello_packet env s reply); write_json env packet

-- `packet_types.iter().any(...)`
has_packet_type : Bytes → Packet.Items → Bool
has_packet_type name no_items = false
has_packet_type name (item y ys) = is_string name y || has_packet_type name ys

compatible_types : Option Yaml → Option Bool
compatible_types (some (Packet.array types)) =
    if has_packet_type (codes "window-ack") types
    then some (has_packet_type (codes "damage-sequence") types)
    else none
compatible_types _ = none

pub server_backwards_compatible : Yaml → Option Bool
server_backwards_compatible (hash es) = compatible_types (get es (codes "packet-types"))
server_backwards_compatible _ = none

pub is_hash : Option Yaml → Bool
is_hash (some (hash es)) = true
is_hash _ = false

-- `hash[&version_key]` panics where there is no version; a version that is no string changes nothing.
pub version_of : Option Yaml → Bytes → Option Bytes
version_of none old = none
version_of (some (string version)) old = some version
version_of (some _) old = some old

abbrev receives_logs : Option Yaml → Bool
receives_logs none = false
receives_logs (some rl) = Option.get_or (yaml_hash_bool rl (codes "receive")) false

unfoldable pub process_server_caps : Yaml → Action Unit
process_server_caps (hash es) = do
  old ← gets (λ s. s.server_version)
  version ← lift (version_of (get es (codes "version")) old)
  assign (λ s. record s {
    server_version = version;
    server_backwards_compatible =
        Option.get_or (server_backwards_compatible (hash es)) s.server_backwards_compatible;
    log_sink = receives_logs (get es (codes "remote-logging")) || s.log_sink;
  })
  running ← gets (λ s. s.clipboard)
  when (is_hash (get es (codes "clipboard")) && not running) (do
    emit started_clipboard
    assign (λ s. record s { clipboard = true; clipboard_enabled = true }))
process_server_caps _ = pure tt

-- The area is kept where the server's token stands in it.
unfoldable pub mmap_verified : Result MmapError Bool → Action Unit
mmap_verified (ok true) = pure tt
mmap_verified (ok false) = assign (λ s. record s { mmap = none })
mmap_verified (err e) = assign (λ s. record s { mmap = none }) >> quit mmap_token_failure

unfoldable pub process_mmap_caps : Yaml → Action Unit
process_mmap_caps hello = do
  mmap ← gets (λ s. s.mmap)
  match_option mmap (pure tt)
      (λ area. do emit unlinked; mmap_verified (check_server_caps area hello))

unfoldable pub process_hello : Yaml → Action Unit
process_hello hello = do process_mmap_caps hello; process_server_caps hello
