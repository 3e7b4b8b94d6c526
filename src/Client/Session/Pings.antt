-- ===== src/Client/Session/Pings.antt =====
-- The handlers of pings, acknowledgements and goodbyes (src/client/client.rs).
use mathlib.Core.Option
use rust_xpra.Prelude.{
  ℕ, zero, suc, ◌-◌, ◌^◌, Bool, true, false, not, ◌&&◌, ◌||◌, Option, none, some, List, [], ◌∷◌,
  if◌then◌else◌, Bytes, codes, bytes_eq, is_empty, starts_with,
}
use rust_xpra.Prelude.Int.{pos, negsuc, ◌-ℤ◌, leb_ℤ, to_signed, to_unsigned}
use rust_xpra.Net.Packet.{Packet, len, get_u32, get_i32, get_u64, get_i64, get_str, get_bytes}
use rust_xpra.Client.Painting.{paint_pixels}
use rust_xpra.Client.Session.{
  ExitCode, ok_code, failure, connection_failed, packet_failure, authentication_failed, Env, Action,
  ◌>>=◌, ◌>>◌, pure, lift, gets, assign, call, paint, find_window, match_option, str_or, when, quit,
  connection_lost_code,
}
use rust_xpra.Client.Session.Send.{send_draw_ack, send_ping_echo}

-- `s.contains(p)`
abbrev contains_text : Bytes → Bytes → Bool
contains_text p [] = is_empty p
contains_text p (c ∷ s) = starts_with (c ∷ s) p || contains_text p s

pub disconnect_is_an_error : Bytes → Bool
disconnect_is_an_error reason =
    contains_text (codes "error") reason
    || contains_text (codes "timeout") reason && not (bytes_eq reason (codes "idle timeout"))

-- `(i..packet.len()).map(|i| packet.get_str(i))` for `n` fields
pub info_from : ℕ → ℕ → Packet → Option (List Bytes)
info_from zero i p = some []
info_from (suc n) i p =
    Option.bind (get_str p i) λ t. Option.map (λ ts. t ∷ ts) (info_from n (suc i) p)

abbrev pub any_is : Bytes → List Bytes → Bool
any_is t [] = false
any_is t (i ∷ info) = bytes_eq i t || any_is t info

abbrev pub reason_of : List Bytes → Bytes
reason_of [] = []
reason_of (reason ∷ info) = reason

pub disconnect_code : Bool → List Bytes → ExitCode
disconnect_code startup_complete info =
    if any_is (codes "authentication failed") info
    then authentication_failed
    else if disconnect_is_an_error (reason_of info)
    then if startup_complete then failure else connection_failed
    else ok_code

unfoldable pub process_disconnect : Packet → Action Unit
process_disconnect p = do
  info ← lift (info_from (len p - 1) 1 p)
  up ← gets (λ s. s.startup_complete)
  quit (disconnect_code up info)

-- `is_some()`
abbrev is_there : Option ExitCode → Bool
is_there none = false
is_there (some c) = true

-- The code that ends a session on a packet that is none.
unfoldable pub process_invalid_packet : Packet → Action Unit
process_invalid_packet p = do
  message ← lift (get_str p 1)
  up ← gets (λ s. s.startup_complete)
  quit (if up then packet_failure else connection_failed)

-- The message is looked at by the first that hears of the loss.
unfoldable pub process_connection_lost : Packet → Action Unit
process_connection_lost p = do
  over ← gets (λ s. is_there s.exit_code)
  when (not over) (do message ← lift (get_str p 1); pure tt)
  code ← gets connection_lost_code
  quit code

module _ (env : Env) where
  unfoldable pub process_draw_decoded : Packet → Action Unit
  process_draw_decoded p = do
    wid ← lift (get_u64 p 1)
    x ← lift (get_i32 p 2)
    y ← lift (get_i32 p 3)
    w ← lift (get_u32 p 4)
    h ← lift (get_u32 p 5)
    coding ← lift (get_str p 6)
    (pixels, p') ← lift (get_bytes env.base64 p 7)
    seq ← lift (get_u64 p' 8)
    windows ← gets (λ s. s.windows)
    match_option (find_window windows wid)
        (send_draw_ack env seq wid w h (negsuc 0) (codes "window not found!"))
        (λ window. do
          when (not (is_empty pixels)) (do
            lift (paint_pixels (env.surface wid) x y w h coding pixels)
            call wid (paint seq x y w h coding pixels))
          send_draw_ack env seq wid w h (Option.get_or p'.decode_time_us (pos 0)) [])

  unfoldable pub process_draw_failed : Packet → Action Unit
  process_draw_failed p = do
    wid ← lift (get_u64 p 1)
    w ← lift (get_u32 p 4)
    h ← lift (get_u32 p 5)
    message ← lift (get_str p 7)
    seq ← lift (get_u64 p 8)
    send_draw_ack env seq wid w h (negsuc 0) message

  unfoldable pub process_ping : Packet → Action Unit
  process_ping p = do
    echotime ← lift (get_u64 p 1)
    sid ← lift (str_or p 3 [])
    send_ping_echo env echotime sid

  unfoldable pub process_ping_echo : Packet → Action Unit
  process_ping_echo p = do
    echoedtime ← lift (get_i64 p 1)
    let rtt = to_signed (2 ^ 63) (to_unsigned (2 ^ 64) (env.elapsed_ms -ℤ echoedtime))
    when (leb_ℤ (pos 0) rtt) (assign (λ s. record s { last_client_latency_ms = rtt }))
