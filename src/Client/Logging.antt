-- ===== src/Client/Logging.antt =====
-- src/client/remote_logging.rs: the date of a log line, and the records that are forwarded to the
-- server.
pub mod Dates
mod Tests
use rust_xpra.Prelude.{
  ℕ, suc, ◌+◌, ◌-◌, ◌*◌, ◌/◌, ◌%◌, Bool, true, false, not, ◌&&◌, Option, none, some, List, [], ◌∷◌,
  ◌++◌, if◌then◌else◌, leb, ltb, Bytes, codes, length, replicate,
}
use rust_xpra.Prelude.Int.{ℤ, pos, negsuc, ◌+ℤ◌, ◌*ℤ◌, sub_ℕ}
use rust_xpra.Prelude.Decimal.{decimal}
use rust_xpra.Net.Packet.{Packet, Yaml, string, integer}

-- `a.div_euclid(m)` and `a.rem_euclid(m)`
pub div_euclid : ℤ → ℕ → ℤ
div_euclid (pos n) m = pos (n / m)
div_euclid (negsuc n) m = negsuc (n / m)

pub rem_euclid : ℤ → ℕ → ℕ
rem_euclid (pos n) m = n % m
rem_euclid (negsuc n) m = m - 1 - n % m

-- Of a day of the era: the year of the era, and the day of the year that begins on March 1st.
pub year_of_era : ℕ → ℕ
year_of_era doe = (doe - doe / 1460 + doe / 36524 - doe / 146096) / 365

pub day_of_year : ℕ → ℕ
day_of_year doe = let yoe = year_of_era doe in doe - (365 * yoe + yoe / 4 - yoe / 100)

-- The month from March on, and the day of the month.
pub month_from_march : ℕ → ℕ
month_from_march doy = (5 * doy + 2) / 153

pub day_of_month : ℕ → ℕ
day_of_month doy = doy - (153 * month_from_march doy + 2) / 5 + 1

pub calendar_month : ℕ → ℕ
calendar_month mp = if ltb mp 10 then mp + 3 else mp - 9

pub civil_from_days : ℤ → ℤ × ℕ × ℕ
civil_from_days days =
    let z = days +ℤ pos 719468 in
    let doe = rem_euclid z 146097 in
    let doy = day_of_year doe in
    let month = calendar_month (month_from_march doy) in
    (
      pos (year_of_era doe) +ℤ div_euclid z 146097 *ℤ pos 400 +ℤ pos (if leb month 2 then 1 else 0),
      month,
      day_of_month doy,
    )

-- `{n:0width$}`
pub padded : ℕ → ℕ → Bytes
padded width n = let digits = decimal 20 n in replicate (width - length digits) b'0' ++ digits

pub signed_padded : ℕ → ℤ → Bytes
signed_padded width (pos n) = padded width n
signed_padded width (negsuc n) = b'-' ∷ padded (width - 1) (suc n)

-- The time since the epoch, in seconds and milliseconds.
pub timestamp : ℕ → ℕ → Bytes
timestamp secs subsec_millis =
    let (year, month, day) = civil_from_days (div_euclid (pos secs) 86400) in
    let tod = rem_euclid (pos secs) 86400 in
    signed_padded 4 year
    ++ (b'-' ∷ padded 2 month)
    ++ (b'-' ∷ padded 2 day)
    ++ (b'T' ∷ padded 2 (tod / 3600))
    ++ (b':' ∷ padded 2 (tod % 3600 / 60))
    ++ (b':' ∷ padded 2 (tod % 60))
    ++ (b'.' ∷ padded 3 subsec_millis)
    ++ codes "Z"

pub data LogLevel : Type 0 where
  error_level warn_level info_level debug_level trace_level : LogLevel

pub python_level : LogLevel → ℤ
python_level error_level = pos 40
python_level warn_level = pos 30
python_level info_level = pos 20
python_level debug_level = pos 10
python_level trace_level = pos 5

pub log_packet : LogLevel → Bytes → Packet
log_packet level message = record {
  main = string (codes "send-log") ∷ integer (python_level level) ∷ string message ∷ [];
  raw = [];
  decode_time_us = none;
}

-- `record.level() > FORWARD_LEVEL`
abbrev pub is_above : LogLevel → Bool
is_above debug_level = true
is_above trace_level = true
is_above _ = false

-- What a record posts, if the sink is filled in and the thread is not forwarding, and whether the
-- thread is forwarding afterwards.
pub forward : (sink in_forward : Bool) → LogLevel → Bytes → Option Packet × Bool
forward sink in_forward level message =
    if is_above level
    then (none, in_forward)
    else if not sink
    then (none, in_forward)
    else if in_forward
    then (none, true)
    else (some (log_packet level message), false)
