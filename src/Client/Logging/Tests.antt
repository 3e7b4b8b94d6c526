-- ===== src/Client/Logging/Tests.antt =====
-- The tests of remote_logging.rs.
use rust_xpra.Prelude.{◌≡◌, refl, codes}
use rust_xpra.Prelude.Int.{pos, negsuc, ◌+ℤ◌, ◌*ℤ◌}
use rust_xpra.Prelude.Decimal.{decimal}
use rust_xpra.Client.Logging.{
  civil_from_days, div_euclid, rem_euclid, year_of_era, day_of_year, month_from_march, day_of_month,
  calendar_month, timestamp, padded, signed_padded,
}
use rust_xpra.Client.Logging.Dates.{calendar_day, civil_from_days-calendar_day}

civil_from_days_vectors :
    (civil_from_days (pos 0) ≡ (pos 1970, 1, 1))
    × (civil_from_days (pos 20664) ≡ (pos 2026, 7, 30))
    × (civil_from_days (negsuc 0) ≡ (pos 1969, 12, 31))
    × (civil_from_days (pos 19782) ≡ (pos 2024, 2, 29))
    × (civil_from_days (pos 11016) ≡ (pos 2000, 2, 29))
    × (civil_from_days (negsuc 25507) ≡ (pos 1900, 3, 1))
    × (civil_from_days (pos 47541) ≡ (pos 2100, 3, 1))
unfolding civil_from_days div_euclid rem_euclid year_of_era day_of_year month_from_march
    day_of_month calendar_month ◌+ℤ◌ ◌*ℤ◌
civil_from_days_vectors = (refl, refl, refl, refl, refl, refl, refl)

printed : timestamp 1785389355 61 ≡ codes "2026-07-30T05:29:15.061Z"
unfolding timestamp padded signed_padded decimal civil_from_days div_euclid rem_euclid year_of_era
    day_of_year month_from_march day_of_month calendar_month ◌+ℤ◌ ◌*ℤ◌
printed = refl

civil_from_days-calendar_day_example :
    civil_from_days (pos 59) ≡ (pos (calendar_day 59).0, (calendar_day 59).1, (calendar_day 59).2)
civil_from_days-calendar_day_example = civil_from_days-calendar_day 59
