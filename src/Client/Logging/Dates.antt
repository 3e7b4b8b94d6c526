-- ===== src/Client/Logging/Dates.antt =====
-- The dates.
use rust_xpra.Prelude.{
  ℕ, zero, suc, not, ◌&&◌, ◌||◌, ◌==◌, ◌+◌, ◌-◌, ◌*◌, ◌/◌, ◌%◌, ◌≤◌, ◌<◌, ◌≡◌, refl, arith, ltb,
  leb, Bool, Bool-cases, inl, inr, ltb→lt, ap, ◌∙◌, sym, ap₂, if◌then◌else◌,
}
use rust_xpra.Client.Logging.{
  year_of_era, day_of_year, month_from_march, day_of_month, calendar_month, civil_from_days,
  div_euclid, rem_euclid,
}
use rust_xpra.Prelude.Int.{pos, ◌+ℤ◌, ◌*ℤ◌}

year_of_era_bound : (doe : ℕ) → doe < 146097 → year_of_era doe < 400
unfolding year_of_era
year_of_era_bound doe h = omega arith

starts_before :
    (doe : ℕ)
    → doe < 146097
    → 365 * year_of_era doe + year_of_era doe / 4 - year_of_era doe / 100 ≤ doe
unfolding year_of_era
starts_before doe h = omega arith

ends_after : (doe : ℕ) → doe < 146097 → day_of_year doe ≤ 365
unfolding year_of_era day_of_year
ends_after doe h = omega arith

-- The length of the year that begins on March 1st of the era's year `y`, less one: a leap day ends it
-- when the next calendar year is a leap year.
abbrev pub is_leap : ℕ → Bool
is_leap y = (y % 4 == 0) && (not (y % 100 == 0) || (y % 400 == 0))

abbrev pub last_day : ℕ → ℕ
last_day y = if is_leap (y + 1) then 365 else 364

abbrev start : ℕ → ℕ
start y = 365 * y + y / 4 - y / 100

last_day_lem : (y : ℕ) → y < 399 → start y + last_day y + 1 ≡ start (y + 1)
last_day_lem y h = ground arith

within : (doe : ℕ) → doe < 146097 → day_of_year doe ≤ last_day (year_of_era doe)
unfolding year_of_era day_of_year
within doe h = ground arith

unique :
    (y e d : ℕ)
    → y < 400
    → e < 400
    → start y ≤ d
    → d ≤ start y + last_day y
    → start e ≤ d
    → d ≤ start e + last_day e
    → y ≡ e
unique y e d a b c f g h = ground arith

-- The calendar.
-- January has 31 days, and the others alternate with it but for July and August.
abbrev pub month_end : ℕ → ℕ → ℕ
month_end y month =
    let february = 28 + (if is_leap y then 1 else 0) in
    if month == 2 then february else 30 + (month + month / 8) % 2

abbrev pub next_day : ℕ × ℕ × ℕ → ℕ × ℕ × ℕ
next_day (y, m, d) =
    if ltb d (month_end y m)
    then (y, m, d + 1)
    else if ltb m 12
    then (y, m + 1, 1)
    else (y + 1, 1, 1)

-- The date of a day of the year that begins on March 1st of the year `base`.
date : ℕ → ℕ → ℕ × ℕ × ℕ
date base doy =
    let month = calendar_month (month_from_march doy) in
    (base + (if leb month 2 then 1 else 0), month, day_of_month doy)

date_next : (base doy : ℕ) → doy < last_day base → date base (doy + 1) ≡ next_day (date base doy)
unfolding date month_from_march day_of_month calendar_month
date_next base doy h = ground arith steps 40000000

date_turn : (base : ℕ) → date (base + 1) 0 ≡ next_day (date base (last_day base))
unfolding date month_from_march day_of_month calendar_month
date_turn base = ground arith

before_last : (y doe : ℕ) → y < 400 → doe + 1 < 146097 → start y + last_day y ≤ doe → y < 399
before_last y doe a b c = ground arith

-- The days from March 1st of the year 0 on.
base_of : ℕ → ℕ
base_of z = year_of_era (z % 146097) + z / 146097 * 400

last_day_period : (y k : ℕ) → last_day (y + k * 400) ≡ last_day y
last_day_period y k = ground arith

split : (doe : ℕ) → doe < 146097 → start (year_of_era doe) + day_of_year doe ≡ doe
unfolding day_of_year
split doe h = omega (arith, starts_before doe h)

same_year :
    (doe : ℕ)
    → doe + 1 < 146097
    → day_of_year doe < last_day (year_of_era doe)
    → (year_of_era (doe + 1) ≡ year_of_era doe) × (day_of_year (doe + 1) ≡ day_of_year doe + 1)
same_year doe h l =
    let a = split doe (omega arith) in
    let b = split (doe + 1) h in
    let y =
      unique (year_of_era (doe + 1)) (year_of_era doe) (doe + 1) (year_of_era_bound (doe + 1) h)
        (year_of_era_bound doe (omega arith)) (omega (arith, b))
        (omega (arith, b, within (doe + 1) h)) (omega (arith, a)) (omega (arith, a, l)) in
    (y, omega (arith, a, b, y, ap start y))

next_year :
    (doe : ℕ)
    → doe + 1 < 146097
    → last_day (year_of_era doe) ≤ day_of_year doe
    → (year_of_era (doe + 1) ≡ year_of_era doe + 1) × (day_of_year (doe + 1) ≡ 0)
next_year doe h l =
    let a = split doe (omega arith) in
    let b = split (doe + 1) h in
    let few : year_of_era doe < 399 =
      before_last (year_of_era doe) doe (year_of_era_bound doe (omega arith)) h
        (omega (arith, a, l)) in
    let starts = last_day_lem (year_of_era doe) few in
    let y =
      unique (year_of_era (doe + 1)) (year_of_era doe + 1) (doe + 1) (year_of_era_bound (doe + 1) h)
        (omega (arith, few)) (omega (arith, b)) (omega (arith, b, within (doe + 1) h))
        (omega (arith, a, starts, within doe (omega arith)))
        (omega (arith, a, starts, l, within doe (omega arith))) in
    (y, omega (arith, a, b, ap start y, starts, l, within doe (omega arith)))

-- The date of a day, by the day of the era and the number of the era.
date_of : ℕ → ℕ × ℕ × ℕ
date_of z = date (base_of z) (day_of_year (z % 146097))

next_of_era :
    (doe k : ℕ)
    → doe + 1 < 146097
    → date (year_of_era (doe + 1) + k * 400) (day_of_year (doe + 1))
      ≡ next_day (date (year_of_era doe + k * 400) (day_of_year doe))
next_of_era doe k h = elim (Bool-cases (ltb (day_of_year doe) (last_day (year_of_era doe)))) [
  | inl l ↦
      let (y, d) = same_year doe h (ltb→lt _ _ l) in
      rw (y, d)
        (date_next (year_of_era doe + k * 400) (day_of_year doe)
          (rw (last_day_period (year_of_era doe) k) (ltb→lt _ _ l)))
  | inr l ↦
      let ge : last_day (year_of_era doe) ≤ day_of_year doe = ground (arith, l) in
      let (y, d) = next_year doe h ge in
      let last : day_of_year doe ≡ last_day (year_of_era doe) =
        omega (arith, ge, within doe (omega arith)) in
      let turn : day_of_year doe ≡ last_day (year_of_era doe + k * 400) =
        last ∙ sym (last_day_period (year_of_era doe) k) in
      ap₂ (λ a b. date (a + k * 400) b) y d
      ∙ ap (λ a. date a 0) (turned (year_of_era doe) k)
      ∙ date_turn (year_of_era doe + k * 400)
      ∙ ap (λ b. next_day (date (year_of_era doe + k * 400) b)) (sym turn)
]
  where
    turned : (y k : ℕ) → y + 1 + k * 400 ≡ y + k * 400 + 1
    turned y k = omega arith

next_era :
    (k : ℕ)
    → date (year_of_era 0 + suc k * 400) (day_of_year 0)
      ≡ next_day (date (year_of_era 146096 + k * 400) (day_of_year 146096))
unfolding year_of_era day_of_year
next_era k =
    ap (λ a. date a 0) (turned k)
    ∙ date_turn (399 + k * 400)
    ∙ ap (λ b. next_day (date (399 + k * 400) b)) (last_day_period 399 k)
  where
    turned : (k : ℕ) → 0 + suc k * 400 ≡ 399 + k * 400 + 1
    turned k = omega arith

date_of-next : (z : ℕ) → date_of (z + 1) ≡ next_day (date_of z)
unfolding date_of base_of
date_of-next z = elim (Bool-cases (ltb (z % 146097 + 1) 146097)) [
  | inl l ↦
      let r : (z + 1) % 146097 ≡ z % 146097 + 1 = ground (arith, l) in
      let q : (z + 1) / 146097 ≡ z / 146097 = ground (arith, l) in
      rw (r, q) (next_of_era (z % 146097) (z / 146097) (ltb→lt _ _ l))
  | inr l ↦
      let e : z % 146097 ≡ 146096 = ground (arith, l) in
      let r : (z + 1) % 146097 ≡ 0 = ground (arith, l) in
      let q : (z + 1) / 146097 ≡ suc (z / 146097) = ground (arith, l) in
      rw (r, q, e) (next_era (z / 146097))
]

-- The days of the calendar from January 1st, 1970, on.
abbrev pub calendar_day : ℕ → ℕ × ℕ × ℕ
calendar_day zero = (1970, 1, 1)
calendar_day (suc n) = next_day (calendar_day n)

epoch : date_of 719468 ≡ (1970, 1, 1)
unfolding date_of base_of date month_from_march day_of_month calendar_month year_of_era day_of_year
epoch = refl

date_of-calendar_day : (n : ℕ) → date_of (n + 719468) ≡ calendar_day n
date_of-calendar_day zero = epoch
date_of-calendar_day (suc n) =
    ap date_of (later n) ∙ date_of-next (n + 719468) ∙ ap next_day (date_of-calendar_day n)
  where
    later : (n : ℕ) → suc n + 719468 ≡ n + 719468 + 1
    later n = omega arith

pos_sum : (a b : ℕ) → pos a +ℤ pos b ≡ pos (a + b)
unfolding ◌+ℤ◌
pos_sum a b = ground arith

pos_product : (a b : ℕ) → pos a *ℤ pos b ≡ pos (a * b)
unfolding ◌*ℤ◌
pos_product a b = ground arith

civil_from_days-date_of :
    (n : ℕ)
    → civil_from_days (pos n)
      ≡ (pos (date_of (n + 719468)).0, (date_of (n + 719468)).1, (date_of (n + 719468)).2)
unfolding civil_from_days date_of base_of date div_euclid rem_euclid
civil_from_days-date_of n =
    let z = n + 719468 in
    let year = year_of_era (z % 146097) in
    let month = calendar_month (month_from_march (day_of_year (z % 146097))) in
    rw
      (
        pos_sum n 719468,
        pos_product (z / 146097) 400,
        pos_sum year (z / 146097 * 400),
        pos_sum (year + z / 146097 * 400) (if leb month 2 then 1 else 0),
      )
      refl

-- The date of a day is the one that stands on the calendar so many days behind January 1st, 1970.
pub civil_from_days-calendar_day :
    (n : ℕ)
    → civil_from_days (pos n) ≡ (pos (calendar_day n).0, (calendar_day n).1, (calendar_day n).2)
civil_from_days-calendar_day n =
    civil_from_days-date_of n ∙ ap (λ (c : ℕ × ℕ × ℕ). (pos c.0, c.1, c.2)) (date_of-calendar_day n)
