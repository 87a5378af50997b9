-- ===== src/Date/Fields.antt =====
-- The fields of a date against the count of seconds, and the Sundays on which the clock changes.
use ece592_final_project.Base.{
  ℕ, zero, suc, ◌+◌, ◌-◌, ◌*◌, ◌/◌, ◌%◌, ◌≤◌, ◌<◌, ◌≡◌, arith, ◌&&◌, ◌==◌, if◌then◌else◌, modulus,
}
use ece592_final_project.Date.{
  isleap, secperdy, secperhr, secpermn, dt_msize, year_loop, month_loop, DateFields, standard_date,
  leap_day, march_sunday, november_sunday,
}

-- The days from 1970 to a year: 365 for each, and one for each leap year before it.
abbrev pub days_to_year : ℕ → ℕ
days_to_year year = 365 * (year - 1970) + (year - 1969) / 4

-- The days of a year before its month `m`.
abbrev pub days_to_month : ℕ → ℕ → ℕ
days_to_month year zero = 0
days_to_month year (suc m) =
    days_to_month year m + (if (m == 1) && isleap year then dt_msize m + 1 else dt_msize m)

-- The seconds from 1970 to a date.
abbrev pub seconds : DateFields → ℕ
seconds d =
    secperdy * (days_to_year d.year + days_to_month d.year d.month + (d.day - 1))
    + secperhr * d.hour
    + secpermn * d.minute
    + d.second

-- The loop keeps the instant, and stops within the year.
year_loop_lem :
    (fuel year now : ℕ)
    → 1970 ≤ year
    → now < fuel * 31536000
    → let (y, rest) = year_loop fuel year now in
      (year ≤ y)
      × (secperdy * days_to_year y + rest ≡ secperdy * days_to_year year + now)
      × (rest < secperdy * (365 + leap_day y))
unfolding year_loop
year_loop_lem zero year now from small = absurd (omega arith)
year_loop_lem (suc fuel) year now from small =
    ground
      (arith, year_loop_lem fuel (year + 1) (now - (if isleap year then 366 else 365) * secperdy))

month_loop_lem :
    (left year month now : ℕ)
    → month + left ≡ 12
    → secperdy * days_to_month year month + now < secperdy * days_to_month year 12
    → let (m, rest) = month_loop left year month now in
      (m < 12)
      × (secperdy * days_to_month year m + rest ≡ secperdy * days_to_month year month + now)
      × (rest < secperdy * (if (m == 1) && isleap year then dt_msize m + 1 else dt_msize m))
unfolding month_loop
month_loop_lem zero year month now e small = ground arith
month_loop_lem (suc left) year month now e small = ground (
  arith,
  month_loop_lem left year (suc month) (
      now
      - (if (month == 1) && isleap year then dt_msize month + 1 else dt_msize month) * secperdy),
)

-- The date that `ascdate` computes before daylight saving time denotes the instant that it is given:
-- the days of the years before, of the months before and of the month make up its seconds together
-- with the time of day. The month is one of 12, the day is one of the month's, the time is one of the
-- clock, and the day of the week counts from a Thursday on the first day of 1970.
pub standard_date_lem :
    (now : ℕ)
    → now < modulus
    → let d = standard_date now in
      (seconds d ≡ now)
      × (d.month < 12)
      × (1 ≤ d.day)
      × (d.day
          ≤ (if (d.month == 1) && isleap d.year then dt_msize d.month + 1 else dt_msize d.month))
      × (d.hour < 24)
      × (d.minute < 60)
      × (d.second < 60)
      × (d.dayofweek ≡ (4 + now / secperdy) % 7)
unfolding standard_date
standard_date_lem now word = ground (
  arith,
  year_loop_lem 137 1970 now,
  month_loop_lem 12 (year_loop 137 1970 now).0 0 (year_loop 137 1970 now).1,
)

-- For the day of the week of January 1, `march_sunday` is the second Sunday of March, and
-- `november_sunday` the first of November.
sundays_lem :
    (year jan1 : ℕ)
    → let s = march_sunday year jan1 in
      let n = november_sunday year jan1 in
      (8 ≤ s)
      × (s ≤ 14)
      × ((jan1 + days_to_month year 2 + (s - 1)) % 7 ≡ 0)
      × (1 ≤ n)
      × (n ≤ 7)
      × ((jan1 + days_to_month year 10 + (n - 1)) % 7 ≡ 0)
unfolding march_sunday november_sunday
sundays_lem year jan1 = ground arith
