-- ===== src/Date.antt =====
-- The date of system/ascdate.c: from the seconds since 1970 to the fields that `ascdate` prints. The
-- numbers stay far below 2 ^ 31, so that they are not cut to words. `sprintf` and the names of days,
-- months and zones are left out: `ascdate` gives the numbers that it hands to `sprintf`.
pub mod Fields
use ece592_final_project.Base.{
  ℕ, zero, suc, ◌+◌, ◌-◌, ◌*◌, ◌/◌, ◌%◌, Bool, true, false, not, ◌&&◌, ◌||◌, ◌==◌, ltb, leb,
  if◌then◌else◌,
}

abbrev pub isleap : ℕ → Bool
isleap x = x % 4 == 0

abbrev pub secperdy : ℕ
secperdy = 86400

abbrev pub secperhr : ℕ
secperhr = 3600

abbrev pub secpermn : ℕ
secpermn = 60

-- `Date.dt_msize`
abbrev pub dt_msize : ℕ → ℕ
dt_msize m = if m == 1 then 28 else if (m == 3) || (m == 5) || (m == 8) || (m == 10) then 30 else 31

-- The loop over the years from 1970 on: the year, and the seconds left in it.
unfoldable pub year_loop : ℕ → ℕ → ℕ → ℕ × ℕ
year_loop zero year now = (year, now)
year_loop (suc fuel) year now =
    let tmp = (if isleap year then 366 else 365) * secperdy in
    let rest = year_loop fuel (year + 1) (now - tmp) in if ltb now tmp then (year, now) else rest

-- The loop over the months.
unfoldable pub month_loop : ℕ → ℕ → ℕ → ℕ → ℕ × ℕ
month_loop zero year month now = (month, now)
month_loop (suc left) year month now =
    let tmp =
      (if (month == 1) && isleap year then dt_msize month + 1 else dt_msize month) * secperdy in
    let rest = month_loop left year (suc month) (now - tmp) in
    if ltb now tmp then (month, now) else rest

pub record DateFields : Type 0 where
  pub year : ℕ
  pub month : ℕ
  pub day : ℕ
  pub hour : ℕ
  pub minute : ℕ
  pub second : ℕ
  pub jan1 : ℕ
  pub dayofweek : ℕ
  pub dst : Bool

-- What `ascdate` computes before daylight saving time. 137 years are more than 2 ^ 32 seconds.
unfoldable pub standard_date : ℕ → DateFields
standard_date now =
    let (year, in_year) = year_loop 137 1970 now in
    let days = in_year / secperdy in
    let (month, in_month) = month_loop 12 year 0 in_year in
    let in_day = in_month % secperdy in
    let in_hour = in_day % secperhr in
    let leapyrs = (year - 1969) / 4 in
    let shift = 4 + (year - 1970) + leapyrs in
    record {
      year = year;
      month = month;
      day = in_month / secperdy + 1;
      hour = in_day / secperhr;
      minute = in_hour / secpermn;
      second = in_hour % secpermn;
      jan1 = shift % 7;
      dayofweek = (shift + days) % 7;
      dst = false;
    }

abbrev pub leap_day : ℕ → ℕ
leap_day year = if isleap year then 1 else 0

-- The second Sunday of March.
unfoldable pub march_sunday : ℕ → ℕ → ℕ
march_sunday year jan1 =
    let mar1 = (jan1 + dt_msize 0 + dt_msize 1 + leap_day year) % 7 in
    if mar1 == 0 then 8 else 15 - mar1

-- The sum of the first `n` months.
abbrev pub month_days : ℕ → ℕ
month_days zero = 0
month_days (suc n) = month_days n + dt_msize n

-- The first Sunday of November.
unfoldable pub november_sunday : ℕ → ℕ → ℕ
november_sunday year jan1 =
    let nov1 = (jan1 + month_days 10 + leap_day year) % 7 in if nov1 == 0 then 1 else 8 - nov1

-- DATE_DST_AUTO
unfoldable pub auto_dst : DateFields → Bool
auto_dst d =
    let marss = march_sunday d.year d.jan1 in
    let novfs = november_sunday d.year d.jan1 in
    if (d.month == 11) || (d.month == 0) || (d.month == 1)
    then false
    else if ltb 2 d.month && ltb d.month 10
    then true
    else if d.month == 2
    then ltb marss d.day || ((d.day == marss) && leb 2 d.hour)
    else if d.month == 10
    then not (ltb novfs d.day) && not ((d.day == novfs) && leb 1 d.hour)
    else false

-- `Date.dt_daylight`
pub data Daylight : Type 0 where
  dst_off dst_on dst_auto : Daylight

abbrev pub use_dst : Daylight → DateFields → Bool
use_dst Daylight.dst_off d = false
use_dst Daylight.dst_on d = true
use_dst Daylight.dst_auto d = auto_dst d

-- One hour ahead, into the next day and the next month.
unfoldable pub add_hour : DateFields → DateFields
add_hour d =
    if ltb 23 (d.hour + 1)
    then if ltb (dt_msize d.month) (d.day + 1)
      then record d { hour = 0; day = 1; month = d.month + 1; dst = true }
      else record d { hour = 0; day = d.day + 1; dst = true }
    else record d { hour = d.hour + 1; dst = true }

unfoldable pub ascdate : Daylight → ℕ → DateFields
ascdate daylight now = let d = standard_date now in if use_dst daylight d then add_hour d else d
