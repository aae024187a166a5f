-- ===== src/Time/Rtc.antt =====
-- src/kernel/time/rtc.c: the clock registers, and dates against seconds since 1970.
pub mod Convert
pub mod Registers
mod Examples
use hvos.Common.{
  ℕ, zero, suc, ◌+◌, ◌-◌, ◌*◌, ◌/◌, ◌%◌, ◌^◌, ◌≤◌, ◌<◌, bit_and, bit_or, ◌≡◌, refl, sym, ap, subst,
  ◌∙◌, ◌≢◌, ◌↔◌, ◌⊎◌, inl, inr, Bool, true, false, not, ◌&&◌, ◌||◌, Option, none, some, List, [],
  ◌∷◌, ◌++◌, map, arith, ltb, leb, ◌==◌, if◌then◌else◌, Bool-cases, Option-cases, ltb→lt, lt→ltb,
  le→ltb, ==→eq, ==-ne, ==_refl, u8, u16, u32, u64, sub64, ◌<<<◌, ◌>>>◌, length, replicate, take,
  drop, get_elem?, get_or, set, All, length-set, get_or-set_self, get_or-set_ne, length-append,
  length-replicate, All-replicate, get_or-replicate, All-set, All-get_or,
}
use hvos.Common.Loops.{each_from, each_from-keeps}

-- `datetime_t`; every field is a byte.
pub record Datetime : Type 0 where
  pub century : ℕ
  pub year : ℕ
  pub month : ℕ
  pub day : ℕ
  pub hour : ℕ
  pub minute : ℕ
  pub second : ℕ

abbrev pub seconds_per_day : ℕ
seconds_per_day = 86400

abbrev pub days_to_1970 : ℕ
days_to_1970 = 719468

-- The days of the years before `full_year`, from `365 * full_year` on, modulo 2 ^ 64. In January
-- and February one is taken off the year; of year 0 that leaves -1, whose quotients by 4, 100 and
-- 400 are 0 in C.
pub year_days : Bool → ℕ → ℕ
year_days early full_year =
    if early && full_year == 0
    then 2 ^ 64 - 365
    else let y : ℕ = if early then full_year - 1 else full_year in
      365 * y + y / 4 + y / 400 - y / 100

-- March is month 0.
pub month_from_march : Bool → ℕ → ℕ
month_from_march early month = if early then month + 12 - 3 else month - 3

-- A day number before 1970 wraps round, as the multiplication is on unsigned numbers.
pub dttots : Datetime → ℕ
dttots dt =
    let early = leb dt.month 2 in
    let days_since_zero =
      dt.day
      + (153 * month_from_march early dt.month + 2) / 5
      + year_days early (dt.century * 100 + dt.year) in
    let epoch_days = days_since_zero + 2 ^ 64 - days_to_1970 in
    u64 (epoch_days * seconds_per_day + dt.hour * 3600 + dt.minute * 60 + dt.second)

-- The year of day `doe` of 400 years, and the day of that year, which begins in March.
pub yoe_of : ℕ → ℕ
yoe_of doe = (doe - doe / 1460 + doe / 36524 - doe / 146096) / 365

pub doy_of : ℕ → ℕ → ℕ
doy_of doe yoe = doe - (365 * yoe + yoe / 4 - yoe / 100)

pub civil : ℕ → ℕ → ℕ → ℕ → ℕ → Datetime
civil full_year doy hour minute second =
    let mp = (5 * doy + 2) / 153 in
    let month : ℕ = if ltb mp 10 then mp + 3 else mp - 9 in
    let y : ℕ = if leb month 2 then full_year + 1 else full_year in
    record {
      century = u8 (y / 100);
      year = y % 100;
      month = month;
      day = u8 (doy - (153 * mp + 2) / 5 + 1);
      hour = hour;
      minute = minute;
      second = second;
    }

pub tstodt : ℕ → Datetime
tstodt ts =
    let z = ts / seconds_per_day + days_to_1970 in
    let doe = z % 146097 in
    let remainder = ts % seconds_per_day in
    civil (yoe_of doe + z / 146097 * 400) (doy_of doe (yoe_of doe)) (remainder / 3600)
      (remainder % 3600 / 60) (remainder % 3600 % 60)
