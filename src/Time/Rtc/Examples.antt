-- ===== src/Time/Rtc/Examples.antt =====
-- The clock at some dates.
use hvos.Common.{
  listed, [], ◌∷◌, false, ℕ, ◌+◌, ◌/◌, ◌%◌, ◌≡◌, refl, false, arith, ◌==◌, if◌then◌else◌,
}
use hvos.Time.Rtc.{Datetime, seconds_per_day, dttots, tstodt, civil, yoe_of, doy_of}
use hvos.Time.Rtc.Convert.{dttots-tstodt}
use hvos.Time.Rtc.Registers.{
  Registers, Shows, rtc_read_datetime, rtc_write_datetime, get_weekday_from_date, is_leap_year,
  rtc_read-rtc_write, weekday-dttots,
}

-- 29 February 2024, 12:30:45.
abbrev leap_day : Datetime
leap_day = record {
  century = 20;
  year = 24;
  month = 2;
  day = 29;
  hour = 12;
  minute = 30;
  second = 45;
}

-- The same in binary coded decimal.
abbrev leap_day_registers : Registers
leap_day_registers i =
    if i == 0x00
    then 0x45
    else if i == 0x02
    then 0x30
    else if i == 0x04
    then 0x12
    else if i == 0x07
    then 0x29
    else if i == 0x08
    then 0x02
    else if i == 0x09
    then 0x24
    else if i == 0x0B
    then 0x02
    else 0

tstodt-leap_day : tstodt 1709209845 ≡ leap_day
unfolding tstodt civil yoe_of doy_of
tstodt-leap_day = refl

-- A Thursday.
weekday-leap_day : (get_weekday_from_date leap_day).0 ≡ 4
unfolding get_weekday_from_date is_leap_year
weekday-leap_day = refl

dttots-tstodt_example : dttots (tstodt 1709209845) ≡ 1709209845 + seconds_per_day
dttots-tstodt_example = dttots-tstodt 1709209845 (omega arith)

leap_day-Shows : Shows leap_day_registers leap_day false
leap_day-Shows = record {
  form = refl;
  second_at = (omega arith, refl);
  minute_at = (omega arith, refl);
  hour_at = (omega arith, refl);
  day_at = (omega arith, refl);
  month_at = (omega arith, refl);
  year_at = (omega arith, refl);
}

weekday-dttots_example :
    ((get_weekday_from_date leap_day).0 ≡ (dttots leap_day / seconds_per_day + 3) % 7)
    × ((get_weekday_from_date leap_day).1 ≡ record leap_day { century = 21 })
weekday-dttots_example =
    weekday-dttots leap_day refl (omega arith) (omega arith) (omega arith) (omega arith)

-- A clock that counts in binary.
abbrev binary_registers : Registers
binary_registers i = if i == 0x0B then 0x06 else 0

rtc_read-rtc_write_example :
    (rtc_read_datetime (rtc_write_datetime binary_registers leap_day) leap_day ≡ leap_day)
    × ((i : ℕ)
        → listed (0 ∷ 2 ∷ 4 ∷ 7 ∷ 8 ∷ 9 ∷ []) i ≡ false
        → rtc_write_datetime binary_registers leap_day i ≡ binary_registers i)
rtc_read-rtc_write_example =
    rtc_read-rtc_write binary_registers leap_day leap_day (omega arith) (omega arith) (omega arith)
