-- ===== src/Time/Rtc/Convert.antt =====
-- `dttots` after `tstodt`.
use hvos.Common.{ℕ, ◌+◌, ◌-◌, ◌*◌, ◌/◌, ◌%◌, ◌≤◌, ◌<◌, ◌≡◌, refl, arith, leb}
use hvos.Time.Rtc.{
  Datetime, seconds_per_day, days_to_1970, yoe_of, doy_of, year_days, month_from_march, dttots,
  civil, tstodt,
}

yoe_lem :
    (doe : ℕ)
    → doe < 146097
    → (yoe_of doe < 400)
      × (doy_of doe (yoe_of doe) + (365 * yoe_of doe + yoe_of doe / 4 - yoe_of doe / 100) ≡ doe)
      × (doy_of doe (yoe_of doe) < 366)
unfolding yoe_of doy_of
yoe_lem doe h = omega arith

-- The fields of a date that the clock can show.
pub record IsDate (dt : Datetime) : Type 0 where
  pub month_in : (1 ≤ dt.month) × (dt.month ≤ 12)
  pub day_in : (1 ≤ dt.day) × (dt.day ≤ 31)
  pub time_in : (dt.hour < 24) × (dt.minute < 60) × (dt.second < 60)
  pub year_in : (dt.year < 100) × (dt.century < 256)

module _ (full_year doy hour minute second : ℕ) (in_year : doy < 366) where
  civil-IsDate :
      hour < 24 → minute < 60 → second < 60 → IsDate (civil full_year doy hour minute second)
  unfolding civil
  civil-IsDate hh hm hs = ground arith

  -- The day of the year and the years before it come back.
  civil_back :
      full_year < 25500
      → let dt = civil full_year doy hour minute second in
        let early = leb dt.month 2 in
        (dt.day + (153 * month_from_march early dt.month + 2) / 5 ≡ doy + 1)
        × (year_days early (dt.century * 100 + dt.year)
            ≡ 365 * full_year + full_year / 4 + full_year / 400 - full_year / 100)
  unfolding civil month_from_march year_days
  civil_back small = ground arith

  civil_time :
      let dt = civil full_year doy hour minute second in
      (dt.hour ≡ hour) × (dt.minute ≡ minute) × (dt.second ≡ second)
  unfolding civil
  civil_time = (refl, refl, refl)

-- Every time in seconds gives a date whose fields are in range.
pub tstodt-IsDate : (ts : ℕ) → IsDate (tstodt ts)
unfolding tstodt
tstodt-IsDate ts =
    let doe = (ts / seconds_per_day + days_to_1970) % 146097 in
    civil-IsDate _ _ _ _ _ ((yoe_lem doe (omega arith)).2) (omega arith) (omega arith) (omega arith)

-- Going to a date and back does not return the time but the time one day later, for every time
-- before the year 25200: `dttots` counts the day of the month from 1 where it has to from 0.
pub dttots-tstodt :
    (ts : ℕ)
    → ts / seconds_per_day + days_to_1970 < 63 * 146097
    → dttots (tstodt ts) ≡ ts + seconds_per_day
unfolding dttots tstodt
dttots-tstodt ts small =
    let z = ts / seconds_per_day + days_to_1970 in
    let doe = z % 146097 in
    let yoe = yoe_of doe in
    let doy = doy_of doe yoe in
    let r = ts % seconds_per_day in
    let y = yoe_lem doe (omega arith) in
    let full_year = yoe + z / 146097 * 400 in
    let back =
      civil_back full_year doy (r / 3600) (r % 3600 / 60) (r % 3600 % 60) y.2 (omega arith) in
    let time = civil_time full_year doy (r / 3600) (r % 3600 / 60) (r % 3600 % 60) y.2 in
    let years : 365 * full_year + full_year / 4 + full_year / 400 - full_year / 100
        ≡ z / 146097 * 146097 + (365 * yoe + yoe / 4 - yoe / 100) =
      omega arith in
    omega (arith, back, time, years, y)
