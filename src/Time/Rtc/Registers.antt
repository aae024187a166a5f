-- ===== src/Time/Rtc/Registers.antt =====
-- Reading the clock's registers, and the day of the week.
use hvos.Common.{
  listed, [], ◌∷◌, false, ℕ, ◌+◌, ◌-◌, ◌*◌, ◌/◌, ◌%◌, ◌^◌, ◌≤◌, ◌<◌, bit_and, bit_or, ◌≡◌, refl,
  ◌≢◌, Bool, true, false, ◌&&◌, ◌||◌, List, [], ◌∷◌, arith, leb, ◌==◌, if◌then◌else◌, every,
  every-lem, ==→eq, u8, u64, get_or,
}
use hvos.Time.Rtc.{Datetime, days_to_1970, seconds_per_day, year_days, month_from_march, dttots}

-- The registers by number, as the CMOS chip shows them once it is not updating. The loops that
-- wait for that are left out.
abbrev pub Registers : Type 0
Registers = ℕ → ℕ

-- One field in binary coded decimal: `(x & 0x0F) + ((x / 16) * 10)`.
pub from_bcd : ℕ → ℕ
from_bcd x = u8 (bit_and x 0x0F + x / 16 * 10)

-- The hour keeps its top bit.
pub hour_from_bcd : ℕ → ℕ
hour_from_bcd x = u8 (bit_or (bit_and x 0x0F + bit_and x 0x70 / 16 * 10) (bit_and x 0x80))

-- The century is not read.
pub rtc_read_datetime : Registers → Datetime → Datetime
rtc_read_datetime reg dt =
    let raw : Datetime = record dt {
      second = u8 (reg 0x00);
      minute = u8 (reg 0x02);
      hour = u8 (reg 0x04);
      day = u8 (reg 0x07);
      month = u8 (reg 0x08);
      year = u8 (reg 0x09);
    } in
    if bit_and (u8 (reg 0x0B)) 0x04 == 0
    then record raw {
      second = from_bcd raw.second;
      minute = from_bcd raw.minute;
      hour = hour_from_bcd raw.hour;
      day = from_bcd raw.day;
      month = from_bcd raw.month;
      year = from_bcd raw.year;
    }
    else raw

pub rtc_write_datetime : Registers → Datetime → Registers
rtc_write_datetime reg dt i =
    if i == 0x00
    then dt.second
    else if i == 0x02
    then dt.minute
    else if i == 0x04
    then dt.hour
    else if i == 0x07
    then dt.day
    else if i == 0x08
    then dt.month
    else if i == 0x09
    then dt.year
    else reg i

abbrev month_codes : List ℕ
month_codes = 0 ∷ 3 ∷ 3 ∷ 6 ∷ 1 ∷ 4 ∷ 6 ∷ 2 ∷ 5 ∷ 0 ∷ 3 ∷ 5 ∷ []

abbrev century_codes : List ℕ
century_codes = 4 ∷ 2 ∷ 0 ∷ 6 ∷ 4 ∷ 2 ∷ 0 ∷ []

unfoldable pub is_leap_year : ℕ → ℕ → ℕ
is_leap_year year month = if year % 4 == 0 && (month == 1 || month == 2) then 1 else 0

-- The day of the week, 0 for Sunday, and the date, whose century is overwritten.
unfoldable pub get_weekday_from_date : Datetime → ℕ × Datetime
get_weekday_from_date dt =
    let dt' : Datetime = record dt { century = 21 } in
    let year_code = (dt.year + dt.year / 4) % 7 in
    let month_code = get_or month_codes (dt.month - 1) 0 in
    let century_code = get_or century_codes (dt'.century - 1 - 17) 0 in
    ((year_code + month_code + century_code + dt.day - is_leap_year dt.year dt.month) % 7, dt')

-- What a register holds for the number `n`: two decimal digits, or the number itself.
abbrev pub encode : Bool → ℕ → ℕ
encode true n = n
encode false n = n / 10 * 16 + n % 10

-- The clock shows the time of `dt` in 24 hours, in the form that register 0x0B names.
pub record Shows (reg : Registers) (dt : Datetime) (binary : Bool) : Type 0 where
  pub form : bit_and (u8 (reg 0x0B)) 0x04 ≡ (if binary then 4 else 0)
  pub second_at : (dt.second < 60) × (reg 0x00 ≡ encode binary dt.second)
  pub minute_at : (dt.minute < 60) × (reg 0x02 ≡ encode binary dt.minute)
  pub hour_at : (dt.hour < 24) × (reg 0x04 ≡ encode binary dt.hour)
  pub day_at : (dt.day < 32) × (reg 0x07 ≡ encode binary dt.day)
  pub month_at : (dt.month < 13) × (reg 0x08 ≡ encode binary dt.month)
  pub year_at : (dt.year < 100) × (reg 0x09 ≡ encode binary dt.year)

from_bcd_table :
    every 100 (λ n. (u8 (encode false n) == encode false n) && (from_bcd (encode false n) == n))
    ≡ true
unfolding every from_bcd
from_bcd_table = refl

hour_table : every 24 (λ n. hour_from_bcd (encode false n) == n) ≡ true
unfolding every hour_from_bcd
hour_table = refl

from_bcd-encode :
    (n : ℕ) → n < 100 → (u8 (encode false n) ≡ encode false n) × (from_bcd (encode false n) ≡ n)
from_bcd-encode n h = ground (
  arith,
  every-lem 100 (λ n. (u8 (encode false n) == encode false n) && (from_bcd (encode false n) == n)) n
      from_bcd_table h,
)

hour-encode : (n : ℕ) → n < 24 → hour_from_bcd (encode false n) ≡ n
hour-encode n h = ==→eq _ _ (every-lem 24 (λ n. hour_from_bcd (encode false n) == n) n hour_table h)

-- Whether the clock counts in binary or in decimal digits, reading its registers gives the time
-- that it shows; the century stays as it was in memory.
pub rtc_read_datetime-Shows :
    (reg : Registers) (dt old : Datetime) (binary : Bool)
    → Shows reg dt binary
    → rtc_read_datetime reg old ≡ record dt { century = old.century }
unfolding rtc_read_datetime
rtc_read_datetime-Shows reg dt old true h = ground arith
rtc_read_datetime-Shows reg dt old false h = ground (
  arith,
  from_bcd-encode dt.second,
  from_bcd-encode dt.minute,
  hour-encode dt.hour,
  from_bcd-encode dt.day,
  from_bcd-encode dt.month,
  from_bcd-encode dt.year,
)

-- What `dttots` adds to the day of the month, in a year of the given century.
shift : ℕ → ℕ → ℕ → ℕ
shift century month year =
    (153 * month_from_march (leb month 2) month + 2) / 5
    + year_days (leb month 2) (century * 100 + year)

abbrev week_row : ℕ → ℕ → ℕ
week_row k year = (year + year / 4) % 7 + get_or month_codes k 0 + 6

shift_row : ℕ → ℕ → Bool
shift_row k year =
    (week_row k year + 7 - is_leap_year year (k + 1)) % 7
      == (shift 20 (k + 1) year - 719468 + 3) % 7
    && leb 719468 (shift 20 (k + 1) year)
    && leb (shift 20 (k + 1) year + 36524) (shift 21 (k + 1) year)
    && leb (shift 21 (k + 1) year) 900000
    && leb (is_leap_year year (k + 1)) 1

shift_table : every 12 (λ k. every 100 (shift_row k)) ≡ true
unfolding every shift_row shift month_from_march year_days is_leap_year
shift_table = refl

shift_facts :
    (k year : ℕ)
    → k < 12
    → year < 100
    → ((week_row k year + 7 - is_leap_year year (k + 1)) % 7
        ≡ (shift 20 (k + 1) year - 719468 + 3) % 7)
      × (719468 ≤ shift 20 (k + 1) year)
      × (shift 20 (k + 1) year + 36524 ≤ shift 21 (k + 1) year)
      × (shift 21 (k + 1) year ≤ 900000)
      × (is_leap_year year (k + 1) ≤ 1)
unfolding shift_row
shift_facts k year hk hy = ground (
  arith,
  every-lem 100 (shift_row k) year (every-lem 12 (λ k. every 100 (shift_row k)) k shift_table hk)
      hy,
)

dttots-shift :
    (dt : Datetime)
    → dttots dt
      ≡ u64 (
          (dt.day + shift dt.century dt.month dt.year + 2 ^ 64 - days_to_1970) * seconds_per_day
          + dt.hour * 3600
          + dt.minute * 60
          + dt.second)
unfolding dttots shift
dttots-shift dt = omega arith

-- For a date of the years 2000 to 2099, the weekday is that of the day number of `dttots`, which is
-- one too high: the two routines share no code. The date that is left has the century overwritten.
pub weekday-dttots :
    (dt : Datetime)
    → dt.century ≡ 20
    → dt.year < 100
    → (1 ≤ dt.month) × (dt.month ≤ 12)
    → (1 ≤ dt.day) × (dt.day ≤ 31)
    → (dt.hour < 24) × (dt.minute < 60) × (dt.second < 60)
    → ((get_weekday_from_date dt).0 ≡ (dttots dt / seconds_per_day + 3) % 7)
      × ((get_weekday_from_date dt).1 ≡ record dt { century = 21 })
unfolding get_weekday_from_date
weekday-dttots dt c y m d t =
    let f = shift_facts (dt.month - 1) dt.year (omega arith) y in
    let e : dt.month - 1 + 1 ≡ dt.month = omega arith in
    let g = rw e at f in (rw (dttots-shift dt, c) (omega (arith, g)), refl)

-- After the weekday has been asked for, `dttots` of the same date is at least 36524 days later.
pub dttots_century :
    (dt : Datetime)
    → dt.century ≡ 20
    → dt.year < 100
    → (1 ≤ dt.month) × (dt.month ≤ 12)
    → (1 ≤ dt.day) × (dt.day ≤ 31)
    → (dt.hour < 24) × (dt.minute < 60) × (dt.second < 60)
    → dttots dt + 36524 * seconds_per_day ≤ dttots (get_weekday_from_date dt).1
unfolding get_weekday_from_date
dttots_century dt c y m d t =
    let f = shift_facts (dt.month - 1) dt.year (omega arith) y in
    let e : dt.month - 1 + 1 ≡ dt.month = omega arith in
    let g = rw e at f in
    rw (dttots-shift dt, dttots-shift (record dt { century = 21 }), c) (omega (arith, g))

-- With the clock set to binary numbers, a date of bytes that is written to the registers is read
-- back, but for the century, and no register other than 0, 2, 4, 7, 8 and 9 changes.
pub rtc_read-rtc_write :
    (reg : Registers) (dt old : Datetime)
    → bit_and (u8 (reg 0x0B)) 0x04 ≢ 0
    → (dt.second < 256) × (dt.minute < 256) × (dt.hour < 256)
    → (dt.day < 256) × (dt.month < 256) × (dt.year < 256)
    → (rtc_read_datetime (rtc_write_datetime reg dt) old ≡ record dt { century = old.century })
      × ((i : ℕ)
          → listed (0 ∷ 2 ∷ 4 ∷ 7 ∷ 8 ∷ 9 ∷ []) i ≡ false
          → rtc_write_datetime reg dt i ≡ reg i)
unfolding rtc_read_datetime rtc_write_datetime
rtc_read-rtc_write reg dt old binary time date = (ground arith, λ i h. ground arith)
