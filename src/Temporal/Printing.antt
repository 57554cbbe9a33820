-- ===== src/Temporal/Printing.antt =====
-- Dates as text in src/kdiff: `date.isoformat`, read back by `TimeRange.parse`.
use knowledge_diffusion.Base.{[], arith, ok, some, true, ℕ, ◌/◌, ◌∷◌, ◌≡◌, ◌≤◌}
use knowledge_diffusion.Time
use knowledge_diffusion.Time.{Date, TimeRange, valid_range, make_date, is_date, month_days, ordinal}
use knowledge_diffusion.Time.Calendar.{IsDate, date_bounds}
use knowledge_diffusion.Time.Ranges.{month_days-le}
use knowledge_diffusion.Time.Parsing.{is_digit, number, parse, day_range}
use knowledge_diffusion.Temporal.{digit, iso_text}

digit-is_digit : (n : ℕ) → is_digit (digit n) ≡ true
digit-is_digit n = ground arith

year-number :
    (y : ℕ)
    → y ≤ 9999
    → number (digit (y / 1000) ∷ digit (y / 100) ∷ digit (y / 10) ∷ digit y ∷ []) 0 ≡ y
year-number y h = omega (arith, h)

pair-number : (n : ℕ) → n ≤ 99 → number (digit (n / 10) ∷ digit n ∷ []) 0 ≡ n
pair-number n h = omega (arith, h)

-- The range that is a date alone.
abbrev pub exactly : Date → TimeRange
exactly d = record {
  lower = some d;
  upper = some d;
  precision = Time.day;
  end_kind = Time.bounded;
  raw = some (iso_text d);
}

day_range-exactly :
    (d : Date) → IsDate d → day_range d.year d.month d.day (iso_text d) ≡ ok (exactly d)
unfolding day_range make_date valid_range
day_range-exactly d h = ground (arith, h)

year_bound : (d : Date) → IsDate d → d.year ≤ 9999
unfolding is_date
year_bound d h = ground (arith, h)

-- A date that is printed is read back as the range of that date alone.
pub iso_text-parse : (d : Date) → IsDate d → parse (some (iso_text d)) ≡ ok (exactly d)
unfolding parse iso_text
iso_text-parse d h =
    let (_, _, months, _, days) = date_bounds d.year d.month d.day h in
    let small : d.day ≤ 99 = omega (arith, days, month_days-le d.year d.month) in
    rw
      (
        digit-is_digit (d.year / 1000),
        digit-is_digit (d.year / 100),
        digit-is_digit (d.year / 10),
        digit-is_digit d.year,
        digit-is_digit (d.month / 10),
        digit-is_digit d.month,
        digit-is_digit (d.day / 10),
        digit-is_digit d.day,
        year-number d.year (year_bound d h),
        pair-number d.month (omega (arith, months)),
        pair-number d.day small,
      )
      (day_range-exactly d h)
