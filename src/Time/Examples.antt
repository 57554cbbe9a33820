-- ===== src/Time/Examples.antt =====
-- The theorems on dates at single dates and windows, and runs of the parser.
use knowledge_diffusion.Base.{[], arith, err, ok, refl, some, ℕ, ◌∷◌, ◌≡◌}
use knowledge_diffusion.Time
use knowledge_diffusion.Time.{Date, TimeRange, Window, ordinal, membership}
use knowledge_diffusion.Time.Placement.{Decides, membership-Decides}
use knowledge_diffusion.Time.Parsing.{parse, year_range, month_range, day_range}

abbrev date : ℕ → ℕ → ℕ → Date
date y m d = record { year = y; month = m; day = d }

abbrev between : Date → Date → Time.Precision → TimeRange
between lo hi p = record {
  lower = some lo;
  upper = some hi;
  precision = p;
  end_kind = Time.bounded;
  raw = some [];
}

abbrev from_july : Window
from_july = record {
  start = date 2020 7 1;
  end = date 2021 12 31;
  reference_date = date 2022 1 1;
  normalization = Time.explicit_inclusive;
}

abbrev february : TimeRange
february = between (date 2024 2 1) (date 2024 2 29) Time.month

-- A leap year's February.
parse-february :
    parse (some (b'2' ∷ b'0' ∷ b'2' ∷ b'4' ∷ b'-' ∷ b'0' ∷ b'2' ∷ []))
    ≡ ok (record february { raw = some (b'2' ∷ b'0' ∷ b'2' ∷ b'4' ∷ b'-' ∷ b'0' ∷ b'2' ∷ []) })
unfolding parse ordinal Time.days_before_year Time.days_before_month
parse-february = refl

-- There is no 30th of February.
parse_absent_day :
    parse (some (b'2' ∷ b'0' ∷ b'2' ∷ b'4' ∷ b'-' ∷ b'0' ∷ b'2' ∷ b'-' ∷ b'3' ∷ b'0' ∷ []))
    ≡ err Time.invalid_date
unfolding parse
parse_absent_day = refl

abbrev ten_years : Window
ten_years = record {
  start = date 2014 1 1;
  end = date 2023 12 31;
  reference_date = date 2024 5 6;
  normalization = Time.previous_ten_complete_years;
}

-- Ten complete years before a date.
decade : Time.last_decade (date 2024 5 6) ≡ ok ten_years
unfolding Time.last_decade ordinal Time.days_before_year Time.days_before_month
decade = refl

abbrev year_2020 : TimeRange
year_2020 = between (date 2020 1 1) (date 2020 12 31) Time.year

undecided : membership year_2020 from_july ≡ Time.indeterminate
unfolding membership ordinal Time.days_before_year Time.days_before_month
undecided = refl

year_2020_parsed : year_range 2020 [] ≡ ok year_2020
unfolding year_range ordinal Time.days_before_year Time.days_before_month
year_2020_parsed = refl

february_parsed : month_range 2024 2 [] ≡ ok february
unfolding month_range ordinal Time.days_before_year Time.days_before_month
february_parsed = refl

day_parsed : day_range 2024 2 3 [] ≡ ok (between (date 2024 2 3) (date 2024 2 3) Time.day)
unfolding day_range ordinal Time.days_before_year Time.days_before_month
day_parsed = refl

membership-Decides_example :
    Decides (membership february from_july) february from_july (date 2024 2 3)
unfolding ordinal Time.days_before_year Time.days_before_month
membership-Decides_example =
    membership-Decides february from_july (date 2024 2 3) (omega arith, omega arith)
