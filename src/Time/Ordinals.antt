-- ===== src/Time/Ordinals.antt =====
-- What src/kdiff uses of Python's `datetime.date` and `calendar`: the proleptic Gregorian calendar.
-- Dates are compared and subtracted by their ordinals, the numbers of days since 1 January 1.
use knowledge_diffusion.Base.{
  Bool, if◌then◌else◌, leb, not, suc, zero, ℕ, ◌%◌, ◌&&◌, ◌*◌, ◌+◌, ◌-◌, ◌/◌, ◌==◌, ◌||◌,
}

pub record Date : Type 0 where
  pub year : ℕ
  pub month : ℕ
  pub day : ℕ

unfoldable pub is_leap : ℕ → Bool
is_leap y = y % 4 == 0 && (not (y % 100 == 0) || y % 400 == 0)

-- `calendar.monthrange(y, m)[1]`
unfoldable pub month_days : ℕ → ℕ → ℕ
unfolding is_leap
month_days y m =
    if m == 2
    then (if is_leap y then 29 else 28)
    else if m == 4 || m == 6 || m == 9 || m == 11
    then 30
    else 31

-- The days of the year before the first of a month.
unfoldable pub days_before_month : ℕ → ℕ → ℕ
unfolding month_days
days_before_month y zero = 0
days_before_month y (suc zero) = 0
days_before_month y (suc (suc m)) = days_before_month y (suc m) + month_days y (suc m)

-- The days before the first of January.
unfoldable pub days_before_year : ℕ → ℕ
days_before_year y = (y - 1) * 365 + (y - 1) / 4 + (y - 1) / 400 - (y - 1) / 100

unfoldable pub ordinal : Date → ℕ
ordinal d = days_before_year d.year + days_before_month d.year d.month + d.day

unfoldable pub is_date : ℕ → ℕ → ℕ → Bool
unfolding month_days
is_date y m d = leb 1 y && leb y 9999 && leb 1 m && leb m 12 && leb 1 d && leb d (month_days y m)
