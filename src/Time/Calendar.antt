-- ===== src/Time/Calendar.antt =====
-- The calendar of Time/Ordinals: years and months as intervals of ordinals, and ordinals in the
-- order of dates.
use mathlib.Core.Path.{subst}
use knowledge_diffusion.Base.{
  ap, arith, dec_le, if◌then◌else◌, inl, inr, refl, suc, sym, true, zero, ℕ, ◌+◌, ◌<◌, ◌↔◌, ◌≡◌,
  ◌≤◌, ◌⊎◌,
}
use knowledge_diffusion.Time.{
  Date, is_leap, month_days, days_before_month, days_before_year, ordinal, is_date,
}

abbrev year_days : ℕ → ℕ
year_days y = if is_leap y then 366 else 365

days_before_year-suc :
    (y : ℕ) → days_before_year (suc (suc y)) ≡ days_before_year (suc y) + year_days (suc y)
unfolding days_before_year is_leap
days_before_year-suc y = ground arith

days_before_year_mono : (y z : ℕ) → y ≤ z → days_before_year (suc y) ≤ days_before_year (suc z)
days_before_year_mono y zero h = let same : y ≡ 0 = omega arith in rw same (omega arith)
days_before_year_mono y (suc z) h = elim (dec_le y z) [
  | yes le ↦ ground (arith, days_before_year_mono y z le, days_before_year-suc z)
  | no gt ↦ let same : y ≡ suc z = omega arith in rw same (omega arith)
]

days_before_month_mono :
    (y m n : ℕ) → m ≤ n → days_before_month y (suc m) ≤ days_before_month y (suc n)
unfolding days_before_month
days_before_month_mono y m zero h = let same : m ≡ 0 = omega arith in rw same (omega arith)
days_before_month_mono y m (suc n) h = elim (dec_le m n) [
  | yes le ↦ omega (arith, days_before_month_mono y m n le)
  | no gt ↦ let same : m ≡ suc n = omega arith in rw same (omega arith)
]

days_before_month-year : (y : ℕ) → days_before_month y 13 ≡ year_days y
unfolding days_before_month
days_before_month-year y = ground arith

-- A date of the calendar.
abbrev pub IsDate : Date → Type 0
IsDate d = is_date d.year d.month d.day ≡ true

-- The bounds that `is_date` checks.
pub date_bounds :
    (y m d : ℕ)
    → is_date y m d ≡ true
    → (1 ≤ y) × (1 ≤ m) × (m ≤ 12) × (1 ≤ d) × (d ≤ month_days y m)
unfolding is_date
date_bounds y m d h = ground arith

days_before_month_step :
    (y m : ℕ)
    → days_before_month y (suc (suc m)) ≡ days_before_month y (suc m) + month_days y (suc m)
unfolding days_before_month
days_before_month_step y m = refl

-- The days up to the end of a month.
month_end :
    (y m n : ℕ)
    → m < n
    → days_before_month y (suc m) + month_days y (suc m) ≤ days_before_month y (suc n)
month_end y m n h = omega (arith, days_before_month_mono y (suc m) n h, days_before_month_step y m)

year_interval :
    (y m d : ℕ)
    → is_date y m d ≡ true
    → (days_before_year y < days_before_year y + days_before_month y m + d)
      × (days_before_year y + days_before_month y m + d ≤ days_before_year (suc y))
year_interval zero m d h = absurd (omega (arith, date_bounds zero m d h))
year_interval (suc y) zero d h = absurd (omega (arith, date_bounds (suc y) zero d h))
year_interval (suc y) (suc m) d h =
    let bounds = date_bounds (suc y) (suc m) d h in
    omega (
      arith,
      bounds,
      month_end (suc y) m 12 bounds.2,
      days_before_month-year (suc y),
      days_before_year-suc y,
    )

-- The dates of a year are the ordinals after the days before it, up to the days before the next.
pub ordinal-year :
    (d : Date)
    → IsDate d
    → (days_before_year d.year < ordinal d) × (ordinal d ≤ days_before_year (suc d.year))
unfolding ordinal
ordinal-year d h = year_interval d.year d.month d.day h

days_before_year-le : (y z : ℕ) → 1 ≤ y → y ≤ z → days_before_year y ≤ days_before_year z
days_before_year-le zero z h k = absurd (omega arith)
days_before_year-le (suc y) zero h k = absurd (omega arith)
days_before_year-le (suc y) (suc z) h k = days_before_year_mono y z (omega arith)

month_order :
    (y m n d e : ℕ)
    → is_date y m d ≡ true
    → is_date y n e ≡ true
    → m < n
    → days_before_month y m + d < days_before_month y n + e
month_order y zero n d e h k lt = absurd (omega (arith, date_bounds y zero d h))
month_order y (suc m) zero d e h k lt = absurd (omega arith)
month_order y (suc m) (suc n) d e h k lt =
    omega
      (arith, month_end y m n (omega arith), date_bounds y (suc m) d h, date_bounds y (suc n) e k)

-- The order of dates, field by field.
abbrev pub Earlier : Date → Date → Type 0
Earlier a b =
    (a.year < b.year)
    ⊎ ((a.year ≡ b.year) × (a.month < b.month))
    ⊎ ((a.year ≡ b.year) × (a.month ≡ b.month) × (a.day < b.day))

-- Ordinals order the dates of the calendar by year, month and day.
pub ordinal-Earlier : (a b : Date) → IsDate a → IsDate b → Earlier a b → ordinal a < ordinal b
unfolding ordinal
ordinal-Earlier a b da db (inl year) = omega (
  arith,
  ordinal-year a da,
  ordinal-year b db,
  days_before_year-le (suc a.year) b.year (omega arith) year,
)
ordinal-Earlier a b da db (inr (inl (same, month))) =
    let there = subst (λ y. is_date y b.month b.day ≡ true) (sym same) db in
    let fields : days_before_month a.year b.month ≡ days_before_month b.year b.month = cc in
    omega (
      arith,
      ap days_before_year same,
      fields,
      month_order a.year a.month b.month a.day b.day da there month,
    )
ordinal-Earlier a b da db (inr (inr (same, same', day))) =
    let fields : days_before_month a.year a.month ≡ days_before_month b.year b.month = cc in
    omega (arith, ap days_before_year same, fields)

compare_dates : (a b : Date) → Earlier a b ⊎ (a ≡ b) ⊎ Earlier b a
compare_dates a b = ground arith

-- A date that is not before another is that date or a later one.
pub same_or_later : (a b : Date) → ¬ Earlier a b → (a ≡ b) ⊎ Earlier b a
same_or_later a b h = elim (compare_dates a b) [ inl before ↦ absurd (h before) | inr rest ↦ rest ]

-- One date is not before another, by its fields and by its ordinal.
pub ordinal-le : (a b : Date) → IsDate a → IsDate b → (ordinal a ≤ ordinal b) ↔ (¬ Earlier b a)
ordinal-le a b da db = (
  λ le before. omega (arith, ordinal-Earlier b a db da before),
  λ late. elim (compare_dates a b) [
    | inl before ↦ omega (arith, ordinal-Earlier a b da db before)
    | inr (inl same) ↦ omega (arith, ap ordinal same)
    | inr (inr after) ↦ absurd (late after)
  ],
)
