-- ===== src/Time/Ranges.antt =====
-- What `TimeRange.parse` of src/kdiff/core/contracts.py reads: a year, a month or a day is exactly
-- the range of its dates.
use knowledge_diffusion.Base.{
  >>=-eq-ok, List, ap, arith, dec_lt, inl, ok, pos, some, ℕ, ◌↔◌, ◌∙◌, ◌≡◌, ◌≤◌,
}
use knowledge_diffusion.Time.{
  Date, TimeRange, Precision, day, month, year, valid_range, make_date, month_days,
}
use knowledge_diffusion.Time.Calendar.{IsDate, Earlier, ordinal-le, date_bounds, same_or_later}
use knowledge_diffusion.Time.Placement.{Admits}
use knowledge_diffusion.Time.Parsing.{bounded_range, year_range, month_range, day_range}

abbrev date_of : ℕ → ℕ → ℕ → Date
date_of y m d = record { year = y; month = m; day = d }

make_date-IsDate :
    (y m d : ℕ) (x : Date)
    → make_date (pos y) m d ≡ ok x
    → (x ≡ date_of y m d) × IsDate (date_of y m d)
unfolding make_date
make_date-IsDate y m d x e = ground arith

range_bounds :
    (lo hi : Date) (precision : Precision) (s : List ℕ) (t : TimeRange)
    → bounded_range lo hi precision s ≡ ok t
    → (t.lower ≡ some lo) × (t.upper ≡ some hi)
unfolding valid_range
range_bounds lo hi precision s t e = ground arith

-- What a range of a text's dates admits, field by field.
range-Admits :
    (lo hi : Date) (t : TimeRange) (d : Date)
    → (t.lower ≡ some lo) × (t.upper ≡ some hi)
    → IsDate lo
    → IsDate hi
    → IsDate d
    → Admits t d ↔ ((¬ Earlier d lo) × (¬ Earlier hi d))
range-Admits lo hi t d (elo, ehi) dlo dhi dd =
    rw (elo, ehi)
      (
        λ (low, high). ((ordinal-le lo d dlo dd).0 low, (ordinal-le d hi dd dhi).0 high),
        λ (low, high). ((ordinal-le lo d dlo dd).1 low, (ordinal-le d hi dd dhi).1 high),
      )

iff_trans : {A B C : Type 0} → A ↔ B → B ↔ C → A ↔ C
iff_trans f g = (λ a. g.0 (f.0 a), λ c. f.1 (g.1 c))

pub month_days-le : (y m : ℕ) → month_days y m ≤ 31
unfolding month_days
month_days-le y m = ground arith

year_fields :
    (y : ℕ) (d : Date)
    → IsDate d
    → ((¬ Earlier d (date_of y 1 1)) × (¬ Earlier (date_of y 12 31) d)) ↔ (d.year ≡ y)
year_fields y d h =
    let bounds = date_bounds d.year d.month d.day h in
    (
      λ (low, high). elim (dec_lt d.year y) [
        | yes before ↦ absurd (low (inl before))
        | no late ↦ elim (dec_lt y d.year) [
          | yes after ↦ absurd (high (inl after))
          | no early ↦ omega arith
        ]
      ],
      λ same. (ground (arith, bounds), ground (arith, bounds, month_days-le d.year d.month)),
    )

month_fields :
    (y m : ℕ) (d : Date)
    → IsDate d
    → ((¬ Earlier d (date_of y m 1)) × (¬ Earlier (date_of y m (month_days y m)) d))
      ↔ ((d.year ≡ y) × (d.month ≡ m))
month_fields y m d h =
    let bounds = date_bounds d.year d.month d.day h in
    (
      λ (low, high).
          let first = same_or_later d (date_of y m 1) low in
          let last = same_or_later (date_of y m (month_days y m)) d high in
          ground (arith, first, last),
      λ (same, same').
          let days : month_days d.year d.month ≡ month_days y m = cc in
          (ground (arith, bounds), ground (arith, bounds, days)),
    )

day_fields :
    (y m k : ℕ) (d : Date)
    → ((¬ Earlier d (date_of y m k)) × (¬ Earlier (date_of y m k) d)) ↔ (d ≡ date_of y m k)
day_fields y m k d = (
  λ (low, high).
      let first = same_or_later d (date_of y m k) low in
      let last = same_or_later (date_of y m k) d high in ground (arith, first, last),
  λ same. (ground arith, ground arith),
)

-- The range of a year admits exactly the dates of that year.
pub year_range-Admits :
    (y : ℕ) (s : List ℕ) (t : TimeRange) (d : Date)
    → IsDate d
    → year_range y s ≡ ok t
    → Admits t d ↔ (d.year ≡ y)
unfolding year_range
year_range-Admits y s t d h e =
    let (lo, elo, rest) = >>=-eq-ok (make_date (pos y) 1 1) _ e in
    let (hi, ehi, built) = >>=-eq-ok (make_date (pos y) 12 31) _ rest in
    let low = make_date-IsDate y 1 1 lo elo in
    let high = make_date-IsDate y 12 31 hi ehi in
    let bounds = range_bounds lo hi year s t built in
    iff_trans
      (range-Admits (date_of y 1 1) (date_of y 12 31) t d
        (bounds.0 ∙ ap some low.0, bounds.1 ∙ ap some high.0) low.1 high.1 h)
      (year_fields y d h)

-- The range of a month admits exactly the dates of that month.
pub month_range-Admits :
    (y m : ℕ) (s : List ℕ) (t : TimeRange) (d : Date)
    → IsDate d
    → month_range y m s ≡ ok t
    → Admits t d ↔ ((d.year ≡ y) × (d.month ≡ m))
unfolding month_range
month_range-Admits y m s t d h e =
    let (lo, elo, rest) = >>=-eq-ok (make_date (pos y) m 1) _ e in
    let (hi, ehi, built) = >>=-eq-ok (make_date (pos y) m (month_days y m)) _ rest in
    let low = make_date-IsDate y m 1 lo elo in
    let high = make_date-IsDate y m (month_days y m) hi ehi in
    let bounds = range_bounds lo hi month s t built in
    iff_trans
      (range-Admits (date_of y m 1) (date_of y m (month_days y m)) t d
        (bounds.0 ∙ ap some low.0, bounds.1 ∙ ap some high.0) low.1 high.1 h)
      (month_fields y m d h)

-- The range of a day admits that date alone.
pub day_range-Admits :
    (y m k : ℕ) (s : List ℕ) (t : TimeRange) (d : Date)
    → IsDate d
    → day_range y m k s ≡ ok t
    → Admits t d ↔ (d ≡ date_of y m k)
unfolding day_range
day_range-Admits y m k s t d h e =
    let (lo, elo, built) = >>=-eq-ok (make_date (pos y) m k) _ e in
    let low = make_date-IsDate y m k lo elo in
    let bounds = range_bounds lo lo day s t built in
    iff_trans
      (range-Admits (date_of y m k) (date_of y m k) t d
        (bounds.0 ∙ ap some low.0, bounds.1 ∙ ap some low.0) low.1 low.1 h)
      (day_fields y m k d)
