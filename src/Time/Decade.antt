-- ===== src/Time/Decade.antt =====
-- `Window.last_decade` of src/kdiff/core/contracts.py.
use knowledge_diffusion.Base.{>>=-eq-ok, arith, ok, sub_ℕ, ℕ, ◌+◌, ◌-◌, ◌<◌, ◌↔◌, ◌∙◌, ◌≡◌, ◌≤◌}
use knowledge_diffusion.Time
use knowledge_diffusion.Time.{Date, Window, make_date, last_decade, valid_window}
use knowledge_diffusion.Time.Calendar.{IsDate, Earlier, ordinal-le, date_bounds, same_or_later}
use knowledge_diffusion.Time.Placement.{InWindow}
use knowledge_diffusion.Time.Ranges.{month_days-le}

abbrev date_of : ℕ → ℕ → ℕ → Date
date_of y m d = record { year = y; month = m; day = d }

make_date_back :
    (y n m d : ℕ) (x : Date)
    → make_date (sub_ℕ y n) m d ≡ ok x
    → (n ≤ y) × (x ≡ date_of (y - n) m d) × IsDate (date_of (y - n) m d)
unfolding make_date
make_date_back y n m d x h = ground arith

decade_fields :
    (reference d : Date)
    → 10 ≤ reference.year
    → IsDate d
    → ((¬ Earlier d (date_of (reference.year - 10) 1 1))
        × (¬ Earlier (date_of (reference.year - 1) 12 31) d))
      ↔ ((reference.year ≤ d.year + 10) × (d.year < reference.year))
decade_fields reference d old h =
    let bounds = date_bounds d.year d.month d.day h in
    (
      λ (low, high).
          let first = same_or_later d (date_of (reference.year - 10) 1 1) low in
          let last = same_or_later (date_of (reference.year - 1) 12 31) d high in
          ground (arith, first, last),
      λ (low, high). (ground (arith, bounds), ground (arith, bounds, month_days-le d.year d.month)),
    )

window_bounds :
    (start end reference : Date) (w : Window)
    → valid_window (record {
      start = start;
      end = end;
      reference_date = reference;
      normalization = Time.previous_ten_complete_years;
    })
      ≡ ok w
    → (w.start ≡ start) × (w.end ≡ end)
unfolding valid_window
window_bounds start end reference w h = ground arith

between :
    (lo hi d : Date) (w : Window)
    → (w.start ≡ lo) × (w.end ≡ hi)
    → IsDate lo
    → IsDate hi
    → IsDate d
    → InWindow w d ↔ ((¬ Earlier d lo) × (¬ Earlier hi d))
between lo hi d w (elo, ehi) dlo dhi dd =
    rw (elo, ehi)
      (
        λ (low, high). ((ordinal-le lo d dlo dd).0 low, (ordinal-le d hi dd dhi).0 high),
        λ (low, high). ((ordinal-le lo d dlo dd).1 low, (ordinal-le d hi dd dhi).1 high),
      )

-- The window that is normalized from a reference date holds exactly the dates of the ten years
-- before the reference's year.
pub last_decade-InWindow :
    (reference d : Date) (w : Window)
    → IsDate d
    → last_decade reference ≡ ok w
    → InWindow w d ↔ ((reference.year ≤ d.year + 10) × (d.year < reference.year))
unfolding last_decade
last_decade-InWindow reference d w h e =
    let (start, es, rest) = >>=-eq-ok (make_date (sub_ℕ reference.year 10) 1 1) _ e in
    let (end, ee, built) = >>=-eq-ok (make_date (sub_ℕ reference.year 1) 12 31) _ rest in
    let (old, low, lowd) = make_date_back reference.year 10 1 1 start es in
    let (_, high, highd) = make_date_back reference.year 1 12 31 end ee in
    let bounds = window_bounds start end reference w built in
    let within =
      between (date_of (reference.year - 10) 1 1) (date_of (reference.year - 1) 12 31) d w
        (bounds.0 ∙ low, bounds.1 ∙ high) lowd highd h in
    let fields = decade_fields reference d old h in
    (λ k. fields.0 (within.0 k), λ k. within.1 (fields.1 k))
