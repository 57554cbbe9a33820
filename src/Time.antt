-- ===== src/Time.antt =====
-- Dates with uncertainty: `TimeRange`, `Window` and `membership` of src/kdiff/core/contracts.py.
-- A validator of the source returns the record or raises; here `valid` returns it or an error.
mod Ordinals
unfoldable pub use Ordinals.*
pub mod Calendar
pub mod Placement
pub mod Parsing
pub mod Ranges
pub mod Decade
mod Examples
use knowledge_diffusion.Base.{
  Bool, List, Option, Result, err, false, if◌then◌else◌, is_some, leb, ltb, negsuc, none, not, ok,
  pos, raise_if, some, sub_ℕ, true, ℕ, ℤ, ◌&&◌, ◌*◌, ◌==◌, ◌>>=◌, ◌>>◌, ◌||◌,
}

pub data Precision : Type 0 where
  day month year interval fuzzy unknown : Precision

pub data EndKind : Type 0 where
  bounded unknown_end ongoing : EndKind

pub record TimeRange : Type 0 where
  pub lower : Option Date
  pub upper : Option Date
  pub precision : Precision
  pub end_kind : EndKind
  pub raw : Option (List ℕ)

pub data TimeError : Type 0 where
  reversed_bounds bad_ongoing bad_bounded bad_day reversed_window invalid_date : TimeError

abbrev pub unknown_range : TimeRange
unknown_range = record {
  lower = none;
  upper = none;
  precision = unknown;
  end_kind = unknown_end;
  raw = none;
}

-- `a and b and a > b`
abbrev pub after? : Option Date → Option Date → Bool
after? (some a) (some b) = ltb (ordinal b) (ordinal a)
after? _ _ = false

abbrev pub is_ongoing : EndKind → Bool
is_ongoing ongoing = true
is_ongoing _ = false

abbrev pub is_bounded : EndKind → Bool
is_bounded bounded = true
is_bounded _ = false

abbrev pub is_day : Precision → Bool
is_day day = true
is_day _ = false

abbrev pub same_day : Option Date → Option Date → Bool
same_day none none = true
same_day (some a) (some b) = ordinal a == ordinal b
same_day _ _ = false

-- `TimeRange.valid`
unfoldable pub valid_range : TimeRange → Result TimeError TimeRange
valid_range t = do
  raise_if (after? t.lower t.upper) reversed_bounds
  raise_if (is_ongoing t.end_kind && (not (is_some t.lower) || is_some t.upper)) bad_ongoing
  raise_if (is_bounded t.end_kind && (not (is_some t.lower) || not (is_some t.upper))) bad_bounded
  raise_if (is_day t.precision && not (same_day t.lower t.upper)) bad_day
  ok t

pub data Normalization : Type 0 where
  explicit_inclusive previous_ten_complete_years : Normalization

pub record Window : Type 0 where
  pub start : Date
  pub end : Date
  pub reference_date : Date
  pub normalization : Normalization

-- `Window.valid`
unfoldable pub valid_window : Window → Result TimeError Window
valid_window w = do raise_if (ltb (ordinal w.end) (ordinal w.start)) reversed_window; ok w

-- `date(y, m, d)`
unfoldable pub make_date : ℤ → ℕ → ℕ → Result TimeError Date
unfolding is_date
make_date (pos y) m d =
    if is_date y m d then ok (record { year = y; month = m; day = d }) else err invalid_date
make_date (negsuc y) m d = err invalid_date

-- `Window.last_decade`; `date(…)` raises outside the calendar.
unfoldable pub last_decade : Date → Result TimeError Window
unfolding valid_window make_date
last_decade reference = do
  start ← make_date (sub_ℕ reference.year 10) 1 1
  end ← make_date (sub_ℕ reference.year 1) 12 31
  valid_window (record {
    start = start;
    end = end;
    reference_date = reference;
    normalization = previous_ten_complete_years;
  })

pub data Membership : Type 0 where
  inside outside indeterminate : Membership

-- `a and a < b`
abbrev pub known_before : Option Date → Date → Bool
known_before none d = false
known_before (some a) d = ltb (ordinal a) (ordinal d)

abbrev pub known_after : Option Date → Date → Bool
known_after none d = false
known_after (some a) d = ltb (ordinal d) (ordinal a)

-- `lower and upper and start <= lower <= upper <= end`
abbrev pub contained : Option Date → Option Date → Window → Bool
contained (some a) (some b) w =
    leb (ordinal w.start) (ordinal a)
    && leb (ordinal a) (ordinal b)
    && leb (ordinal b) (ordinal w.end)
contained _ _ w = false

unfoldable pub membership : TimeRange → Window → Membership
membership t w =
    if known_before t.upper w.start || known_after t.lower w.end
    then outside
    else if contained t.lower t.upper w
    then inside
    else indeterminate
