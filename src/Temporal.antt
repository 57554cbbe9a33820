-- ===== src/Temporal.antt =====
-- `endpoints` and `active_status` of src/kdiff/analysis/temporal.py; the children have `event_trace`
-- and `return_moves`.
-- A TimeRange stands for a record that its validator has accepted.
pub mod Trace
pub mod Moves
pub mod Status
pub mod Printing
pub mod Itineraries
mod Examples
use knowledge_diffusion.Base.{
  Bool, List, Option, Result, [], false, if◌then◌else◌, leb, ltb, none, ok, some, true, ℕ, ◌%◌,
  ◌&&◌, ◌+◌, ◌/◌, ◌>>=◌, ◌>>◌, ◌||◌, ◌∷◌,
}
use knowledge_diffusion.Time
use knowledge_diffusion.Time.{Date, TimeRange, TimeError, EndKind, Window, ordinal, unknown_range}
use knowledge_diffusion.Time.Parsing.{parse}
use knowledge_diffusion.Graph.{Assertion}

abbrev pub digit : ℕ → ℕ
digit n = n % 10 + 48

-- `date.isoformat()`
unfoldable pub iso_text : Date → List ℕ
iso_text d =
    digit (d.year / 1000)
    ∷ digit (d.year / 100)
    ∷ digit (d.year / 10)
    ∷ digit d.year
    ∷ b'-'
    ∷ digit (d.month / 10)
    ∷ digit d.month
    ∷ b'-'
    ∷ digit (d.day / 10)
    ∷ digit d.day
    ∷ []

-- `TimeRange.parse(d.isoformat()) if d else TimeRange()`
abbrev pub day_of : Option Date → Result TimeError TimeRange
day_of none = ok unknown_range
day_of (some d) = parse (some (iso_text d))

abbrev pub is_interval : Time.Precision → Bool
is_interval Time.interval = true
is_interval _ = false

abbrev pub start_of : Option TimeRange → TimeRange → Result TimeError TimeRange
start_of (some given) valid_time = ok given
start_of none valid_time =
    if is_interval valid_time.precision then day_of valid_time.lower else ok valid_time

abbrev pub end_of : Option TimeRange → TimeRange → Result TimeError TimeRange
end_of (some given) valid_time = ok given
end_of none valid_time =
    if is_interval valid_time.precision then day_of valid_time.upper else ok unknown_range

pub record Endpoints : Type 0 where
  pub start : TimeRange
  pub end : TimeRange
  pub end_kind : EndKind

unfoldable pub endpoints : Assertion → Result TimeError Endpoints
endpoints a = do
  start ← start_of a.qualifiers.start_uncertainty a.valid_time
  end ← end_of a.qualifiers.end_uncertainty a.valid_time
  ok (record { start = start; end = end; end_kind = a.valid_time.end_kind })

pub data Activity : Type 0 where
  active inactive unknown_activity : Activity

-- `a and a <= d`, `b and d <= b`
abbrev pub reached : Option Date → Date → Bool
reached none d = false
reached (some a) d = leb (ordinal a) (ordinal d)

abbrev pub not_passed : Option Date → Date → Bool
not_passed none d = false
not_passed (some b) d = leb (ordinal d) (ordinal b)

-- `active_status`, after `endpoints`.
unfoldable pub activity : Endpoints → Date → Date → Activity
activity e at reference_date =
    if ltb (ordinal reference_date) (ordinal at)
    then unknown_activity
    else if Time.known_after e.start.lower at || Time.known_before e.end.upper at
    then inactive
    else if reached e.start.upper at && (not_passed e.end.lower at || Time.is_ongoing e.end_kind)
    then active
    else unknown_activity

unfoldable pub active_status : Assertion → Date → Date → Result TimeError Activity
unfolding endpoints activity
active_status a at reference_date = do e ← endpoints a; ok (activity e at reference_date)
