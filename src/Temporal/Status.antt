-- ===== src/Temporal/Status.antt =====
-- What `active_status` of src/kdiff/analysis/temporal.py says of the dates that the endpoints admit.
use knowledge_diffusion.Base.{arith, ◌<◌, ◌≡◌, ◌≤◌, ◌⊎◌}
use knowledge_diffusion.Time
use knowledge_diffusion.Time.{Date, TimeRange, ordinal}
use knowledge_diffusion.Time.Placement.{Admits}
use knowledge_diffusion.Temporal.{Endpoints, Activity, active, inactive, unknown_activity, activity}

-- A status as a statement about an actual start and an actual end.
abbrev pub Says : Activity → Endpoints → Date → Date → Date → Date → Type 0
Says active e at reference start end =
    (ordinal at ≤ ordinal reference)
    × (ordinal start ≤ ordinal at)
    × ((ordinal at ≤ ordinal end) ⊎ (e.end_kind ≡ Time.ongoing))
Says inactive e at reference start end =
    (ordinal at ≤ ordinal reference) × ((ordinal at < ordinal start) ⊎ (ordinal end < ordinal at))
Says unknown_activity e at reference start end = Unit

-- Of every start and every end that the endpoints of an affiliation admit, `active` says rightly
-- that the date is not before the start, and not after the end or the affiliation is ongoing, and
-- `inactive` that it is before the start or after the end; both only up to the reference date.
pub activity-Says :
    (e : Endpoints) (at reference start end : Date)
    → Admits e.start start
    → Admits e.end end
    → Says (activity e at reference) e at reference start end
unfolding activity
activity-Says e at reference start end s f = ground arith
