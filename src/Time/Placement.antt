-- ===== src/Time/Placement.antt =====
-- What `membership` of src/kdiff/core/contracts.py says of the dates that a range admits.
use knowledge_diffusion.Base.{Bool-cases, Option, arith, inl, inr, ltb, none, some, ◌≡◌, ◌≤◌}
use knowledge_diffusion.Time.{
  Date, TimeRange, Window, Membership, inside, outside, indeterminate, ordinal, membership,
}

abbrev pub NotAfter : Option Date → Date → Type 0
NotAfter none d = Unit
NotAfter (some a) d = ordinal a ≤ ordinal d

abbrev pub NotBefore : Option Date → Date → Type 0
NotBefore none d = Unit
NotBefore (some b) d = ordinal d ≤ ordinal b

-- A date that the range does not rule out.
abbrev pub Admits : TimeRange → Date → Type 0
Admits t d = NotAfter t.lower d × NotBefore t.upper d

abbrev pub InWindow : Window → Date → Type 0
InWindow w d = (ordinal w.start ≤ ordinal d) × (ordinal d ≤ ordinal w.end)

-- A decision as a statement about every date.
abbrev pub Decides : Membership → TimeRange → Window → Date → Type 0
Decides inside t w d = InWindow w d
Decides outside t w d = ¬ InWindow w d
Decides indeterminate t w d = Unit

-- Of every date that a range admits, `inside` says rightly that it is in the window and `outside`
-- that it is not.
pub membership-Decides :
    (t : TimeRange) (w : Window) (d : Date) → Admits t d → Decides (membership t w) t w d
unfolding membership
membership-Decides t w d h = ground arith

-- Where both bounds are known and in order and the window is not reversed, `indeterminate` is
-- said only if the range admits a date in the window and a date that is not.
pub membership-indeterminate :
    (t : TimeRange) (w : Window) (a b : Date)
    → t.lower ≡ some a
    → t.upper ≡ some b
    → ordinal a ≤ ordinal b
    → ordinal w.start ≤ ordinal w.end
    → membership t w ≡ indeterminate
    → ((d : Date) × Admits t d × InWindow w d) × ((d : Date) × Admits t d × (¬ InWindow w d))
unfolding membership
membership-indeterminate t w a b la ub le fine h =
    elim (Bool-cases (ltb (ordinal a) (ordinal w.start))) [
      | inl early ↦ ((w.start, ground arith, ground arith), (a, ground arith, ground arith))
      | inr late ↦ ((a, ground arith, ground arith), (b, ground arith, ground arith))
    ]
