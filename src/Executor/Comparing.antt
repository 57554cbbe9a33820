-- ===== src/Executor/Comparing.antt =====
-- The branch 'CompareWindows' of `Executor.execute` in src/kdiff/analysis/graph_program.py, with the
-- reduced fraction that Python's `Fraction` keeps.
pub mod Ratios
use knowledge_diffusion.Base.{
  Bool, Key, Option, Result, err, false, gcd, if◌then◌else◌, ltb, none, not, ok, pos, raise_if,
  some, sub_ℕ, true, ℕ, ℤ, ◌&&◌, ◌+◌, ◌/◌, ◌==◌, ◌>>=◌, ◌>>◌,
}
use knowledge_diffusion.Time.{Window, ordinal}
use knowledge_diffusion.Graph
use knowledge_diffusion.Values
use knowledge_diffusion.Values.{Value, AggregateValue, Operation, ComparisonValue}
use knowledge_diffusion.Claims.{Pool}
use knowledge_diffusion.Program.{CompareArgs, by_authorship}
use knowledge_diffusion.Executor.{
  ExecError, value_at, type_error, incompatible_policies, incomparable_windows, unmatched_windows,
  zero_denominator,
}

abbrev pub as_aggregate : Value → Result ExecError AggregateValue
as_aggregate (Values.aggregate a) = ok a
as_aggregate _ = err type_error

abbrev pub same_key : Option Key → Option Key → Bool
same_key none none = true
same_key (some j) (some k) = j == k
same_key _ _ = false

-- Two aggregates of one policy; the field 'policy' has one value only.
abbrev pub same_policy : AggregateValue → AggregateValue → Bool
same_policy a b =
    Graph.same_kind a.unit b.unit
    && (if by_authorship a.attribution
        then by_authorship b.attribution
        else not (by_authorship b.attribution))
    && same_key a.institution_id b.institution_id
    && same_key a.topic_id b.topic_id
    && same_key a.source b.source

-- The later window follows the earlier one, and both have one reference date.
abbrev pub follows : Window → Window → Bool
follows a b =
    ordinal a.reference_date == ordinal b.reference_date && ltb (ordinal a.end) (ordinal b.start)

-- The years that a window spans; its validator has ordered its dates.
abbrev pub matched : Window → Window → Bool
matched a b =
    a.start.month == b.start.month
    && a.start.day == b.start.day
    && a.end.month == b.end.month
    && a.end.day == b.end.day
    && a.end.year + b.start.year == b.end.year + a.start.year

abbrev pub is_ratio : Operation → Bool
is_ratio Values.ratio = true
is_ratio _ = false

-- `Fraction(right, left)` in lowest terms, or `Fraction(right - left)`.
abbrev pub quotient : Operation → ℕ → ℕ → ℤ × ℕ
quotient Values.ratio left right = (pos (right / gcd right left), left / gcd right left)
quotient Values.difference left right = (sub_ℕ right left, 1)

unfoldable pub compare : CompareArgs → Pool → Result ExecError Value
compare args values = do
  l ← value_at values args.left
  r ← value_at values args.right
  left ← as_aggregate l
  right ← as_aggregate r
  raise_if (not (same_policy left right)) incompatible_policies
  raise_if (not (follows left.window right.window)) incomparable_windows
  raise_if (args.matched_year_windows && not (matched left.window right.window)) unmatched_windows
  raise_if (is_ratio args.operation && left.value == 0) zero_denominator
  let value = quotient args.operation left.value right.value
  ok (
      Values.comparison (record {
        operation = args.operation;
        numerator = value.0;
        denominator = value.1;
        before = left;
        after = right;
      }))
