-- ===== src/Temporal/Itineraries.antt =====
-- What a documented return of src/kdiff/analysis/temporal.py shows.
use knowledge_diffusion.Base.{
  All, In, In-permutations_3, Key, List, Option, Option-cases, [], ap, arith, false, inl, inr, none,
  ok, permutations_3, pos, refl, some, sub_ℕ, sym, true, ℕ, ◌+◌, ◌-◌, ◌<◌, ◌∙◌, ◌∷◌, ◌≡◌, ◌≢◌, ◌≤◌,
}
use mathlib.Core.Path.{subst}
use knowledge_diffusion.Time
use knowledge_diffusion.Time.{Date, TimeRange, Window, ordinal}
use knowledge_diffusion.Time.Placement.{Admits}
use knowledge_diffusion.Graph.{Assertion, Entity}
use knowledge_diffusion.Values.{TraceEvent, ReturnMove, Trace, Returns}
use knowledge_diffusion.Temporal.Trace.{event_trace}
use knowledge_diffusion.Temporal.Moves
use knowledge_diffusion.Temporal.Moves.{Dated, consider, find_moves, return_moves, judge, all_dated}

-- The dates of an itinerary: started at the first, left it, started at the second, left it,
-- started at the third.
pub record Stay : Type 0 where
  pub first_start : Date
  pub first_end : Date
  pub second_start : Date
  pub second_end : Date
  pub third_start : Date

pub record Fits (a b c : TraceEvent) (s : Stay) : Type 0 where
  pub first_starts : Admits a.start s.first_start
  pub first_ends : Admits a.end s.first_end
  pub second_starts : Admits b.start s.second_start
  pub second_ends : Admits b.end s.second_end
  pub third_starts : Admits c.start s.third_start

-- A return from the first institution over another one, each left before the next was joined,
-- within the window, with bounds on the days between the two arrivals, that names the institutions
-- and the assertions of its three events.
pub record Returned (w : Window) (a b c : TraceEvent) (m : ReturnMove) (s : Stay) : Type 0 where
  pub institutions : m.institutions ≡ a.institution_id ∷ b.institution_id ∷ c.institution_id ∷ []
  pub assertions : m.assertions ≡ a.assertion_id ∷ b.assertion_id ∷ c.assertion_id ∷ []
  pub back : a.institution_id ≡ c.institution_id
  pub away : b.institution_id ≢ a.institution_id
  pub first_left : ordinal s.first_end < ordinal s.second_start
  pub second_left : ordinal s.second_end < ordinal s.third_start
  pub in_order :
      (ordinal s.first_start < ordinal s.second_start)
      × (ordinal s.second_start < ordinal s.third_start)
  pub in_window :
      (ordinal w.start ≤ ordinal s.first_start) × (ordinal s.third_start ≤ ordinal w.end)
  pub at_least : ordinal s.first_start + m.minimum_days ≤ ordinal s.third_start
  pub at_most :
      (days : ℕ) × (m.maximum_days ≡ pos days)
      × (ordinal s.third_start ≤ ordinal s.first_start + days)

Admits-bounds :
    (t : TimeRange) (lo hi d : Date)
    → t.lower ≡ some lo
    → t.upper ≡ some hi
    → Admits t d
    → (ordinal lo ≤ ordinal d) × (ordinal d ≤ ordinal hi)
Admits-bounds t lo hi d el eh h = ground arith

Admits-before :
    (t : TimeRange) (d e : Date)
    → Admits t d
    → Time.known_before t.upper e ≡ true
    → ordinal d < ordinal e
Admits-before t d e h k = ground arith

dated_event-eq-some :
    (e : TraceEvent) (lower upper : Option Date) (x : Dated)
    → Moves.dated_event e lower upper ≡ some x
    → (x.event ≡ e) × (lower ≡ some x.lower) × (upper ≡ some x.upper)
dated_event-eq-some e none upper x h = cc
dated_event-eq-some e (some lower) none x h = cc
dated_event-eq-some e (some lower) (some upper) x h = ground arith

all_known-eq-some :
    (p q r : Option Dated) (x y z : Dated)
    → Moves.all_known p q r ≡ some (x, y, z)
    → (p ≡ some x) × (q ≡ some y) × (r ≡ some z)
all_known-eq-some none q r x y z h = cc
all_known-eq-some (some p) none r x y z h = cc
all_known-eq-some (some p) (some q) none x y z h = cc
all_known-eq-some (some p) (some q) (some r) x y z h = ground arith

judge-Returned :
    (w : Window) (x y z : Dated) (m : ReturnMove)
    → judge w (some (x, y, z)) ≡ some (true, m)
    → (Moves.is_certain w x y z ≡ true) × (m ≡ Moves.move_of x y z)
judge-Returned w x y z m h = ground arith

-- The bounds of the three starts, as facts.
consider-eq-some :
    (w : Window) (a b c : TraceEvent) (m : ReturnMove)
    → consider w (a, b, c) ≡ some (true, m)
    → (Moves.comes_back (a, b, c) ≡ true)
      × ((x : Dated) × (y : Dated) × (z : Dated) × (all_dated (a, b, c) ≡ some (x, y, z))
          × (Moves.is_certain w x y z ≡ true)
          × (m ≡ Moves.move_of x y z))
unfolding consider
consider-eq-some w a b c m h = elim (Option-cases (all_dated (a, b, c))) [
  | inl e ↦ ground (arith, e)
  | inr ((x, y, z), e) ↦
      let judged : judge w (some (x, y, z)) ≡ some (true, m) = ground (arith, e) in
      let (certain, same) = judge-Returned w x y z m judged in
      (ground arith, (x, y, z, e, certain, same))
]

three_of :
    {x y z a b c : TraceEvent} (f : TraceEvent → Key)
    → x ≡ a
    → y ≡ b
    → z ≡ c
    → ◌≡◌ {A = List Key} (f x ∷ f y ∷ f z ∷ []) (f a ∷ f b ∷ f c ∷ [])
three_of f p q r = rw (p, q, r) refl

sub_ℕ-le : (a b : ℕ) → b ≤ a → sub_ℕ a b ≡ pos (a - b)
sub_ℕ-le a b h = ground (arith, h)

certain_order :
    (w : Window) (x y z : Dated)
    → Moves.is_certain w x y z ≡ true
    → (ordinal x.upper < ordinal y.lower)
      × (ordinal y.upper < ordinal z.lower)
      × (ordinal w.start ≤ ordinal x.lower)
      × (ordinal z.upper ≤ ordinal w.end)
certain_order w x y z h = ground arith

-- A triple of events that is judged a certain return shows one, whatever the actual dates are
-- that its events admit.
consider-Returned :
    (w : Window) (a b c : TraceEvent) (m : ReturnMove) (s : Stay)
    → consider w (a, b, c) ≡ some (true, m)
    → Fits a b c s
    → Returned w a b c m s
consider-Returned w a b c m s h f =
    let (back, (x, y, z, e, certain, same)) = consider-eq-some w a b c m h in
    let (ex, ey, ez) =
      all_known-eq-some (Moves.dated_event a a.start.lower a.start.upper)
        (Moves.dated_event b b.start.lower b.start.upper)
        (Moves.dated_event c c.start.lower c.start.upper) x y z e in
    let (xa, xl, xu) = dated_event-eq-some a a.start.lower a.start.upper x ex in
    let (yb, yl, yu) = dated_event-eq-some b b.start.lower b.start.upper y ey in
    let (zc, zl, zu) = dated_event-eq-some c c.start.lower c.start.upper z ez in
    let first = Admits-bounds a.start x.lower x.upper s.first_start xl xu f.first_starts in
    let second = Admits-bounds b.start y.lower y.upper s.second_start yl yu f.second_starts in
    let third = Admits-bounds c.start z.lower z.upper s.third_start zl zu f.third_starts in
    let gone : Time.known_before a.end.upper y.lower ≡ true = ground (arith, certain, xa) in
    let gone' : Time.known_before b.end.upper z.lower ≡ true = ground (arith, certain, yb) in
    let left = Admits-before a.end s.first_end y.lower f.first_ends gone in
    let left' = Admits-before b.end s.second_end z.lower f.second_ends gone' in
    let ordered = certain_order w x y z certain in
    record {
      institutions = ap (λ r. r.institutions) same ∙ three_of (λ e. e.institution_id) xa yb zc;
      assertions = ap (λ r. r.assertions) same ∙ three_of (λ e. e.assertion_id) xa yb zc;
      back = ground (arith, back);
      away = ground (arith, back);
      first_left = omega (arith, left, second);
      second_left = omega (arith, left', third);
      in_order = omega (arith, ordered, first, second, third);
      in_window = omega (arith, ordered, first, third);
      at_least = omega (arith, ordered, first, second, third, ap (λ r. r.minimum_days) same);
      at_most = (
        ordinal z.upper - ordinal x.lower,
        ap (λ r. r.maximum_days) same
            ∙ sub_ℕ-le (ordinal z.upper) (ordinal x.lower)
                (omega (arith, ordered, first, second, third)),
        omega (arith, first, third),
      );
    }

find_moves-In :
    (w : Window) (m : ReturnMove) (triples : List (TraceEvent × TraceEvent × TraceEvent))
    → In m (find_moves w triples).0
    → (t : TraceEvent × TraceEvent × TraceEvent) × In t triples × (consider w t ≡ some (true, m))
unfolding find_moves
find_moves-In w m [] h = absurd h
find_moves-In w m (t ∷ triples) h = elim (Option-cases (consider w t)) [
  | inl e ↦ let (u, a, b) = find_moves-In w m triples (rw e at h) in (u, inr a, b)
  | inr ((true, n), e) ↦ elim (rw e at h) [
    | inl same ↦ (t, inl refl, e ∙ ap (λ k. some (true, k)) (sym same))
    | inr k ↦ let (u, a, b) = find_moves-In w m triples k in (u, inr a, b)
  ]
  | inr ((false, n), e) ↦ let (u, a, b) = find_moves-In w m triples (rw e at h) in (u, inr a, b)
]

All-at : {A : Type 0} (P : A → Type 0) (xs : List A) (x : A) → All P xs → In x xs → P x
All-at P [] x h i = absurd i
All-at P (y ∷ ys) x h (inl e) = subst P (sym e) h.0
All-at P (y ∷ ys) x h (inr i) = All-at P ys x h.1 i

-- The actual dates of events, which their ranges admit.
pub record Dates : Type 0 where
  pub start : TraceEvent → Date
  pub end : TraceEvent → Date

abbrev pub Agrees : Dates → TraceEvent → Type 0
Agrees dates e = Admits e.start (dates.start e) × Admits e.end (dates.end e)

abbrev pub stay_of : Dates → TraceEvent → TraceEvent → TraceEvent → Stay
stay_of dates a b c = record {
  first_start = dates.start a;
  first_end = dates.end a;
  second_start = dates.start b;
  second_end = dates.end b;
  third_start = dates.start c;
}

-- Whatever the actual dates are that the events of the author's trace admit, every return that
-- `return_moves` reports is shown by three of them, whose institutions and assertions it names: the
-- author was at one institution, left it, was at another, left that and came back, in this order and
-- within the window, and the days between the two arrivals lie between the reported bounds.
pub return_moves-Returned :
    (entities : List Entity) (edges : List Assertion) (author : Key) (w : Window) (trace : Trace)
    (r : Returns) (m : ReturnMove) (dates : Dates)
    → event_trace entities edges author w ≡ ok trace
    → return_moves entities edges author w ≡ ok r
    → In m r.returns
    → All (Agrees dates) trace.events
    → (a : TraceEvent) × (b : TraceEvent) × (c : TraceEvent) × (In a trace.events
        × In b trace.events
        × In c trace.events)
      × Returned w a b c m (stay_of dates a b c)
unfolding return_moves
return_moves-Returned entities edges author w trace r m dates e h k agree =
    let found : r.returns ≡ (find_moves w (permutations_3 trace.events)).0 = ground (arith, e, h) in
    let ((a, b, c), t, judged) =
      find_moves-In w m (permutations_3 trace.events) (subst (λ l. In m l) found k) in
    let (ia, ib, ic) = In-permutations_3 a b c trace.events t in
    let at : (e : TraceEvent) → In e trace.events → Agrees dates e =
      λ e i. All-at (Agrees dates) trace.events e agree i in
    (
      a,
      b,
      c,
      (ia, ib, ic),
      consider-Returned w a b c m (stay_of dates a b c) judged (record {
        first_starts = (at a ia).0;
        first_ends = (at a ia).1;
        second_starts = (at b ib).0;
        second_ends = (at b ib).1;
        third_starts = (at c ic).0;
      }),
    )
