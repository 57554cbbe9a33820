-- ===== src/Executor/Counting/Exactness.antt =====
-- What `Executor.aggregate` of src/kdiff/analysis/graph_program.py counts.
use knowledge_diffusion.Base.{
  ==→eq, >>=-eq-ok, Bool, Bool-cases, In, In-select, Key, List, Unique, Unique-first_seen,
  Unique-select, Unique-sorted, [], all, ap, arith, false, if◌then◌else◌, inl, inr, length,
  length-sorted, map, member, member-first_seen, member-map, member-select, member-sorted, ok,
  raise_if, select, select-In, sorted, sym, true, ◌&&◌, ◌==◌, ◌↔◌, ◌∙◌, ◌∷◌, ◌≡◌,
}
use mathlib.Core.Path.{subst}
use knowledge_diffusion.Time
use knowledge_diffusion.Time.{Window, Membership, membership}
use knowledge_diffusion.Graph.{Assertion}
use knowledge_diffusion.Values.{AggregateValue, EdgesValue}
use knowledge_diffusion.Program.{AggregateArgs}
use knowledge_diffusion.Executor
use knowledge_diffusion.Executor.{Executor, ExecError, target_of, rows_of, is_inside}
use knowledge_diffusion.Executor.Counting.{
  kept_rows, tally, count_rows, group_of, objects_of, all_inside, all_outside, is_attributed,
  has_topic, from_source, input_ids_of, windows_differ, lacks_source, is_outside,
}
use knowledge_diffusion.Executor.Counting.Loops.{is_kept, kept_rows-select, tally-select}

-- A row that counts for an object: of the source, the attribution and the topic that are asked for.
pub record Supports (x : Executor) (args : AggregateArgs) (is_tail : Bool) (rows : List Assertion)
    (object : Key) (a : Assertion) : Type 0 where
  pub recorded : In a (from_source args.source rows)
  pub attributed : is_attributed args a ≡ true
  pub on_topic : has_topic x args.topic_id object ≡ true
  pub target : target_of is_tail a ≡ object

-- The count is that of the objects with a supporting row inside the window, each once, and of none
-- of them is a supporting row elsewhere.
pub record Counted (x : Executor) (args : AggregateArgs) (is_tail : Bool) (rows : List Assertion)
    (w : Window) (v : AggregateValue) : Type 0 where
  pub value : v.value ≡ length v.ids
  pub once : Unique v.ids
  pub exact :
      (object : Key)
      → (member object v.ids ≡ true) ↔ (
          (a : Assertion) × Supports x args is_tail rows object a
          × (membership a.valid_time w ≡ Time.inside))
  pub agreed :
      (object : Key) (a : Assertion)
      → Supports x args is_tail rows object a
      → membership a.valid_time w ≡ (if member object v.ids then Time.inside else Time.outside)

pub is_inside-eq : (m : Membership) → is_inside m ≡ true → m ≡ Time.inside
is_inside-eq m h = ground arith

pub is_outside-eq : (m : Membership) → is_outside m ≡ true → m ≡ Time.outside
is_outside-eq m h = ground arith

pub all-In :
    {A : Type 0} (p : A → Bool) (xs : List A) → all p xs ≡ true → (x : A) → In x xs → p x ≡ true
all-In p [] h x i = absurd i
all-In p (y ∷ ys) h x (inl e) = ap p e ∙ ground (arith, h)
all-In p (y ∷ ys) h x (inr i) = all-In p ys (ground (arith, h)) x i

module _ (x : Executor) (args : AggregateArgs) (is_tail : Bool) (rows : List Assertion)
    (w : Window) where
  abbrev kept_of : List Assertion
  kept_of = select (is_kept x args is_tail) (from_source args.source rows)

  Supports-group :
      (object : Key) (a : Assertion)
      → Supports x args is_tail rows object a ↔ In a (group_of is_tail kept_of object)
  Supports-group object a = (
    λ s.
        let topic : has_topic x args.topic_id (target_of is_tail a) ≡ true =
          subst (λ o. has_topic x args.topic_id o ≡ true) (sym s.target) s.on_topic in
        select-In (λ r. target_of is_tail r == object) a kept_of
          (select-In (is_kept x args is_tail) a (from_source args.source rows) s.recorded
            (ground (arith, s.attributed, topic)))
          (ground (arith, s.target)),
    λ i.
        let (k, same) = In-select (λ r. target_of is_tail r == object) a kept_of i in
        let (r, good) = In-select (is_kept x args is_tail) a (from_source args.source rows) k in
        let target : target_of is_tail a ≡ object = ==→eq (target_of is_tail a) object same in
        record {
          recorded = r;
          attributed = ground (arith, good);
          on_topic = subst (λ o. has_topic x args.topic_id o ≡ true) target (ground (arith, good));
          target = target;
        },
  )

  -- The objects of the groups are those with a supporting row.
  Supports-object :
      (object : Key) (a : Assertion)
      → Supports x args is_tail rows object a
      → member object (objects_of is_tail kept_of) ≡ true
  Supports-object object a s =
      let i =
        (In-select (λ r. target_of is_tail r == object) a kept_of
          ((Supports-group object a).0 s)).0 in
      member-first_seen object (map (target_of is_tail) kept_of)
      ∙ (member-map (target_of is_tail) object kept_of).1 (a, i, s.target)

  object_support :
      (object : Key)
      → member object (objects_of is_tail kept_of) ≡ true
      → (a : Assertion) × Supports x args is_tail rows object a
  object_support object m =
      let (a, i, t) =
        (member-map (target_of is_tail) object kept_of).0
          (sym (member-first_seen object (map (target_of is_tail) kept_of)) ∙ m) in
      (
        a,
        (Supports-group object a).1
            (select-In (λ r. target_of is_tail r == object) a kept_of i (ground (arith, t))),
      )

  group_inside :
      (object : Key) (a : Assertion)
      → Supports x args is_tail rows object a
      → all_inside w (group_of is_tail kept_of object) ≡ true
      → membership a.valid_time w ≡ Time.inside
  group_inside object a s h = is_inside-eq (membership a.valid_time w) (
      all-In (λ r. is_inside (membership r.valid_time w)) (group_of is_tail kept_of object) h a
        ((Supports-group object a).0 s))

  group_outside :
      (object : Key) (a : Assertion)
      → Supports x args is_tail rows object a
      → all_outside w (group_of is_tail kept_of object) ≡ true
      → membership a.valid_time w ≡ Time.outside
  group_outside object a s h = is_outside-eq (membership a.valid_time w) (
      all-In (λ r. is_outside (membership r.valid_time w)) (group_of is_tail kept_of object) h a
        ((Supports-group object a).0 s))

  Counted-of :
      (v : AggregateValue) (selected : List Key)
      → v.value ≡ length selected
      → v.ids ≡ sorted selected
      → selected
        ≡ select (λ o. all_inside w (group_of is_tail kept_of o)) (objects_of is_tail kept_of)
      → ((o : Key)
          → member o (objects_of is_tail kept_of) ≡ true
          → all_inside w (group_of is_tail kept_of o) ≡ false
          → all_outside w (group_of is_tail kept_of o) ≡ true)
      → Counted x args is_tail rows w v
  Counted-of v selected size ids same others =
      let objects : List Key = objects_of is_tail kept_of in
      let inside : Key → Bool = λ o. all_inside w (group_of is_tail kept_of o) in
      let found : (o : Key) → member o v.ids ≡ (member o objects && inside o) = λ o.
        ap (member o) ids
        ∙ member-sorted o selected
        ∙ ap (member o) same
        ∙ member-select inside o objects in
      record {
        value = size ∙ sym (ap length ids ∙ length-sorted selected);
        once = subst Unique (sym (ids ∙ ap sorted same)) (
            Unique-sorted (select inside objects)
              (Unique-select inside objects (Unique-first_seen (map (target_of is_tail) kept_of))));
        exact = λ o. (
          λ m.
              let both : (member o objects && inside o) ≡ true = sym (found o) ∙ m in
              let (a, s) = object_support o (ground (arith, both)) in
              (a, s, group_inside o a s (ground (arith, both))),
          λ (a, s, i). elim (Bool-cases (inside o)) [
            | inl e ↦ ground (arith, found o, Supports-object o a s, e)
            | inr e ↦
                absurd (ground (arith, i, group_outside o a s (others o (Supports-object o a s) e)))
          ],
        );
        agreed = λ o a s. elim (Bool-cases (inside o)) [
          | inl e ↦
              let m : member o v.ids ≡ true = ground (arith, found o, Supports-object o a s, e) in
              rw m (group_inside o a s e)
          | inr e ↦
              let m : member o v.ids ≡ false = ground (arith, found o, e) in
              rw m (group_outside o a s (others o (Supports-object o a s) e))
        ];
      }

-- A count that ends with an answer counts exactly the objects that the rows support inside the
-- window, each once, whatever the order or the repetition of its rows; the rows of an object that
-- is not counted all lie outside.
pub count_rows-Counted :
    (x : Executor) (args : AggregateArgs) (e : EdgesValue) (w : Window) (rows : List Assertion)
    (v : AggregateValue)
    → rows_of x (input_ids_of e) ≡ ok rows
    → count_rows x args e w ≡ ok v
    → Counted x args e.target_is_tail rows w v
unfolding count_rows
count_rows-Counted x args e w rows v hr h =
    let (_, _, h1) =
      >>=-eq-ok (raise_if (windows_differ e.window w) Executor.windows_disagree) _ h in
    let (_, _, h2) =
      >>=-eq-ok (raise_if (lacks_source args.source x.graph.sources) Executor.source_absent) _
        (rw hr at h1) in
    let (kept, k, h3) =
      >>=-eq-ok (kept_rows x args e.target_is_tail (from_source args.source rows)) _ h2 in
    let (counted, c, last) =
      >>=-eq-ok
        (tally args.by_year (group_of e.target_is_tail kept) w (objects_of e.target_is_tail kept)
          [])
        _ h3 in
    let same = kept_rows-select x args e.target_is_tail (from_source args.source rows) kept k in
    let tallied =
      subst
        (λ l.
          tally args.by_year (group_of e.target_is_tail l) w (objects_of e.target_is_tail l) []
          ≡ ok counted)
        same c in
    let (selected, others) = tally-select args.by_year _ w _ [] counted tallied in
    Counted-of x args e.target_is_tail rows w v counted.0 (ground (arith, last))
      (ground (arith, last)) selected others
