-- ===== src/Witness/Papers.antt =====
-- What `count_from_release` of src/kdiff/analysis/witness.py counts.
use knowledge_diffusion.Base.{
  ==→eq, >>=-eq-ok, Bool, Bool-cases, In, In-select, Key, List, Result, Unique, Unique-first_seen,
  Unique-select, Unique-sorted, [], ap, arith, err, false, if◌then◌else◌, inl, inr, length,
  length-sorted, map, member, member-first_seen, member-map, member-select, member-sorted, not, ok,
  ok-injective, raise_if, select, select-In, sorted, sym, true, ◌&&◌, ◌==◌, ◌↔◌, ◌∙◌, ◌∷◌, ◌≡◌,
}
use mathlib.Core.Path.{subst}
use knowledge_diffusion.Time
use knowledge_diffusion.Time.{Window, Membership, membership}
use knowledge_diffusion.Graph
use knowledge_diffusion.Graph.{Assertion, rank}
use knowledge_diffusion.Values.{same_relation-eq}
use knowledge_diffusion.Executor.Counting.{tally, group_of, objects_of, all_inside, all_outside}
use knowledge_diffusion.Executor.Counting.Loops.{tally-select}
use knowledge_diffusion.Witness
use knowledge_diffusion.Witness.{
  check_order, check_grammar, CountRequest, CountProgram, WitnessError, valid_count, count_program,
}
use knowledge_diffusion.Witness.Counts.{
  FrozenGraph, Evidence, count_from_release, authorships, is_authorship, kind_is, entity_at,
  or_insufficient,
}
use knowledge_diffusion.Executor
use knowledge_diffusion.Executor.{target_of, is_inside}
use knowledge_diffusion.Executor.Counting.{is_outside}
use knowledge_diffusion.Executor.Counting.Exactness.{is_inside-eq, is_outside-eq, all-In}

authorships-select :
    (g : FrozenGraph) (author : Key) (rows kept : List Assertion)
    → authorships g author rows ≡ ok kept
    → kept ≡ select (is_authorship author) rows
unfolding authorships
authorships-select g author [] kept h = sym (ok-injective h)
authorships-select g author (a ∷ rows) kept h =
    let (_, _, h1) =
      >>=-eq-ok
        (raise_if (is_authorship author a && not (kind_is Graph.paper (entity_at g a.tail_id)))
          Witness.missing_paper)
        _ h in
    let (rest, e, last) = >>=-eq-ok (authorships g author rows) _ h1 in
    sym (ok-injective last)
    ∙ ap (λ l. if is_authorship author a then a ∷ l else l)
        (authorships-select g author rows rest e)

or_insufficient-eq :
    {A : Type 0} (r : Result Executor.ExecError A) (a : A) → or_insufficient r ≡ ok a → r ≡ ok a
or_insufficient-eq (ok b) a h = ap ok (ok-injective h)
or_insufficient-eq (err e) a h = cc

-- An authorship that the graph records.
pub record Wrote (g : FrozenGraph) (author paper : Key) (a : Assertion) : Type 0 where
  pub recorded : In a g.assertions
  pub relation : a.relation ≡ Graph.author_of
  pub head : a.head_id ≡ author
  pub tail : a.tail_id ≡ paper

-- The count of an author's papers in a window, each once; the authorships of a paper that is not
-- counted all lie outside.
pub record Papers (g : FrozenGraph) (request : CountRequest) (e : Evidence) : Type 0 where
  pub count : e.count ≡ length e.paper_ids
  pub once : Unique e.paper_ids
  pub exact :
      (paper : Key)
      → (member paper e.paper_ids ≡ true) ↔ (
          (a : Assertion) × Wrote g request.author_id paper a
          × (membership a.valid_time request.window ≡ Time.inside))
  pub agreed :
      (paper : Key) (a : Assertion)
      → Wrote g request.author_id paper a
      → membership a.valid_time request.window
        ≡ (if member paper e.paper_ids then Time.inside else Time.outside)

module _ (g : FrozenGraph) (request : CountRequest) where
  abbrev rows : List Assertion
  rows = select (is_authorship request.author_id) g.assertions

  abbrev papers : List Key
  papers = objects_of true rows

  Wrote-group :
      (p : Key) (a : Assertion) → Wrote g request.author_id p a ↔ In a (group_of true rows p)
  Wrote-group p a = (
    λ s.
        select-In (λ r. r.tail_id == p) a rows
          (select-In (is_authorship request.author_id) a g.assertions s.recorded
            (ground (arith, ap rank s.relation, s.head)))
          (ground (arith, s.tail)),
    λ i.
        let (k, same) = In-select (λ r. r.tail_id == p) a rows i in
        let (r, good) = In-select (is_authorship request.author_id) a g.assertions k in
        record {
          recorded = r;
          relation = same_relation-eq a.relation Graph.author_of (ground (arith, good));
          head = ==→eq a.head_id request.author_id (ground (arith, good));
          tail = ==→eq a.tail_id p same;
        },
  )

  Wrote-papers : (p : Key) (a : Assertion) → Wrote g request.author_id p a → member p papers ≡ true
  Wrote-papers p a s =
      member-first_seen p (map (target_of true) rows)
      ∙ (member-map (target_of true) p rows).1
          (a, (In-select (λ r. r.tail_id == p) a rows ((Wrote-group p a).0 s)).0, s.tail)

  paper_author :
      (p : Key) → member p papers ≡ true → (a : Assertion) × Wrote g request.author_id p a
  paper_author p m =
      let (a, i, t) =
        (member-map (target_of true) p rows).0
          (sym (member-first_seen p (map (target_of true) rows)) ∙ m) in
      (a, (Wrote-group p a).1 (select-In (λ r. r.tail_id == p) a rows i (ground (arith, t))))

  in_window :
      (p : Key) (a : Assertion)
      → Wrote g request.author_id p a
      → all_inside request.window (group_of true rows p) ≡ true
      → membership a.valid_time request.window ≡ Time.inside
  in_window p a s h = is_inside-eq (membership a.valid_time request.window) (
      all-In (λ r. is_inside (membership r.valid_time request.window)) (group_of true rows p) h a
        ((Wrote-group p a).0 s))

  off_window :
      (p : Key) (a : Assertion)
      → Wrote g request.author_id p a
      → all_outside request.window (group_of true rows p) ≡ true
      → membership a.valid_time request.window ≡ Time.outside
  off_window p a s h = is_outside-eq (membership a.valid_time request.window) (
      all-In (λ r. is_outside (membership r.valid_time request.window)) (group_of true rows p) h a
        ((Wrote-group p a).0 s))

  tallied_papers :
      (e : Evidence) (selected : List Key)
      → e.count ≡ length selected
      → e.paper_ids ≡ sorted selected
      → selected ≡ select (λ p. all_inside request.window (group_of true rows p)) papers
      → ((p : Key)
          → member p papers ≡ true
          → all_inside request.window (group_of true rows p) ≡ false
          → all_outside request.window (group_of true rows p) ≡ true)
      → Papers g request e
  tallied_papers e selected size ids same others =
      let inside : Key → Bool = λ p. all_inside request.window (group_of true rows p) in
      let found : (p : Key) → member p e.paper_ids ≡ (member p papers && inside p) = λ p.
        ap (member p) ids
        ∙ member-sorted p selected
        ∙ ap (member p) same
        ∙ member-select inside p papers in
      record {
        count = size ∙ sym (ap length ids ∙ length-sorted selected);
        once = subst Unique (sym (ids ∙ ap sorted same)) (
            Unique-sorted (select inside papers)
              (Unique-select inside papers (Unique-first_seen (map (target_of true) rows))));
        exact = λ p. (
          λ m.
              let both : (member p papers && inside p) ≡ true = sym (found p) ∙ m in
              let (a, s) = paper_author p (ground (arith, both)) in
              (a, s, in_window p a s (ground (arith, both))),
          λ (a, s, i). elim (Bool-cases (inside p)) [
            | inl b ↦ ground (arith, found p, Wrote-papers p a s, b)
            | inr b ↦ absurd (ground (arith, i, off_window p a s (others p (Wrote-papers p a s) b)))
          ],
        );
        agreed = λ p a s. elim (Bool-cases (inside p)) [
          | inl b ↦
              let m : member p e.paper_ids ≡ true =
                ground (arith, found p, Wrote-papers p a s, b) in
              rw m (in_window p a s b)
          | inr b ↦
              let m : member p e.paper_ids ≡ false = ground (arith, found p, b) in
              rw m (off_window p a s (others p (Wrote-papers p a s) b))
        ];
      }

-- A count over a release that ends with evidence counts exactly the papers of the author that the
-- graph dates inside the window, each once, and no paper with an authorship dated elsewhere.
pub count_from_release-Papers :
    (g : FrozenGraph) (request : CountRequest) (e : Evidence)
    → count_from_release g request ≡ ok e
    → Papers g request e
unfolding count_from_release
count_from_release-Papers g request e h =
    let (_, _, h1) =
      >>=-eq-ok
        (raise_if (not (kind_is Graph.author (entity_at g request.author_id))) Witness.no_author) _
        h in
    let (kept, k, h2) = >>=-eq-ok (authorships g request.author_id g.assertions) _ h1 in
    let (counted, c, last) =
      >>=-eq-ok
        (or_insufficient
          (tally false (group_of true kept) request.window (objects_of true kept) []))
        _ h2 in
    let same = authorships-select g request.author_id g.assertions kept k in
    let tallied : tally false (group_of true (rows g request)) request.window (papers g request) []
        ≡ ok counted =
      subst (λ l. tally false (group_of true l) request.window (objects_of true l) [] ≡ ok counted)
        same (or_insufficient-eq _ counted c) in
    let (selected, others) = tally-select false _ request.window _ [] counted tallied in
    tallied_papers g request e counted.0 (ground (arith, last)) (ground (arith, last)) selected
      others
