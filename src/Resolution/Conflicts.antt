-- ===== src/Resolution/Conflicts.antt =====
-- `conflict_view` of src/kdiff/construction/resolution.py.
-- The hash of a time is its key, `valid_time`.
use knowledge_diffusion.Base.{
  Bool, Key, List, [], distinct, if◌then◌else◌, length, ltb, map, select, sorted, ◌&&◌, ◌++◌, ◌==◌,
  ◌∷◌,
}
use knowledge_diffusion.Resolution.Remapping.{AssertionRow}

abbrev pub same_triple : AssertionRow → AssertionRow → Bool
same_triple a b =
    a.body.head_id == b.body.head_id
    && a.body.relation == b.body.relation
    && a.body.tail_id == b.body.tail_id

-- `groups.setdefault(triple, []).append(a)`: a group's triple is that of its first assertion.
abbrev pub Groups : Type 0
Groups = List (AssertionRow × List AssertionRow)

abbrev pub put_group : AssertionRow → Groups → Groups
put_group a [] = (a, a ∷ []) ∷ []
put_group a ((g, rows) ∷ groups) =
    let rest = put_group a groups in
    if same_triple g a then (g, rows ++ a ∷ []) ∷ groups else (g, rows) ∷ rest

unfoldable pub groups_onto : Groups → List AssertionRow → Groups
groups_onto groups [] = groups
groups_onto groups (a ∷ rows) = groups_onto (put_group a groups) rows

-- `len({digest(a['valid_time']) for a in group}) > 1`
abbrev pub disagree : List AssertionRow → Bool
disagree rows = ltb 1 (length (distinct (map (λ a. a.body.valid_time) rows)))

abbrev pub flagged : Groups → Groups
flagged groups = select (λ g. disagree g.1) groups

-- The identifiers of each flagged group; the other fields of an entry are constants.
unfoldable pub conflict_view : List AssertionRow → List (List Key)
conflict_view rows =
    map (λ g. sorted (map (λ a. a.assertion_id) g.1)) (flagged (groups_onto [] rows))
