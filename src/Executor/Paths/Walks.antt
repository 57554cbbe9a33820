-- ===== src/Executor/Paths/Walks.antt =====
-- The paths that `Executor.paths` of src/kdiff/analysis/graph_program.py looks for, described
-- without its queue, and what one round of its inner loop adds.
use knowledge_diffusion.Base.{In, any, false, length, member, not, ok, some, true, ◌<◌, ◌==◌, ◌≡◌}
use knowledge_diffusion.Time
use knowledge_diffusion.Time.{Window, Membership, membership}
use knowledge_diffusion.Graph.{Assertion}
use knowledge_diffusion.Values.{FoundPath, same_relation}
use knowledge_diffusion.Program.{PathArgs}
use knowledge_diffusion.Executor.{Executor, target_of}
use knowledge_diffusion.Executor.Paths.{Item, Span, span_at, path_of, next_item, comes_early}

-- An assertion that continues a path: it starts where the path ends, is of a relation asked for,
-- lies in the window, and does not come before the path's last event where that matters.
pub record Continues (args : PathArgs) (w : Window) (item : Item) (a : Assertion) (t : Span)
    : Type 0 where
  pub from_end : target_of (not args.out) a ≡ item.at
  pub asked : any (same_relation a.relation) args.relations ≡ true
  pub in_window : membership a.valid_time w ≡ Time.inside
  pub dated : span_at a.valid_time ≡ some t
  pub in_time : comes_early args item.previous t ≡ false

-- The paths that start with an entry of the queue: of no more assertions than the limit of hops, they
-- end with the first assertion that reaches the target, and visit no entity before that one that
-- they have visited already. The target itself may be where they started.
pub data Leads (x : Executor) (args : PathArgs) (w : Window) : Item → FoundPath → Type 0 where
  arrives :
      {item : Item} {p : FoundPath} (a : Assertion) (t : Span)
      → length item.trail < args.max_hops
      → In a x.edges
      → Continues args w item a t
      → (target_of args.out a == args.target_id) ≡ true
      → path_of args item a t ≡ ok p
      → Leads x args w item p
  goes_on :
      {item : Item} {p : FoundPath} (a : Assertion) (t : Span)
      → length item.trail < args.max_hops
      → In a x.edges
      → Continues args w item a t
      → (target_of args.out a == args.target_id) ≡ false
      → member (target_of args.out a) item.vertices ≡ false
      → Leads x args w (next_item args item a t) p
      → Leads x args w item p
