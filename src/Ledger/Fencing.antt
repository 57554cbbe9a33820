-- ===== src/Ledger/Fencing.antt =====
-- Fencing in src/kdiff/core/durable.py: which leases a transaction accepts, and for how long.
use mathlib.Core.Path.{subst}
use knowledge_diffusion.Base.{
  Key, List, Option, String, ap, arith, err, false, none, ok, refl, some, ℕ, ◌<◌, ◌∙◌, ◌≡◌,
}
use knowledge_diffusion.Ledger
use knowledge_diffusion.Ledger.{Db, Task, Lease, stale_lease}
use knowledge_diffusion.Ledger.Steps.{Op, run}
use knowledge_diffusion.Ledger.Table.{UniqueIds}
use knowledge_diffusion.Ledger.Evolution.{Settles, Later, Evolves, fenced-Fenced}
use knowledge_diffusion.Ledger.History.{run-Evolves}

Evolves-some :
    (a : Task) (o p : Option Task)
    → o ≡ some a
    → Evolves o p
    → (b : Task) × (p ≡ some b) × Later a b
Evolves-some a none p e h = cc
Evolves-some a (some x) none e h = absurd h
Evolves-some a (some x) (some b) e h = (b, refl, ground arith)

-- Where identifiers are unique, whatever transactions follow, with whatever leases, clocks and
-- results: a task that is in the table stays there with its payload, its generation never falls,
-- its attempts grow with its generation, a done task keeps its whole row, and a failed one stays
-- failed.
pub run-Later :
    (digest : String → Key) (db : Db) (ops : List Op) (id : Key) (a : Task)
    → UniqueIds db.tasks
    → Ledger.lookup id db ≡ some a
    → (b : Task) × (Ledger.lookup id (run digest db ops) ≡ some b) × Later a b
run-Later digest db ops id a unique found =
    Evolves-some a (Ledger.lookup id db) (Ledger.lookup id (run digest db ops)) found
      (run-Evolves digest db ops unique id)

-- A lease of another generation, or of a row that is not leased, is refused.
fenced_refuses :
    (lease : Lease) (t : ℕ) (db : Db) (row : Task)
    → Ledger.lookup lease.task_id db ≡ some row
    → Ledger.holds lease row ≡ false
    → Ledger.fenced lease t db ≡ err stale_lease
unfolding Ledger.fenced Ledger.lookup
fenced_refuses lease t db row found other = rw (found, other)

-- Where identifiers are unique: a lease older than its task's row is refused by the guard of every transaction, at every time,
-- after any further transactions.
pub stale_lease_forever :
    (digest : String → Key) (db : Db) (ops : List Op) (lease : Lease) (row : Task) (t : ℕ)
    → UniqueIds db.tasks
    → Ledger.lookup lease.task_id db ≡ some row
    → lease.generation < row.generation
    → Ledger.fenced lease t (run digest db ops) ≡ err stale_lease
stale_lease_forever digest db ops lease row t unique found old =
    let (b, there, later) = run-Later digest db ops lease.task_id row unique found in
    fenced_refuses lease t (run digest db ops) b there (ground (arith, later.generation_grows))

-- Where identifiers are unique: a task that is done is never changed and never accepts a lease again.
pub done_forever :
    (digest : String → Key) (db : Db) (ops : List Op) (lease : Lease) (row : Task) (t : ℕ)
    → UniqueIds db.tasks
    → Ledger.lookup lease.task_id db ≡ some row
    → row.state ≡ Ledger.done
    → (Ledger.lookup lease.task_id (run digest db ops) ≡ some row)
      × (Ledger.fenced lease t (run digest db ops) ≡ err stale_lease)
done_forever digest db ops lease row t unique found finished =
    let (b, there, later) = run-Later digest db ops lease.task_id row unique found in
    let same = subst (λ s. Settles s row b) finished later.settled in
    (
      there ∙ ap some same,
      fenced_refuses lease t (run digest db ops) b there (ground (arith, same)),
    )

-- Two leases that one table accepts for a task are the same lease, but for the payload.
pub fenced_unique :
    (first second : Lease) (t u : ℕ) (db : Db)
    → first.task_id ≡ second.task_id
    → Ledger.fenced first t db ≡ ok tt
    → Ledger.fenced second u db ≡ ok tt
    → (first.token ≡ second.token)
      × (first.owner ≡ second.owner)
      × (first.generation ≡ second.generation)
fenced_unique first second t u db same h k =
    let (r, f) = fenced-Fenced first t db h in
    let (s, g) = fenced-Fenced second u db k in ground (arith, f.found, g.found, f.held, g.held)
