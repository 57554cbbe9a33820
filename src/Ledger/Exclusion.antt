-- ===== src/Ledger/Exclusion.antt =====
-- Mutual exclusion in src/kdiff/core/durable.py: what `claim` does to leases that are there already.
use mathlib.Core.Path.{subst}
use knowledge_diffusion.Base.{
  Key, List, Option, String, ap, arith, err, false, find?-update_where-some,
  find?-update_where_apart, none, ok, refl, some, sym, ℕ, ◌*◌, ◌+◌, ◌∙◌, ◌≡◌, ◌≢◌, ◌≤◌,
}
use knowledge_diffusion.Ledger
use knowledge_diffusion.Ledger.{Db, Task, Lease, has_id}
use knowledge_diffusion.Ledger.Steps.{Op, run, with_result}
use knowledge_diffusion.Ledger.Table.{UniqueIds}
use knowledge_diffusion.Ledger.Evolution.{fenced-Fenced}
use knowledge_diffusion.Ledger.History.{claim-UniqueIds}
use knowledge_diffusion.Ledger.Fencing.{stale_lease_forever}
use knowledge_diffusion.Ledger.Granting.{claim-Granted, claim-Leases, claim-grant}

-- The guard accepts the holder of a lease until it runs out.
fenced_accepts :
    (lease : Lease) (u until : ℕ) (db : Db) (row : Task)
    → Ledger.lookup lease.task_id db ≡ some (Ledger.take_lease lease.owner lease.token until row)
    → lease.generation ≡ row.generation + 1
    → u ≤ until
    → Ledger.fenced lease u db ≡ ok tt
unfolding Ledger.fenced Ledger.lookup
fenced_accepts lease u until db row found next inside = ground arith

-- The guard reads one row.
fenced-lookup :
    (lease : Lease) (u : ℕ) (db db' : Db)
    → Ledger.lookup lease.task_id db' ≡ Ledger.lookup lease.task_id db
    → Ledger.fenced lease u db' ≡ Ledger.fenced lease u db
unfolding Ledger.fenced Ledger.lookup
fenced-lookup lease u db db' same = rw same

lookup-set_task_ne :
    (id j : Key) (f : Task → Task) (db : Db)
    → ((x : Task) → (f x).task_id ≡ x.task_id)
    → id ≢ j
    → Ledger.lookup j (Ledger.set_task id f db) ≡ Ledger.lookup j db
unfolding Ledger.lookup
lookup-set_task_ne id j f db keep ne =
    find?-update_where_apart (has_id j) (has_id id) f db.tasks (λ x e. ground (arith, keep x))

-- Nothing picked, nothing written.
grant-none :
    (owner token : Key) (until : ℕ) (db db' : Db) (picked : Option Task)
    → Ledger.grant owner token until db picked ≡ (none, db')
    → db' ≡ db
grant-none owner token until db db' none h = ap (λ r. r.1) (sym h)
grant-none owner token until db db' (some row) h = cc

lookup-swept :
    (max_attempts t : ℕ) (id : Key) (db : Db) (row : Task)
    → Ledger.reclaimable t row ≡ false
    → Ledger.lookup id db ≡ some row
    → Ledger.lookup id (Ledger.swept max_attempts t db) ≡ some row
unfolding Ledger.lookup Ledger.exhausted
lookup-swept max_attempts t id db row live found = ground (
  arith,
  find?-update_where-some (has_id id) (Ledger.exhausted max_attempts t) Ledger.mark_failed db.tasks
      row (λ x. refl) found,
)

-- Where identifiers are unique: a granted lease is accepted by every guard until `ttl` seconds after it was granted, and any
-- lease that the old tables accepted for the same task, at whatever time, is refused from then on,
-- whatever transactions follow.
pub claim-fenced :
    (digest : String → Key) (owner : Key) (ttl max_attempts : ℕ) (wanted : Option Key) (t : ℕ)
    (token : Key) (db db' : Db) (lease old : Lease) (u v w : ℕ) (ops : List Op)
    → UniqueIds db.tasks
    → Ledger.claim owner ttl max_attempts wanted t token db ≡ ok (some lease, db')
    → u ≤ t + ttl * Ledger.second
    → Ledger.fenced old v db ≡ ok tt
    → old.task_id ≡ lease.task_id
    → (Ledger.fenced lease u db' ≡ ok tt)
      × (Ledger.fenced old w (run digest db' ops) ≡ err Ledger.stale_lease)
claim-fenced digest owner ttl max_attempts wanted t token db db' lease old u v w ops unique h inside
      held same =
    let (row, l) = claim-Leases owner ttl max_attempts wanted t token db db' lease unique h in
    let (r, f) = fenced-Fenced old v db held in
    (
      fenced_accepts lease u (t + ttl * Ledger.second) db' row l.after l.next_generation inside,
      stale_lease_forever digest db' ops old _ w
          (subst (λ r. UniqueIds (with_result db r).tasks) h
            (claim-UniqueIds owner ttl max_attempts wanted t token db unique))
          (subst
            (λ id.
              Ledger.lookup id db'
              ≡ some (Ledger.take_lease lease.owner lease.token (t + ttl * Ledger.second) row))
            (sym same) l.after)
          (ground (arith, f.found, f.held, l.before)),
    )

-- The task of a lease is not the one that has been granted.
abbrev pub GrantsOther : Lease → Option Lease → Type 0
GrantsOther live none = Unit
GrantsOther live (some lease) = lease.task_id ≢ live.task_id

-- Where identifiers are unique: while a lease is live, a `claim` that returns, with a lease or with
-- none, grants its task to nobody, and the lease stays good.
pub claim_spares_live :
    (owner : Key) (ttl max_attempts : ℕ) (wanted : Option Key) (t : ℕ) (token : Key) (db db' : Db)
    (granted : Option Lease) (live : Lease)
    → UniqueIds db.tasks
    → Ledger.fenced live t db ≡ ok tt
    → Ledger.claim owner ttl max_attempts wanted t token db ≡ ok (granted, db')
    → GrantsOther live granted × (Ledger.fenced live t db' ≡ ok tt)
claim_spares_live owner ttl max_attempts wanted t token db db' none live unique held h =
    let (r, f) = fenced-Fenced live t db held in
    let (_, g) = claim-grant owner ttl max_attempts wanted t token db (none, db') h in
    (
      tt,
      fenced-lookup live t db db' (
            ap (Ledger.lookup live.task_id) (
              grant-none owner token (t + ttl * Ledger.second) (Ledger.swept max_attempts t db) db'
                _ g)
            ∙ lookup-swept max_attempts t live.task_id db r (ground (arith, f.leased, f.unexpired))
                f.found
            ∙ sym f.found)
          ∙ held,
    )
claim_spares_live owner ttl max_attempts wanted t token db db' (some lease) live unique held h =
    let (row, l) = claim-Leases owner ttl max_attempts wanted t token db db' lease unique h in
    let (r, f) = fenced-Fenced live t db held in
    let (picked, g) = claim-Granted owner ttl max_attempts wanted t token db lease db' h in
    let apart : lease.task_id ≢ live.task_id =
      λ same. ground (arith, f.found, f.leased, f.unexpired, l.before, l.claimable) in
    let swept = Ledger.swept max_attempts t db in
    (
      apart,
      fenced-lookup live t db db' (
            ap (Ledger.lookup live.task_id) g.tables
            ∙ lookup-set_task_ne picked.task_id live.task_id
                (Ledger.take_lease owner token (t + ttl * Ledger.second)) swept (λ x. refl)
                (λ e. apart (ap (λ (x : Lease). x.task_id) g.lease_lem ∙ e))
            ∙ lookup-swept max_attempts t live.task_id db r (ground (arith, f.leased, f.unexpired))
                f.found
            ∙ sym f.found)
          ∙ held,
    )
