-- ===== src/Ledger/Steps.antt =====
-- The transactions of src/kdiff/core/durable.py as one step function, and runs of them.
use knowledge_diffusion.Base.{
  Bool, Key, List, Option, Result, String, [], err, false, ok, raise_if, refl, true, ℕ, ◌>>◌, ◌∷◌,
  ◌≡◌,
}
use knowledge_diffusion.Ledger
use knowledge_diffusion.Ledger.{Db, Lease, LedgerError}
use knowledge_diffusion.Ledger.Checkpoints.{checkpoint}

-- A call with its arguments, the clock and the fresh token. `integrate` carries what its callback
-- does: it returns a result, or it raises.
pub data Op : Type 0 where
  enqueue : String → ℕ → Op
  claim : Key → ℕ → ℕ → Option Key → ℕ → Key → Op
  heartbeat : Lease → ℕ → ℕ → ℕ → Op
  prepare : Lease → Key → ℕ → Op
  integrate : Lease → Key → ℕ → Option String → Op
  complete : Lease → String → ℕ → Op
  release : Lease → String → ℕ → Op
  checkpoint_at : Key → String → Option ℕ → Op

-- A call that raises rolls back.
abbrev pub or_rollback : Db → Result LedgerError Db → Db
or_rollback db (ok db') = db'
or_rollback db (err _) = db

abbrev pub with_result {ℓ} : {A : Type ℓ} → Db → Result LedgerError (A × Db) → Db
with_result db (ok (_, db')) = db'
with_result db (err _) = db

abbrev pub returning : Option String → Unit {0} → Option String × Unit {0}
returning outcome w = (outcome, w)

unfoldable pub step : (String → Key) → Db → Op → Db
step digest db (enqueue payload t) = (Ledger.enqueue digest payload t db).1
step digest db (claim owner ttl max_attempts wanted t token) =
    with_result db (Ledger.claim owner ttl max_attempts wanted t token db)
step digest db (heartbeat lease ttl t later) =
    or_rollback db (Ledger.heartbeat lease ttl t later db)
step digest db (prepare lease batch t) = or_rollback db (Ledger.prepare lease batch t db)
step digest db (integrate lease batch t outcome) =
    (Ledger.integrate (returning outcome) lease batch t db tt).1
step digest db (complete lease result t) = or_rollback db (Ledger.complete lease result t db)
step digest db (release lease error t) = or_rollback db (Ledger.release lease error t db)
step digest db (checkpoint_at name value expected) =
    with_result db (checkpoint name value expected db)

unfoldable pub run : (String → Key) → Db → List Op → Db
run digest db [] = db
run digest db (op ∷ ops) = run digest (step digest db op) ops

-- A call that stops at its guard changes nothing.
module _ {ℓ} (P : Db → Type ℓ) (db : Db) (start : P db) where
  pub guard-keeps :
      (guard : Result LedgerError (Unit {0})) (next : Result LedgerError Db)
      → (guard ≡ ok tt → P (or_rollback db next))
      → P (or_rollback db (guard >> next))
  guard-keeps (ok _) next h = h refl
  guard-keeps (err e) next h = start

  pub raise_if-keeps :
      (test : Bool) (e : LedgerError) (next : Result LedgerError Db)
      → P (or_rollback db next)
      → P (or_rollback db (raise_if test e >> next))
  raise_if-keeps true e next h = start
  raise_if-keeps false e next h = h
