-- ===== src/Delivery.antt =====
-- `RedisDelivery` of src/kdiff/core/durable.py: task identifiers delivered over two kinds of Redis
-- list, with the task ledger as the authority.
-- Redis is a parameter: its state and the three commands that the source sends, each of which it
-- answers. An error of the ledger after a command leaves that command done.
mod Examples
use knowledge_diffusion.Base.{
  Bool, Key, List, Option, Result, String, [], err, false, find?, if◌then◌else◌, is_key, none, not,
  ok, or_raise, raise_if, some, true, ℕ, ◌&&◌, ◌==◌, ◌>>=◌, ◌>>◌, ◌∷◌,
}
use knowledge_diffusion.Ledger
use knowledge_diffusion.Ledger.{Db, Lease, StatusRow}

-- `prefix:pending`, and `prefix:processing:owner`.
pub data ListName : Type 0 where
  pending_list : ListName
  processing_list : Key → ListName

-- `blmove` takes from the right end of the first list and puts on the left end of the second.
pub record Redis (R : Type 0) : Type 0 where
  pub lpush : ListName → Key → R → R
  pub blmove : ListName → ListName → R → Option Key × R
  pub lrem : ListName → Key → R → R

pub record Delivered : Type 0 where
  pub lease : Lease
  pub delivery_list : ListName

pub data DeliveryError : Type 0 where
  stale_acknowledgment missing_row : DeliveryError
  in_ledger : Ledger.LedgerError → DeliveryError

abbrev pub is_open : Ledger.TaskState → Bool
is_open Ledger.pending = true
is_open Ledger.leased = true
is_open Ledger.done = false
is_open Ledger.failed = false

-- `not row or row['state'] != 'done' or …`, negated.
abbrev pub is_settled : Lease → Option StatusRow → Bool
is_settled lease none = false
is_settled lease (some row) =
    Ledger.is_done row.state && is_key lease.owner row.owner && row.generation == lease.generation

-- `kind_of` reads the field `kind` of a payload's text.
module _ {R : Type 0} (redis : Redis R) (kind_of : String → Option Key) where
  -- Whether the payload has another kind than the one asked for, if one is. A row that is not in
  -- the table has no payload.
  abbrev pub other_kind : Option Key → Key → Db → Result DeliveryError Bool
  other_kind none id db = ok false
  other_kind (some kind) id db = do
    task ← or_raise (Ledger.lookup id db) missing_row
    ok (not (is_key kind (kind_of task.payload)))

  abbrev pub push_unless : Key → R → Result DeliveryError Bool → Result DeliveryError R
  push_unless id r (err e) = err e
  push_unless id r (ok skipped) = ok (if skipped then r else redis.lpush pending_list id r)

  abbrev pub deliver_row : Option Key → Db → StatusRow → R → Result DeliveryError R
  deliver_row kind db row r =
      if is_open row.state then push_unless row.task_id r (other_kind kind row.task_id db) else ok r

  -- What was pushed before an error stays pushed.
  abbrev pub proceed :
      (R → Result DeliveryError (Unit {0}) × R)
      → R
      → Result DeliveryError R
      → Result DeliveryError (Unit {0}) × R
  proceed go r (err e) = (err e, r)
  proceed go r (ok r') = go r'

  abbrev pub deliver : Option Key → Db → List StatusRow → R → Result DeliveryError (Unit {0}) × R
  deliver kind db [] r = (ok tt, r)
  deliver kind db (row ∷ rows) r = proceed (deliver kind db rows) r (deliver_row kind db row r)

  -- The ledger does not change meanwhile.
  unfoldable pub reconstruct : Option Key → Db → R → Result DeliveryError (Unit {0}) × R
  reconstruct kind db r = deliver kind db (Ledger.status db) r

  -- What follows the ledger's `claim` of a delivered task.
  abbrev pub after_claim :
      ListName
      → Key
      → R
      → Db
      → Result Ledger.LedgerError (Option Lease × Db)
      → Result DeliveryError (Option Delivered) × Db × R
  after_claim processing id r db (err e) = (err (in_ledger e), db, r)
  after_claim processing id r db (ok (none, db')) = (ok none, db', redis.lrem processing id r)
  after_claim processing id r db (ok (some lease, db')) =
      (ok (some (record { lease = lease; delivery_list = processing })), db', r)

  abbrev pub claim_moved :
      Key → ℕ → ℕ → Key → Db → Option Key × R → Result DeliveryError (Option Delivered) × Db × R
  claim_moved owner ttl t token db (none, r) = (ok none, db, r)
  claim_moved owner ttl t token db (some id, r) =
      after_claim (processing_list owner) id r db (Ledger.claim owner ttl 3 (some id) t token db)

  -- `token` and `t` are what the ledger's `claim` draws and reads.
  unfoldable pub claim :
      Key → ℕ → ℕ → Key → Db → R → Result DeliveryError (Option Delivered) × Db × R
  claim owner ttl t token db r =
      claim_moved owner ttl t token db (redis.blmove pending_list (processing_list owner) r)

  -- Identifiers are unique, so that the dictionary holds the row that is found first.
  unfoldable pub acknowledge : Delivered → Db → R → Result DeliveryError R
  acknowledge delivered db r = do
    let lease = delivered.lease
    let row = find? (λ (row : StatusRow). row.task_id == lease.task_id) (Ledger.status db)
    raise_if (not (is_settled lease row)) stale_acknowledgment
    ok (redis.lrem delivered.delivery_list lease.task_id r)
