-- ===== src/Delivery/Examples.antt =====
-- Runs of the Redis delivery over a small table, with lists for Redis.
use knowledge_diffusion.Base.{
  Key, List, Option, String, [], err, if◌then◌else◌, none, ok, refl, some, ◌==◌, ◌∷◌, ◌≡◌,
}
use knowledge_diffusion.Ledger
use knowledge_diffusion.Ledger.{Db}
use knowledge_diffusion.Delivery
use knowledge_diffusion.Delivery.{ListName, Redis, pending_list, processing_list}

-- The pending list and the one processing list, each from its left end.
abbrev Lists : Type 0
Lists = List Key × List Key

abbrev push : ListName → Key → Lists → Lists
push pending_list id (waiting, busy) = (id ∷ waiting, busy)
push (processing_list _) id (waiting, busy) = (waiting, id ∷ busy)

abbrev unsnoc : List Key → Option Key × List Key
unsnoc [] = (none, [])
unsnoc (id ∷ []) = (some id, [])
unsnoc (id ∷ next ∷ rest) = let (last, init) = unsnoc (next ∷ rest) in (last, id ∷ init)

abbrev move_to : List Key → Option Key × List Key → Option Key × Lists
move_to busy (none, waiting) = (none, (waiting, busy))
move_to busy (some id, waiting) = (some id, (waiting, id ∷ busy))

abbrev drop_first : Key → List Key → List Key
drop_first id [] = []
drop_first id (x ∷ xs) = let rest = drop_first id xs in if x == id then xs else x ∷ rest

abbrev remove : ListName → Key → Lists → Lists
remove pending_list id (waiting, busy) = (drop_first id waiting, busy)
remove (processing_list _) id (waiting, busy) = (waiting, drop_first id busy)

abbrev lists : Redis Lists
lists = record {
  lpush = push;
  blmove = λ _ _ (r : Lists). move_to (r.1) (unsnoc (r.0));
  lrem = remove;
}

abbrev no_kind : String → Option Key
no_kind _ = none

abbrev queued : Db
queued = record {
  tasks = Ledger.new_task 1 "a" 10 ∷ Ledger.new_task 2 "b" 20 ∷ [];
  intents = [];
  checkpoints = [];
}

reconstruct_all :
    Delivery.reconstruct lists no_kind none queued ([], []) ≡ (ok tt, (2 ∷ 1 ∷ [], []))
unfolding Delivery.reconstruct Ledger.status
reconstruct_all = refl

-- A repeated delivery of a task that is not in the table is dropped.
claim_unknown :
    Delivery.claim lists no_kind 5 60 1000000 50 queued (9 ∷ [], []) ≡ (ok none, queued, ([], []))
unfolding Delivery.claim Ledger.claim Ledger.eligible Ledger.exhausted Ledger.valid_limits
    Ledger.in_range
claim_unknown = refl

abbrev lease_1 : Ledger.Lease
lease_1 = record { task_id = 1; owner = 5; token = 50; generation = 1; payload = "a" }

abbrev delivered_1 : Delivery.Delivered
delivered_1 = record { lease = lease_1; delivery_list = processing_list 5 }

abbrev with_row : (Ledger.Task → Ledger.Task) → Db
with_row f = record queued { tasks = f (Ledger.new_task 1 "a" 10) ∷ [] }

claim_delivered :
    Delivery.claim lists no_kind 5 60 1000000 50 (with_row (λ task. task)) (2 ∷ 1 ∷ [], [])
    ≡ (ok (some delivered_1), with_row (Ledger.take_lease 5 50 61000000), (2 ∷ [], 1 ∷ []))
unfolding Delivery.claim Ledger.claim Ledger.eligible Ledger.exhausted Ledger.valid_limits
    Ledger.in_range
claim_delivered = refl

-- A task that is leased only is not acknowledged, and stays in the processing list.
acknowledge_leased :
    Delivery.acknowledge lists no_kind delivered_1
      (with_row (Ledger.take_lease 5 50 61000000))
      ([], 1 ∷ [])
    ≡ err Delivery.stale_acknowledgment
unfolding Delivery.acknowledge Ledger.status
acknowledge_leased = refl

acknowledge_done :
    Delivery.acknowledge lists no_kind delivered_1
      (with_row (λ task. Ledger.finish "r" (Ledger.take_lease 5 50 61000000 task)))
      ([], 1 ∷ [])
    ≡ ok ([], [])
unfolding Delivery.acknowledge Ledger.status
acknowledge_done = refl
