-- ===== src/Engine/Txn/Ready.antt =====
-- What a transaction that is prepared has in the store, and what a result that is waited for says.
use mathlib.Core.List.{Memᴰ}
use glusterd.Prelude.{
  ◌≡◌, ◌⊎◌, sym, ap, ◌∙◌, inl, inr, true, false, none, some, List, [], ◌∷◌, ◌==◌, string_eq,
  contains, IsUnique, if◌then◌else◌, arith, eq_iff, Bool-cases,
}
use glusterd.GoMap.{lookup, insert, lookup-insert}
use glusterd.Transaction.Nodes.{NodeId, nodes_union_lem}
use glusterd.Engine.Executor.{TxnState, pending, succeeded, Stored}
use glusterd.Engine.Manager.{
  TxnStatus, PendingTxn, Pending, entries, put_nodes, is_valid, update_txn_status,
  update_last_executed_step, get_txn_status, get_last_executed_step,
}
use glusterd.Engine.Manager.Expiry.{lookup-put_nodes}
use glusterd.Engine.Txn.{
  Replies, with_nodes, listed, prepare, write_prepared, add_prepared, add_txn, Notice, status_of,
  timed_out, success, without, wait, conclude, do_txn,
}

-- The status and the last step as the preparation writes them, and the transaction itself.
abbrev prepared : PendingTxn → Pending → Pending
prepared t db = record {
  txns = insert t.id t db.txns;
  status =
      insert t.id
        (put_nodes (record { state = pending; txn_id = t.id; reason = "" }) t.nodes
          (entries t.id db.status))
        db.status;
  last = insert t.id (put_nodes none t.nodes (entries t.id db.last)) db.last;
}

write_prepared-none :
    (t : PendingTxn) (r : Replies) (db : Pending)
    → (write_prepared t r db).1 ≡ none
    → (write_prepared t r db).0 ≡ prepared t db
unfolding write_prepared add_prepared add_txn update_txn_status update_last_executed_step
write_prepared-none t r db h = ground arith

prepare-none :
    (t t' : PendingTxn) (r : Replies) (db db' : Pending)
    → prepare t r db ≡ (t', db', none)
    → (t' ≡ with_nodes t) × (db' ≡ prepared (with_nodes t) db)
unfolding prepare
prepare-none t t' r db db' h = ground (arith, write_prepared-none (with_nodes t) r db)

-- What is read back of a transaction that is prepared.
prepared-lookup :
    (t : PendingTxn) (db : Pending)
    → (lookup t.id (prepared (with_nodes t) db).txns ≡ some (with_nodes t))
      × IsUnique (with_nodes t).nodes
      × ((node : NodeId)
          → contains node (with_nodes t).nodes ≡ true
          → (get_last_executed_step (prepared (with_nodes t) db) false t.id node ≡ some none)
            × (get_txn_status (prepared (with_nodes t) db) false t.id node
                ≡ some (record { state = pending; txn_id = t.id; reason = "" })))
unfolding get_last_executed_step get_txn_status is_valid with_nodes
prepared-lookup t db = (
  ground (arith, lookup-insert t.id t.id (with_nodes t) db.txns, eq_iff t.id t.id),
  (nodes_union_lem (listed t.nodes t.steps)).0,
  λ node there.
      let nodes = (with_nodes t).nodes in
      let st : TxnStatus = record { state = pending; txn_id = t.id; reason = "" } in
      (
        ground (
          arith,
          eq_iff t.id t.id,
          there,
          lookup-insert t.id t.id (put_nodes none nodes (entries t.id db.last)) db.last,
          lookup-put_nodes none nodes (entries t.id db.last) node,
        ),
        ground (
          arith,
          eq_iff t.id t.id,
          there,
          lookup-insert t.id t.id (put_nodes st nodes (entries t.id db.status)) db.status,
          lookup-put_nodes st nodes (entries t.id db.status) node,
        ),
      ),
)

-- A transaction that is prepared without an error stands in the store, with nodes listed once each,
-- and on each of them it is pending and no step of it is executed.
prepare_lem :
    (t t' : PendingTxn) (r : Replies) (db db' : Pending)
    → prepare t r db ≡ (t', db', none)
    → (lookup t.id db'.txns ≡ some t')
      × IsUnique t'.nodes
      × ((node : NodeId)
          → contains node t'.nodes ≡ true
          → (get_last_executed_step db' false t.id node ≡ some none)
            × (get_txn_status db' false t.id node
                ≡ some (record { state = pending; txn_id = t.id; reason = "" })))
prepare_lem t t' r db db' h =
    let (t≡, made) = prepare-none t t' r db db' h in rw (made, t≡) (prepared-lookup t db)

contains-without :
    (node other : NodeId) (xs : List NodeId)
    → contains other (without node xs) ≡ (if node == other then false else contains other xs)
unfolding without
contains-without node other [] = ground arith
contains-without node other (x ∷ xs) =
    ground (arith, contains-without node other xs, eq_iff x node, eq_iff x other, eq_iff node other)

-- A status of the node among the notices.
abbrev pub HasNotice : NodeId → TxnState → List Notice → Type 0
HasNotice node state notices =
    (st : TxnStatus) × Memᴰ (status_of node st) notices × (st.state ≡ state)

later :
    (x : Notice) (node : NodeId) (state : TxnState) (notices : List Notice)
    → HasNotice node state notices
    → HasNotice node state (x ∷ notices)
later x node state notices (st, m, is) = (st, Memᴰ.tail m, is)

wait-step :
    (n x : NodeId) (xs : List NodeId) (st : TxnStatus) (notices : List Notice)
    → wait (x ∷ xs) (status_of n st ∷ notices) ≡ some success
    → (wait (x ∷ xs) notices ≡ some success)
      ⊎ ((st.state ≡ succeeded) × (wait (without n (x ∷ xs)) notices ≡ some success))
unfolding wait
wait-step n x xs st notices h = ground arith

-- A wait that ends with success has had from each node that it listens to the status that the
-- transaction succeeded there.
pub wait-success :
    (nodes : List NodeId) (notices : List Notice)
    → wait nodes notices ≡ some success
    → (node : NodeId) → contains node nodes ≡ true
    → HasNotice node succeeded notices
unfolding wait
wait-success [] notices h node there = absurd (ground (arith, there))
wait-success (x ∷ xs) [] h node there = absurd (ground (arith, h))
wait-success (x ∷ xs) (timed_out ∷ notices) h node there = absurd (ground (arith, h))
wait-success (x ∷ xs) (status_of n st ∷ notices) h node there =
    elim (wait-step n x xs st notices h) [
      | inl same ↦
          later (status_of n st) node succeeded notices
            (wait-success (x ∷ xs) notices same node there)
      | inr (is, fewer) ↦ elim (Bool-cases (n == node)) [
        | inl this ↦ (st, Memᴰ.head (ap (λ y. status_of y st) (sym ((eq_iff n node).0 this))), is)
        | inr other ↦ later (status_of n st) node succeeded notices (
            wait-success (without n (x ∷ xs)) notices fewer node
              (rw (contains-without n node (x ∷ xs), other) there))
      ]
    ]

waited :
    (t : PendingTxn) (r : Replies) (notices : List Notice) (w : Stored) (db : Pending)
    → (do_txn false t r notices w db).1 ≡ some success
    → wait (with_nodes t).nodes notices ≡ some success
unfolding do_txn conclude prepare
waited t r notices w db h = ground arith

-- Where the wait has read the nodes that the preparation filled in, a transaction that ends with
-- success has been reported as succeeded by each node of its list, or of its steps if the list was
-- empty.
pub do_txn-success :
    (t : PendingTxn) (r : Replies) (notices : List Notice) (w : Stored) (db : Pending)
    → (do_txn false t r notices w db).1 ≡ some success
    → (node : NodeId) → contains node (listed t.nodes t.steps) ≡ true
    → HasNotice node succeeded notices
unfolding with_nodes
do_txn-success t r notices w db h node there =
    let in_union : contains node (with_nodes t).nodes ≡ true =
      (nodes_union_lem (listed t.nodes t.steps)).1 node ∙ there in
    wait-success (with_nodes t).nodes notices (waited t r notices w db h) node in_union
