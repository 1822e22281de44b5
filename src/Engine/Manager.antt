-- ===== src/Engine/Manager.antt =====
-- glusterd2/transactionv2/txnmanager.go: what the store knows of the pending transactions, and how
-- they are marked as failed and removed. A read or a write can fail, as its argument says.
pub mod Cleanup
pub mod Expiry
use glusterd.Prelude.{
  ℕ, zero, suc, ◌+◌, String, Bool, true, false, not, ◌&&◌, Option, none, some, List, [], ◌∷◌, map,
  ◌==◌, string_eq, ltb, nat_beq, length, Result, ok, err, if◌then◌else◌,
}
use glusterd.GoMap.{GoMap, lookup, insert, delete}
use glusterd.Transaction.Nodes.{NodeId, nodes_union}
use glusterd.Transaction.Run.{Step, listed_nodes}
use glusterd.Engine.Executor.{
  TxnState, pending, running, succeeded, failed, unknown, Stored, stored, lost, stored_unseen,
}

-- `unknown` stands for every text that is not one of the four valid states.
unfoldable pub is_valid : TxnState → Bool
is_valid pending = true
is_valid running = true
is_valid succeeded = true
is_valid failed = true
is_valid unknown = false

pub is_failed : TxnState → Bool
is_failed failed = true
is_failed _ = false

pub record TxnStatus : Type 0 where
  pub state : TxnState
  pub txn_id : String
  pub reason : String

-- `Txn`, as far as the manager and `prepare` use it; the start is in seconds.
pub record PendingTxn : Type 0 where
  pub id : String
  pub nodes : List NodeId
  pub steps : List Step
  pub start_time : ℕ
  pub dont_check_alive : Bool

-- The namespace `pending-transaction`: the transactions by id, and of each id what is kept by node.
-- A last step of -1 is `none`.
pub record Pending : Type 0 where
  pub txns : GoMap String PendingTxn
  pub status : GoMap String (GoMap NodeId TxnStatus)
  pub last : GoMap String (GoMap NodeId (Option ℕ))

abbrev pub entries : {A : Type 0} → String → GoMap String (GoMap NodeId A) → GoMap NodeId A
entries id m = elim (lookup id m) [ none ↦ [] | some nodes ↦ nodes ]

unfoldable pub put_nodes : {A : Type 0} → A → List NodeId → GoMap NodeId A → GoMap NodeId A
put_nodes a [] m = m
put_nodes a (node ∷ nodes) m = put_nodes a nodes (insert node a m)

-- A write that the store applies, and whether it is reported as done.
abbrev pub applies : Stored → Bool
applies lost = false
applies _ = true

abbrev pub reports : Stored → Bool
reports stored = true
reports _ = false

-- The writes for all nodes are one etcd transaction. A lock that is not obtained counts as lost.
unfoldable pub update_txn_status :
    TxnStatus → String → List NodeId → Stored → Pending → Pending × Bool
unfolding put_nodes
update_txn_status st id nodes w db = (
  if applies w
      then record db { status = insert id (put_nodes st nodes (entries id db.status)) db.status }
      else db,
  reports w,
)

unfoldable pub update_last_executed_step :
    Option ℕ → String → List NodeId → Stored → Pending → Pending × Bool
unfolding put_nodes
update_last_executed_step i id nodes w db = (
  if applies w
      then record db { last = insert id (put_nodes i nodes (entries id db.last)) db.last }
      else db,
  reports w,
)

-- `fails` says whether the lock or the read fails.
unfoldable pub get_txn_status : Pending → Bool → String → NodeId → Option TxnStatus
get_txn_status db fails id node = elim (lookup node (entries id db.status)) [
  | none ↦ none
  | some st ↦ if not fails && is_valid st.state then some st else none
]

unfoldable pub get_last_executed_step : Pending → Bool → String → NodeId → Option (Option ℕ)
get_last_executed_step db fails id node = if fails then none else lookup node (entries id db.last)

-- The first deletion removes what is kept by node, the second the transaction.
pub remove_transaction : Bool → Bool → String → Pending → Pending
remove_transaction first second id db =
    let db' = record db { status = delete id db.status; last = delete id db.last } in
    if first then (if second then record db' { txns = delete id db.txns } else db') else db

unfoldable pub get_txns : Pending → List PendingTxn
get_txns db = map (λ e. e.1) db.txns

pub non_failed : Pending → (NodeId → Bool) → String → List NodeId → List NodeId
non_failed db fails id [] = []
non_failed db fails id (node ∷ nodes) =
    let rest = non_failed db fails id nodes in
    elim (get_txn_status db (fails node) id node) [
      | none ↦ rest
      | some st ↦ if is_failed st.state then rest else node ∷ rest
    ]

abbrev pub expired_status : String → TxnStatus
expired_status id = record { state = failed; txn_id = id; reason = "txn expired" }

unfoldable mark_expired : PendingTxn → Stored → List NodeId → Pending → Pending
mark_expired t w [] db = db
mark_expired t w (node ∷ nodes) db =
    (update_txn_status (expired_status t.id) t.id (node ∷ nodes) w db).0

-- One round of `TxnGC`.
pub gc_txn : ℕ → ℕ → (String → NodeId → Bool) → (String → Stored) → PendingTxn → Pending → Pending
unfolding mark_expired
gc_txn max_age now fails writes t db =
    if ltb (t.start_time + max_age) now
    then mark_expired t (writes t.id) (non_failed db (fails t.id) t.id t.nodes) db
    else db

unfoldable gc_loop :
    ℕ → ℕ → (String → NodeId → Bool) → (String → Stored) → List PendingTxn → Pending → Pending
gc_loop max_age now fails writes [] db = db
gc_loop max_age now fails writes (t ∷ ts) db =
    gc_loop max_age now fails writes ts (gc_txn max_age now fails writes t db)

pub txn_gc : ℕ → ℕ → (String → NodeId → Bool) → (String → Stored) → Pending → Pending
unfolding gc_loop
txn_gc max_age now fails writes db = gc_loop max_age now fails writes (get_txns db) db

-- A node that is done with the rollback of a transaction.
pub is_rolled_back : Pending → (NodeId → Bool) → String → NodeId → Bool
is_rolled_back db fails id node = elim (get_txn_status db (fails node) id node) [
  | none ↦ false
  | some st ↦ elim (get_last_executed_step db (fails node) id node) [
    | some none ↦ is_failed st.state
    | some (some i) ↦ false
    | none ↦ false
  ]
]

-- `nodesRollbacked`
pub count_rolled_back : Pending → (NodeId → Bool) → String → List NodeId → ℕ
count_rolled_back db fails id [] = 0
count_rolled_back db fails id (node ∷ nodes) =
    let rest = count_rolled_back db fails id nodes in
    if is_rolled_back db fails id node then suc rest else rest

-- The loop of `RemoveFailedTxns`; `deletes` says how the two deletions of an id end.
pub remove_loop :
    (String → NodeId → Bool) → (String → Bool × Bool) → List PendingTxn → Pending → Pending
remove_loop fails deletes [] db = db
remove_loop fails deletes (t ∷ ts) db = remove_loop fails deletes ts (
    if nat_beq (count_rolled_back db (fails t.id) t.id t.nodes) (length t.nodes)
    then remove_transaction (deletes t.id).0 (deletes t.id).1 t.id db
    else db)

pub remove_failed_txns : (String → NodeId → Bool) → (String → Bool × Bool) → Pending → Pending
remove_failed_txns fails deletes db = remove_loop fails deletes (get_txns db) db
