-- ===== src/Engine/Txn.antt =====
-- glusterd2/transactionv2/transaction.go: the node that starts a transaction. It prepares it in the
-- store, from where the nodes take it, and waits for the status of each node.
pub mod Ready
use glusterd.Prelude.{
  ℕ, zero, suc, String, Bool, true, false, not, ◌&&◌, Option, none, some, List, [], ◌∷◌, ◌++◌, ◌==◌,
  string_eq, contains, if◌then◌else◌,
}
use glusterd.GoMap.{lookup, insert, delete}
use glusterd.Transaction.Nodes.{NodeId, nodes_union}
use glusterd.Transaction.Run.{Step}
use glusterd.Engine.Executor.{TxnState, pending, running, succeeded, failed, unknown, Stored}
use glusterd.Engine.Manager.{
  TxnStatus, PendingTxn, Pending, update_txn_status, update_last_executed_step, get_txn_status,
  is_failed, applies, reports, remove_transaction,
}

pub data PrepareError : Type 0 where
  nodes_down : PrepareError
  status_failed : PrepareError
  last_step_failed : PrepareError
  commit_failed : PrepareError
  add_failed : PrepareError

-- How the calls of the store end: whether the nodes are alive, and the four writes in order.
pub record Replies : Type 0 where
  pub alive : List NodeId → Bool
  pub status_write : Stored
  pub last_write : Stored
  pub commit_write : Bool
  pub add_write : Stored

unfoldable pub nodes_of_steps : List Step → List NodeId
nodes_of_steps [] = []
nodes_of_steps (s ∷ steps) = s.nodes ++ nodes_of_steps steps

unfoldable pub listed : List NodeId → List Step → List NodeId
listed [] steps = nodes_of_steps steps
listed (x ∷ xs) steps = x ∷ xs

-- `t.Nodes`, or the nodes of the steps if it is empty, without duplicates.
unfoldable pub with_nodes : PendingTxn → PendingTxn
unfolding listed nodes_of_steps
with_nodes t = record t { nodes = nodes_union (listed t.nodes t.steps) }

-- `AddTxn`
unfoldable pub add_txn : PendingTxn → Stored → Pending → Pending × Bool
add_txn t w db = (if applies w then record db { txns = insert t.id t db.txns } else db, reports w)

unfoldable pub add_prepared : PendingTxn → Replies → Pending → Pending × Option PrepareError
unfolding add_txn
add_prepared t r db =
    let (db', added) = add_txn t r.add_write db in
    if not r.commit_write
    then (db, some commit_failed)
    else (db', if added then none else some add_failed)

unfoldable pub write_prepared : PendingTxn → Replies → Pending → Pending × Option PrepareError
unfolding add_prepared
write_prepared t r db =
    let st : TxnStatus = record { state = pending; txn_id = t.id; reason = "" } in
    let (db₁, ok₁) = update_txn_status st t.id t.nodes r.status_write db in
    let (db₂, ok₂) = update_last_executed_step none t.id t.nodes r.last_write db₁ in
    if not ok₁
    then (db₁, some status_failed)
    else if not ok₂
    then (db₂, some last_step_failed)
    else add_prepared t r db₂

-- `prepare`
unfoldable pub prepare : PendingTxn → Replies → Pending → PendingTxn × Pending × Option PrepareError
unfolding write_prepared
prepare t r db =
    let t' = with_nodes t in
    let (db', result) = write_prepared t' r db in
    if not t.dont_check_alive && not (r.alive t'.nodes)
    then (t', db, some nodes_down)
    else (t', db', result)

-- What the starting node notices: the status of a node, or the end of its time.
pub data Notice : Type 0 where
  status_of : NodeId → TxnStatus → Notice
  timed_out : Notice

pub data TxnResult : Type 0 where
  success : TxnResult
  txn_failed : String → TxnResult
  txn_timeout : TxnResult

unfoldable pub without : NodeId → List NodeId → List NodeId
without node [] = []
without node (x ∷ xs) = let rest = without node xs in if x == node then rest else x ∷ rest

-- `waitForCompletion` with a `notifyState` for each of `nodes`, and the choice of `Do`: `none` when
-- it still waits after the notices. A node that has succeeded is not listened to any more.
unfoldable pub wait : List NodeId → List Notice → Option TxnResult
wait [] notices = some success
wait (x ∷ xs) [] = none
wait (x ∷ xs) (timed_out ∷ notices) = some txn_timeout
wait (x ∷ xs) (status_of node st ∷ notices) =
    let go_on = wait (x ∷ xs) notices in
    let reached = wait (without node (x ∷ xs)) notices in
    if not (contains node (x ∷ xs)) then go_on else elim st.state [
      | succeeded ↦ reached
      | failed ↦ some (txn_failed st.reason)
      | pending ↦ go_on
      | running ↦ go_on
      | unknown ↦ go_on
    ]

-- `onFailure`
unfoldable pub on_failure : PendingTxn → String → Stored → Pending → Pending
on_failure t reason w db =
    (update_txn_status (record { state = failed; txn_id = t.id; reason = reason }) t.id t.nodes w
      db).0

-- `Do` after the preparation; `watched` are the nodes that the wait listens to.
unfoldable pub conclude :
    PendingTxn → List NodeId → List Notice → Stored → Pending → Pending × Option TxnResult
conclude t watched notices w db = elim (wait watched notices) [
  | none ↦ (db, none)
  | some success ↦ (db, some success)
  | some (txn_failed reason) ↦ (on_failure t reason w db, some (txn_failed reason))
  | some txn_timeout ↦ (on_failure t "txn timeout" w db, some txn_timeout)
]

-- `Do`. The wait runs beside the preparation: it has read `t.Nodes` before the preparation filled
-- them in (`early`), or after.
unfoldable pub do_txn :
    Bool
    → PendingTxn
    → Replies
    → List Notice
    → Stored
    → Pending
    → Pending × Option TxnResult × Option PrepareError
do_txn early t r notices w db =
    let (t', db', problem) = prepare t r db in
    let (db'', result) = conclude t' (if early then t.nodes else t'.nodes) notices w db' in
    elim problem [ some e ↦ (db', none, some e) | none ↦ (db'', result, none) ]

-- `Done` of a transaction, with the locks and the context left out.
unfoldable pub done : Bool → Bool → Bool → PendingTxn → Pending → Pending
done is_success first second t db =
    if is_success then remove_transaction first second t.id db else db

-- `FilterNonFailedTxn`
unfoldable pub filter_non_failed_txn :
    NodeId → (String → Bool) → Pending → List PendingTxn → List PendingTxn
filter_non_failed_txn self fails db [] = []
filter_non_failed_txn self fails db (t ∷ ts) =
    let rest = filter_non_failed_txn self fails db ts in
    elim (get_txn_status db (fails t.id) t.id self) [
      | none ↦ rest
      | some st ↦ if is_failed st.state then rest else t ∷ rest
    ]
