-- ===== src/Engine/Fixtures.antt =====
-- A node with two steps, and a transaction of two nodes: the data of the tests.
use glusterd.Prelude.{true, false, none, some, [], ◌∷◌, ◌==◌, string_eq, if◌then◌else◌}
use glusterd.Transaction.Run.{Cluster, Step, other}
use glusterd.Engine.Executor.{pending, stored, NodeTxn, Round}
use glusterd.Engine.Manager.{TxnStatus, PendingTxn, Pending}
use glusterd.Engine.Txn.{Replies}

abbrev pub node_a : Cluster
node_a = record {
  my_uuid = "a";
  step_func = λ name. some (λ calls. if name == "start" then some (other "no device") else none);
  commit = λ calls. none;
  remote = λ calls name node. none;
  is_node_alive = λ node. true;
}

abbrev pub create : Step
create = record {
  do_func = "create";
  undo_func = "remove";
  nodes = "a" ∷ "b" ∷ [];
  skip = false;
  sync = false;
}

abbrev pub start : Step
start = record {
  do_func = "start";
  undo_func = "stop";
  nodes = "a" ∷ [];
  skip = false;
  sync = true;
}

abbrev pub quiet : Round
quiet = record {
  arrived = λ node. true;
  cancelled = false;
  write = stored;
  told = false;
  reported = true;
}

abbrev pub fresh : NodeTxn
fresh = record { calls = []; last = none; status = pending }

abbrev pub txn : PendingTxn
txn = record {
  id = "t";
  nodes = [];
  steps = create ∷ start ∷ [];
  start_time = 10;
  dont_check_alive = false;
}

abbrev pub txn_ab : PendingTxn
txn_ab = record txn { nodes = "a" ∷ "b" ∷ [] }

abbrev pub empty_store : Pending
empty_store = record { txns = []; status = []; last = [] }

abbrev pub good : Replies
good = record {
  alive = λ nodes. true;
  status_write = stored;
  last_write = stored;
  commit_write = true;
  add_write = stored;
}

abbrev pub is_pending : TxnStatus
is_pending = record { state = pending; txn_id = "t"; reason = "" }

abbrev pub with_txn : Pending
with_txn = record {
  txns = ("t", txn_ab) ∷ [];
  status = ("t", ("a", is_pending) ∷ ("b", is_pending) ∷ []) ∷ [];
  last = ("t", ("a", none) ∷ ("b", none) ∷ []) ∷ [];
}
