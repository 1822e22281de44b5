-- ===== src/Engine/Scenarios.antt =====
-- A transaction of two steps on the nodes "a" and "b": tests, and the theorems at concrete inputs.
use mathlib.Core.List.{Memᴰ}
use glusterd.Prelude.{
  ◌≡◌, ◌⊎◌, refl, true, false, none, some, List, [], ◌∷◌, ◌++◌, string_eq, contains,
}
use glusterd.GoMap.{lookup, insert}
use glusterd.Transaction.Nodes.{nodes_union}
use glusterd.Transaction.Run.{call, other, run_step_func_locally}
use glusterd.Engine.Executor.{
  running, succeeded, failed, stored, step_failed, failed_here, completed, NodeTxn, should_run_step,
  sync_step, run_step, roll_back_step, ran_step, write_last, run_txn_step, finish, exec_from,
  start_exec, start_roll_back, resume, execute,
}
use glusterd.Engine.Executor.Calls.{forward}
use glusterd.Engine.Executor.Rollback.{RolledBack, start_exec-RolledBack}
use glusterd.Engine.Executor.Sync.{exec_from_unwaited}
use glusterd.Engine.Manager.{
  TxnStatus, PendingTxn, update_txn_status, update_last_executed_step, put_nodes, get_txns,
  remove_failed_txns,
}
use glusterd.Engine.Manager.Cleanup.{IsKept, AllUndone, remove_failed_txns-IsKept}
use glusterd.Engine.Txn.{
  with_nodes, listed, nodes_of_steps, prepare, write_prepared, add_prepared, add_txn, Notice,
  status_of, success, without, wait, conclude, do_txn,
}
use glusterd.Engine.Txn.Ready.{HasNotice, do_txn-success}
use glusterd.Engine.Fixtures.{
  node_a, create, start, quiet, fresh, txn, txn_ab, empty_store, good, with_txn,
}

failing_step : execute node_a ("a" ∷ "b" ∷ []) (create ∷ start ∷ []) (λ i. quiet) fresh ≡ (
  record {
    calls = call "create" "a" ∷ call "start" "a" ∷ call "stop" "a" ∷ [];
    last = some 0;
    status = failed;
  },
  failed_here (step_failed (other "no device")),
)
unfolding execute start_exec exec_from run_txn_step ran_step write_last run_step roll_back_step
    run_step_func_locally should_run_step sync_step
failing_step = refl

resumed :
    execute node_a
      ("a" ∷ [])
      (create ∷ create ∷ [])
      (λ i. quiet)
      (record { calls = []; last = some 0; status = running })
    ≡ (record { calls = call "create" "a" ∷ []; last = some 1; status = succeeded }, completed)
unfolding execute resume start_exec exec_from run_txn_step ran_step write_last run_step
    roll_back_step run_step_func_locally should_run_step sync_step finish
resumed = refl

start_exec-RolledBack_example :
    RolledBack node_a
      (create ∷ start ∷ [])
      (λ i. quiet)
      []
      (start_roll_back node_a true
        (create ∷ start ∷ [])
        (start_exec node_a ("a" ∷ "b" ∷ []) 0 (create ∷ start ∷ []) (λ i. quiet) fresh).0).calls
start_exec-RolledBack_example =
    start_exec-RolledBack node_a ("a" ∷ "b" ∷ []) (create ∷ start ∷ []) (λ i. quiet) true fresh refl
      refl

created_first : call "create" "a" ∷ [] ≡ [] ++ forward "a" (create ∷ [])
unfolding should_run_step
created_first = refl

exec_from_unwaited_example :
    exec_from node_a true ("a" ∷ "b" ∷ []) 0 (create ∷ start ∷ []) (λ i. quiet) fresh
    ≡ exec_from node_a true
        ("a" ∷ "b" ∷ [])
        0
        (create ∷ start ∷ [])
        (λ i. record quiet { arrived = λ node. false })
        fresh
exec_from_unwaited_example =
    exec_from_unwaited node_a true ("a" ∷ "b" ∷ []) 0 (create ∷ start ∷ []) (λ i. quiet)
      (λ i node. false) fresh (λ j. refl)

abbrev created : NodeTxn
created = record { calls = call "create" "a" ∷ []; last = some 0; status = failed }

late_fine :
    (run_txn_step node_a
      ("a" ∷ [])
      1
      create
      quiet
      (start_roll_back node_a true (create ∷ create ∷ []) created)).1
    ≡ none
unfolding run_txn_step ran_step write_last run_step run_step_func_locally should_run_step
    start_roll_back
late_fine = refl

prepared_txn : prepare txn good empty_store ≡ (txn_ab, with_txn, none)
unfolding prepare write_prepared add_prepared add_txn with_nodes listed nodes_of_steps nodes_union
    update_txn_status update_last_executed_step put_nodes insert lookup
prepared_txn = refl

abbrev succeeded_status : TxnStatus
succeeded_status = record { state = succeeded; txn_id = "t"; reason = "" }

abbrev both : List Notice
both = status_of "b" succeeded_status ∷ status_of "a" succeeded_status ∷ []

both_done : (do_txn false txn good both stored empty_store).1 ≡ some success
unfolding do_txn conclude wait without prepare write_prepared add_prepared add_txn with_nodes listed
    nodes_of_steps nodes_union update_txn_status update_last_executed_step put_nodes insert lookup
both_done = refl

all_nodes : contains "b" (listed txn.nodes txn.steps) ≡ true
unfolding listed nodes_of_steps
all_nodes = refl

do_txn-success_example : HasNotice "b" succeeded both
do_txn-success_example = do_txn-success txn good both stored empty_store both_done "b" all_nodes

remove_failed_txns-IsKept_example :
    IsKept "t" with_txn (remove_failed_txns (λ id node. false) (λ id. (true, true)) with_txn)
    ⊎ ((t : PendingTxn) × Memᴰ t (get_txns with_txn)
        × (t.id ≡ "t")
        × AllUndone with_txn (λ id node. false) t)
remove_failed_txns-IsKept_example =
    remove_failed_txns-IsKept (λ id node. false) (λ id. (true, true)) with_txn "t"

in_store : Memᴰ txn_ab (get_txns with_txn)
unfolding get_txns
in_store = Memᴰ.head refl
