-- ===== src/Engine/Executor.antt =====
-- glusterd2/transactionv2/executor.go, steprunner.go and engine.go: the steps of one transaction on
-- one node, and how the node rolls them back.
pub mod Calls
pub mod Rollback
pub mod Sync
use glusterd.Prelude.{
  ℕ, zero, suc, ◌+◌, String, Bool, true, false, not, ◌&&◌, ◌||◌, Option, none, some, List, [], ◌∷◌,
  ◌++◌, ◌==◌, string_eq, contains, drop, take, if◌then◌else◌,
}
use glusterd.Transaction.Nodes.{NodeId}
use glusterd.Transaction.Run.{Cluster, Step, Call, call, NodeError, run_step_func_locally}

-- How the write of the last step ends: an error may hide that it was applied.
pub data Stored : Type 0 where
  stored lost stored_unseen : Stored

pub data ExecError : Type 0 where
  step_failed : NodeError → ExecError
  context_done : ExecError
  store_failed : ExecError

pub data TxnState : Type 0 where
  pending running succeeded failed unknown : TxnState

-- What the node does and keeps for a transaction: the calls of step functions, the last step
-- executed as it stands in the store (`none` is -1), and the status that this node wrote.
pub record NodeTxn : Type 0 where
  pub calls : List Call
  pub last : Option ℕ
  pub status : TxnState

-- What happens while a step is under way: which nodes have reported the steps before in time,
-- whether the context of the step is done, how the write of the last step ends (or,
-- after the steps, that of the status), whether the failure of another node is noticed first, and
-- whether a write of the status is applied whose error is dropped.
pub record Round : Type 0 where
  pub arrived : NodeId → Bool
  pub cancelled : Bool
  pub write : Stored
  pub told : Bool
  pub reported : Bool

pub data Outcome : Type 0 where
  completed : Outcome
  failed_here : ExecError → Outcome
  failed_elsewhere : Outcome

unfoldable pub should_run_step : NodeId → Step → Bool
should_run_step self s = not s.skip && contains self s.nodes

pub all_arrived : (NodeId → Bool) → List NodeId → Bool
all_arrived arrived [] = true
all_arrived arrived (node ∷ nodes) = let rest = all_arrived arrived nodes in arrived node && rest

-- `SyncStep`: when its own context is done it returns the error of the context around it.
unfoldable pub sync_step : List NodeId → Round → Option ExecError
unfolding all_arrived
sync_step nodes r =
    if all_arrived r.arrived nodes then none else if r.cancelled then some context_done else none

module _ (cl : Cluster) where
  -- `runStep`: the error of the cache is dropped.
  pub run_step_local : String → List Call → List Call × Option NodeError
  run_step_local name calls =
      (calls ++ call name cl.my_uuid ∷ [], run_step_func_locally cl calls name)

  unfoldable pub run_step : Step → List Call → List Call × Option NodeError
  unfolding run_step_local
  run_step s calls =
      if should_run_step cl.my_uuid s then run_step_local s.do_func calls else (calls, none)

  unfoldable pub roll_back_step : Step → List Call → List Call
  unfolding run_step_local
  roll_back_step s calls =
      if not (should_run_step cl.my_uuid s) || (s.undo_func == "")
      then calls
      else (run_step_local s.undo_func calls).0

  -- `UpdateLastExecutedStep` after the step function.
  unfoldable pub write_last : ℕ → Step → Stored → NodeTxn → NodeTxn × Option ExecError
  write_last i s stored n = (record n { last = some i }, none)
  write_last i s lost n = (record n { calls = roll_back_step s n.calls }, some store_failed)
  write_last i s stored_unseen n =
      (record n { last = some i; calls = roll_back_step s n.calls }, some store_failed)

  unfoldable pub ran_step :
      ℕ → Step → Stored → NodeTxn → List Call × Option NodeError → NodeTxn × Option ExecError
  unfolding write_last
  ran_step i s w n (calls, some e) =
      (record n { calls = roll_back_step s calls }, some (step_failed e))
  ran_step i s w n (calls, none) = write_last i s w (record n { calls = calls })

  -- `runTxnStep`, with the error that it sends.
  unfoldable pub run_txn_step :
      List NodeId → ℕ → Step → Round → NodeTxn → NodeTxn × Option ExecError
  unfolding ran_step
  run_txn_step nodes i s r n = elim (if s.sync then sync_step nodes r else none) [
    | some e ↦ (n, some e)
    | none ↦ ran_step i s r.write n (run_step s n.calls)
  ]

  unfoldable pub finish : Stored → NodeTxn → NodeTxn × Outcome
  finish stored n = (record n { status = succeeded }, completed)
  finish lost n = (n, failed_here store_failed)
  finish stored_unseen n = (record n { status = succeeded }, failed_here store_failed)

  -- The status after a write of it whose error is dropped.
  abbrev pub set_status : TxnState → Bool → NodeTxn → NodeTxn
  set_status st applied n = record n { status = if applied then st else n.status }

  -- The loop of `startExec`; `once` until the first step has ended. When the failure of another node
  -- is noticed, the step under way still goes to its end, and its error reaches nobody.
  unfoldable pub exec_from :
      Bool → List NodeId → ℕ → List Step → (ℕ → Round) → NodeTxn → NodeTxn × Outcome
  unfolding finish
  exec_from once nodes i [] rounds n = finish (rounds i).write n
  exec_from once nodes i (s ∷ steps) rounds n =
      let (n', result) = run_txn_step nodes i s (rounds i) n in
      let go_on =
        exec_from false nodes (i + 1) steps rounds
          (set_status running (once && (rounds i).reported) n') in
      if (rounds i).told then (n', failed_elsewhere) else elim result [
        | some e ↦ (set_status failed (rounds i).reported n', failed_here e)
        | none ↦ go_on
      ]

  -- `Execute` and `Resume` of the executor. A node that is not involved does nothing.
  unfoldable pub start_exec :
      List NodeId → ℕ → List Step → (ℕ → Round) → NodeTxn → NodeTxn × Outcome
  start_exec nodes start steps rounds n =
      if contains cl.my_uuid nodes
      then exec_from true nodes start (drop start steps) rounds n
      else (n, completed)

  unfoldable pub resume : List NodeId → List Step → (ℕ → Round) → NodeTxn → NodeTxn × Outcome
  resume nodes steps rounds n =
      start_exec nodes (elim n.last [ none ↦ 0 | some i ↦ suc i ]) steps rounds n

  -- `Execute` of the engine: what is done depends on the status.
  unfoldable pub execute : List NodeId → List Step → (ℕ → Round) → NodeTxn → NodeTxn × Outcome
  execute nodes steps rounds n = elim n.status [
    | pending ↦ start_exec nodes 0 steps rounds n
    | running ↦ resume nodes steps rounds n
    | succeeded ↦ (n, completed)
    | failed ↦ (n, completed)
    | unknown ↦ (n, completed)
  ]

  -- The loop of `startRollBack`, from `Steps[i]` down to `Steps[0]`; `steps` are the first ones,
  -- in their order.
  pub roll_back_steps : List Step → List Call → List Call
  roll_back_steps [] calls = calls
  roll_back_steps (s ∷ steps) calls = roll_back_step s (roll_back_steps steps calls)

  -- `written` says whether the last step is set back to -1; an error is dropped.
  unfoldable pub start_roll_back : Bool → List Step → NodeTxn → NodeTxn
  start_roll_back written steps n = elim n.last [
    | none ↦ n
    | some i ↦ record n {
      calls = roll_back_steps (take (suc i) steps) n.calls;
      last = if written then none else some i;
    }
  ]
