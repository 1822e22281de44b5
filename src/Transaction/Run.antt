-- ===== src/Transaction/Run.antt =====
-- glusterd2/transaction/step.go and transaction.go: the steps of a transaction, run on the nodes of
-- the cluster one after another, and rolled back when one of them fails.
pub mod Steps
pub mod Rollback
pub mod Liveness
use glusterd.Prelude.{
  ℕ, zero, suc, String, Bool, true, false, not, ◌&&◌, Option, none, some, List, [], ◌∷◌, ◌++◌, ◌==◌,
  string_eq, length, replicate, nat_beq, nat_eq, if◌then◌else◌,
}
use glusterd.Transaction.Nodes.{NodeId, nodes_union}

-- What a node answers for a step that fails; `unavailable` is the gRPC code of that name.
pub data NodeError : Type 0 where
  unavailable : NodeError
  step_func_not_found : NodeError
  other : String → NodeError

pub record Step : Type 0 where
  pub do_func : String
  pub undo_func : String
  pub nodes : List NodeId
  pub skip : Bool
  pub sync : Bool

-- The run of a step function on a node.
pub data Call : Type 0 where
  call : String → NodeId → Call

-- What answers to the transaction: the registry of step functions on this node, the commit of the
-- context after one, the other nodes, and the liveness keys in the store. An answer may depend on
-- all the calls before it.
pub record Cluster : Type 0 where
  pub my_uuid : NodeId
  pub step_func : String → Option (List Call → Option NodeError)
  pub commit : List Call → Option NodeError
  pub remote : List Call → String → NodeId → Option NodeError
  pub is_node_alive : NodeId → Bool

pub record PeerResp : Type 0 where
  pub peer_id : NodeId
  pub error : Option NodeError

pub record StepResp : Type 0 where
  pub step : String
  pub resps : List PeerResp
  pub err_count : ℕ

-- A Go error, by its dynamic type: a `stepResp`, a pointer to one, and the other errors.
pub data TxnError : Type 0 where
  step_resp : StepResp → TxnError
  step_resp_pointer : StepResp → TxnError
  node_down : NodeId → TxnError
  commit_failed : TxnError

pub record Txn : Type 0 where
  pub steps : List Step
  pub dont_check_alive : Bool
  pub disable_rollback : Bool
  pub nodes : List NodeId

module _ (cl : Cluster) where
  unfoldable pub run_step_func_locally : List Call → String → Option NodeError
  run_step_func_locally calls name = elim (cl.step_func name) [
    | none ↦ some step_func_not_found
    | some f ↦ elim (f calls) [ some e ↦ some e | none ↦ cl.commit calls ]
  ]

  -- The answer of one node, and the calls with this one.
  unfoldable pub run_step_func_on_node : List Call → String → NodeId → Option NodeError
  unfolding run_step_func_locally
  run_step_func_on_node calls name node =
      if node == cl.my_uuid then run_step_func_locally calls name else cl.remote calls name node

  -- One goroutine for each node, all of them waited for: the answers in the order of arrival, for
  -- which `nodes` stands, and how many are errors.
  collect : List Call → String → List NodeId → List Call × List PeerResp × ℕ
  collect calls name [] = (calls, [], 0)
  collect calls name (node ∷ nodes) =
      let error = run_step_func_on_node calls name node in
      let (calls', resps, errors) = collect (calls ++ call name node ∷ []) name nodes in
      (
        calls',
        record { peer_id = node; error = error } ∷ resps,
        elim error [ none ↦ errors | some _ ↦ suc errors ],
      )

  -- `make([]stepPeerResp, len(nodes))`, to which the answers are appended.
  abbrev pub zero_resp : PeerResp
  zero_resp = record { peer_id = ""; error = none }

  unfoldable pub run_step_func_on_nodes :
      List Call → String → List NodeId → List Call × Option TxnError
  unfolding collect
  run_step_func_on_nodes calls name nodes =
      let (calls', resps, errors) = collect calls name nodes in
      (
        calls',
        if nat_beq errors 0
            then none
            else some (
                step_resp (record {
                  step = name;
                  resps = replicate (length nodes) zero_resp ++ resps;
                  err_count = errors;
                })),
      )

  unfoldable pub do_step : Step → List Call → List Call × Option TxnError
  do_step s calls = run_step_func_on_nodes calls s.do_func s.nodes

  unfoldable pub undo_step : Step → List Call → List Call
  undo_step s calls =
      if s.undo_func == "" then calls else (run_step_func_on_nodes calls s.undo_func s.nodes).0

  abbrev is_unavailable : Option NodeError → Bool
  is_unavailable (some unavailable) = true
  is_unavailable _ = false

  all_unavailable : List PeerResp → Bool
  all_unavailable [] = true
  all_unavailable (r ∷ rs) = is_unavailable r.error && all_unavailable rs

  -- The type assertion `err.(*stepResp)` holds of a pointer only.
  unfoldable pub is_node_unreachable : TxnError → Bool
  unfolding all_unavailable
  is_node_unreachable (step_resp_pointer r) = all_unavailable r.resps
  is_node_unreachable _ = true

  -- `undo(n)`: the steps from `Steps[n]` down to `Steps[0]`, given in this order.
  unfoldable pub undo : List Step → List Call → List Call
  unfolding undo_step
  undo [] calls = calls
  undo (s ∷ done) calls = undo done (if s.skip then calls else undo_step s calls)

  fail_step : Txn → List Step → TxnError → List Call → List Call × Option TxnError
  fail_step t done e calls = (if t.disable_rollback then calls else undo done calls, some e)

  -- The loop of `Do` over the steps that are left; `done` are the steps before, the last one first.
  unfoldable pub run_steps : Txn → List Step → List Step → List Call → List Call × Option TxnError
  unfolding do_step fail_step
  run_steps t done [] calls = (calls, none)
  run_steps t done (s ∷ rest) calls =
      let skipped = run_steps t (s ∷ done) rest calls in
      let (calls', result) = do_step s calls in
      let go_on = run_steps t (s ∷ done) rest calls' in
      if s.skip then skipped else elim result [
        | none ↦ go_on
        | some e ↦
            if t.dont_check_alive && is_node_unreachable e
            then go_on
            else fail_step t (s ∷ done) e calls'
      ]

  -- The nodes of all the steps, skipped or not.
  unfoldable pub step_nodes : List Step → List NodeId
  step_nodes [] = []
  step_nodes (s ∷ steps) = s.nodes ++ step_nodes steps

  first_down : List NodeId → Option TxnError
  first_down [] = none
  first_down (node ∷ nodes) =
      if cl.is_node_alive node then first_down nodes else some (node_down node)

  -- `t.Nodes`, or the nodes of the steps if it is empty, without duplicates.
  pub listed_nodes : List NodeId → List Step → List NodeId
  listed_nodes [] steps = step_nodes steps
  listed_nodes (x ∷ xs) steps = x ∷ xs

  unfoldable pub check_alive : Txn → Txn × Option TxnError
  unfolding first_down listed_nodes
  check_alive t =
      let nodes = nodes_union (listed_nodes t.nodes t.steps) in
      (record t { nodes = nodes }, first_down nodes)

  unfoldable pub committed_do : Txn → Bool → List Call → List Call × Option TxnError
  unfolding run_steps
  committed_do t commits calls =
      if commits then run_steps t [] t.steps calls else (calls, some commit_failed)

  alive_do : Txn × Option TxnError → Bool → List Call → Txn × List Call × Option TxnError
  alive_do (t, some e) commits calls = (t, calls, some e)
  alive_do (t, none) commits calls =
      let (calls', result) = committed_do t commits calls in (t, calls', result)

  -- `Do`; `commits` says whether the first commit of the context succeeds.
  unfoldable pub do_txn : Txn → Bool → List Call → Txn × List Call × Option TxnError
  unfolding alive_do
  do_txn t commits calls =
      alive_do (if t.dont_check_alive then (t, none) else check_alive t) commits calls
