-- ===== src/Transaction/Run/Steps.antt =====
-- The calls that a step makes, and when it fails.
use mathlib.Core.List.{append_assoc, append-nil}
use glusterd.Prelude.{
  String, true, none, some, List, [], ◌∷◌, ◌++◌, string_eq, nat_eq, ◌≡◌, refl, arith, map, ◌↔◌,
}
use glusterd.Transaction.Nodes.{NodeId}
use glusterd.Transaction.Run.{
  Call, call, Cluster, TxnError, run_step_func_on_node, run_step_func_on_nodes, collect,
  is_node_unreachable,
}

-- The calls of one function on a list of nodes.
abbrev pub calls_of : String → List NodeId → List Call
calls_of name nodes = map (call name) nodes

module _ (cl : Cluster) where
  collect_calls :
      (calls : List Call) (name : String) (nodes : List NodeId)
      → (collect cl calls name nodes).0 ≡ calls ++ calls_of name nodes
  unfolding collect
  collect_calls calls name [] = simp append-nil
  collect_calls calls name (node ∷ nodes) =
      rw (collect_calls (calls ++ call name node ∷ []) name nodes) (simp append_assoc)

  -- Every node of a step is called, whether or not an earlier one has failed.
  pub run_step_func_on_nodes_calls :
      (calls : List Call) (name : String) (nodes : List NodeId)
      → (run_step_func_on_nodes cl calls name nodes).0 ≡ calls ++ calls_of name nodes
  unfolding run_step_func_on_nodes
  run_step_func_on_nodes_calls = collect_calls

  -- No node has failed.
  abbrev pub AllAnswered : List Call → String → List NodeId → Type 0
  AllAnswered calls name [] = Unit
  AllAnswered calls name (node ∷ nodes) =
      (run_step_func_on_node cl calls name node ≡ none)
      × AllAnswered (calls ++ call name node ∷ []) name nodes

  no_errors :
      (calls : List Call) (name : String) (nodes : List NodeId)
      → ((collect cl calls name nodes).2 ≡ 0) ↔ AllAnswered calls name nodes
  unfolding collect
  no_errors calls name [] = (λ _. tt, λ _. refl)
  no_errors calls name (node ∷ nodes) =
      let ih = no_errors (calls ++ call name node ∷ []) name nodes in
      (λ h. ground (arith, ih.0), λ h. ground (arith, ih.1))

  -- A step fails exactly when one of its nodes does, and every error of a step is a `stepResp`,
  -- which is taken for one of unreachable nodes whatever the nodes have answered.
  pub run_step_func_on_nodes_error :
      (calls : List Call) (name : String) (nodes : List NodeId)
      → (((run_step_func_on_nodes cl calls name nodes).1 ≡ none) ↔ AllAnswered calls name nodes)
        × ((e : TxnError)
            → (run_step_func_on_nodes cl calls name nodes).1 ≡ some e
            → is_node_unreachable cl e ≡ true)
  unfolding run_step_func_on_nodes is_node_unreachable
  run_step_func_on_nodes_error calls name nodes =
      let ih = no_errors calls name nodes in
      ((λ h. ground (arith, ih.0), λ h. ground (arith, ih.1)), λ e h. ground arith)
