-- ===== src/Transaction/Run/Liveness.antt =====
-- The check before a transaction that its nodes are alive.
use glusterd.Prelude.{
  Bool, true, false, none, some, List, [], ◌∷◌, string_eq, eq_iff, contains, IsUnique, ◌≡◌, ◌⊎◌,
  refl, arith, Bool-cases, Option-cases, inl, inr, sym, ◌∙◌,
}
use glusterd.Transaction.Nodes.{NodeId, nodes_union, nodes_union_lem}
use glusterd.Transaction.Run.{
  Call, Cluster, Txn, TxnError, node_down, first_down, check_alive, listed_nodes, do_txn,
  committed_do,
}

module _ (cl : Cluster) where
  -- Every node of the list is alive.
  abbrev pub AllAlive : List NodeId → Type 0
  AllAlive nodes = (n : NodeId) → contains n nodes ≡ true → cl.is_node_alive n ≡ true

  first_down-none : (nodes : List NodeId) → first_down cl nodes ≡ none → AllAlive nodes
  unfolding first_down
  first_down-none [] h n m = cc
  first_down-none (x ∷ xs) h n m =
      ground (arith, first_down-none xs, first_down-none xs _ n, eq_iff x n)

  none-first_down : (nodes : List NodeId) → AllAlive nodes → first_down cl nodes ≡ none
  unfolding first_down
  none-first_down [] h = refl
  none-first_down (x ∷ xs) h =
      ground (arith, h x, eq_iff x x, none-first_down xs (λ n m. h n (ground arith)))

  first_down-some :
      (nodes : List NodeId) (e : TxnError)
      → first_down cl nodes ≡ some e
      → (n : NodeId) × (e ≡ node_down n) × (contains n nodes ≡ true) × (cl.is_node_alive n ≡ false)
  unfolding first_down
  first_down-some [] e h = cc
  first_down-some (x ∷ xs) e h = elim (Bool-cases (cl.is_node_alive x)) [
    | inl alive ↦
        let (n, is, m, down) = first_down-some xs e (ground arith) in (n, is, ground arith, down)
    | inr down ↦ (x, ground arith, ground (arith, eq_iff x x), down)
  ]

  -- A transaction that checks for liveness looks at its nodes, or at those of all its steps if none
  -- are given, each once. If all of them are alive it commits the context and runs its steps; else
  -- it makes no call, and reports one of the nodes that are down.
  pub do_txn_checked :
      (t : Txn) (commits : Bool) (calls : List Call)
      → t.dont_check_alive ≡ false
      → let listed = listed_nodes cl t.nodes t.steps in
        let t' = record t { nodes = nodes_union listed } in
        IsUnique t'.nodes
        × ((AllAlive listed
              × (do_txn cl t commits calls ≡ (
                t',
                (committed_do cl t' commits calls).0,
                (committed_do cl t' commits calls).1,
              )))
            ⊎ ((n : NodeId) × (contains n listed ≡ true)
                × (cl.is_node_alive n ≡ false)
                × (do_txn cl t commits calls ≡ (t', calls, some (node_down n)))))
  unfolding do_txn check_alive
  do_txn_checked t commits calls checked =
      let listed = listed_nodes cl t.nodes t.steps in
      let (unique, same, kept) = nodes_union_lem listed in
      (
        unique,
        elim (Option-cases (first_down cl (nodes_union listed))) [
          | inl up ↦
              inl (
                (λ n m. first_down-none (nodes_union listed) up n (same n ∙ m)),
                simp (checked, up),
              )
          | inr (e, down) ↦
              let (n, is, m, dead) = first_down-some (nodes_union listed) e down in
              inr (n, sym (same n) ∙ m, dead, simp (checked, down, is))
        ],
      )
