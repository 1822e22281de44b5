-- ===== src/Engine/Executor/Sync.antt =====
-- What synchronised steps and rollbacks do not wait for.
use mathlib.Core.Path.{subst, fun_ext}
use glusterd.Prelude.{
  ℕ, ◌+◌, Bool, true, false, ◌&&◌, Option, none, some, List, [], ◌∷◌, ◌++◌, ◌≡◌, refl, sym, ap, ◌∙◌,
  if◌then◌else◌, length, arith,
}
use glusterd.Transaction.Nodes.{NodeId}
use glusterd.Transaction.Run.{Cluster, Step}
use glusterd.Engine.Executor.{
  ExecError, NodeTxn, Round, Outcome, sync_step, run_step, ran_step, run_txn_step, set_status,
  running, failed, failed_here, failed_elsewhere, exec_from, start_roll_back,
}
use glusterd.Engine.Executor.Calls.{
  do_calls, backward, last_of, Ran, Ran-done, run_txn_step-Ran, start_roll_back-calls,
}

sync_step_unwaited :
    (nodes : List NodeId) (r : Round) → r.cancelled ≡ false → sync_step nodes r ≡ none
unfolding sync_step
sync_step_unwaited nodes r h = ground arith

if_none : {A : Type 0} (t : Bool) (x : Option A) → x ≡ none → (if t then x else none) ≡ none
if_none t x h = ground arith

module _ (cl : Cluster) where
  run_txn_step_at_once :
      (nodes : List NodeId) (i : ℕ) (s : Step) (r : Round) (n : NodeTxn)
      → r.cancelled ≡ false
      → run_txn_step cl nodes i s r n ≡ ran_step cl i s r.write n (run_step cl s n.calls)
  unfolding run_txn_step
  run_txn_step_at_once nodes i s r n h =
      rw (if_none s.sync (sync_step nodes r) (sync_step_unwaited nodes r h), run_txn_step) refl

  run_txn_step_unwaited :
      (nodes : List NodeId) (i : ℕ) (s : Step) (r : Round) (arrived : NodeId → Bool) (n : NodeTxn)
      → r.cancelled ≡ false
      → run_txn_step cl nodes i s r n ≡ run_txn_step cl nodes i s (record r { arrived = arrived }) n
  run_txn_step_unwaited nodes i s r arrived n h =
      run_txn_step_at_once nodes i s r n h
      ∙ sym (run_txn_step_at_once nodes i s (record r { arrived = arrived }) n h)

  -- While the context of a transaction is not done, whether other nodes have reported the steps
  -- before a synchronised one makes no difference to what a node does: a wait that runs out of time
  -- counts as one that has ended well.
  pub exec_from_unwaited :
      (once : Bool) (nodes : List NodeId) (i : ℕ) (steps : List Step) (rounds : ℕ → Round)
      (arrived : ℕ → NodeId → Bool) (n : NodeTxn)
      → ((j : ℕ) → (rounds j).cancelled ≡ false)
      → exec_from cl once nodes i steps rounds n
        ≡ exec_from cl once nodes i steps (λ j. record (rounds j) { arrived = arrived j }) n
  unfolding exec_from
  exec_from_unwaited once nodes i [] rounds arrived n h = refl
  exec_from_unwaited once nodes i (s ∷ steps) rounds arrived n h =
      let r = rounds i in
      let after : NodeTxn × Option ExecError → (NodeTxn → NodeTxn × Outcome) → NodeTxn × Outcome =
        λ p go_on. if r.told then (p.0, failed_elsewhere) else elim p.1 [
          | some e ↦ (set_status cl failed r.reported p.0, failed_here e)
          | none ↦ go_on (set_status cl running (once && r.reported) p.0)
        ] in
      let rest = exec_from cl false nodes (i + 1) steps rounds in
      let same : (m : NodeTxn)
          → rest m
            ≡ exec_from cl false nodes (i + 1) steps
                (λ j. record (rounds j) { arrived = arrived j }) m =
        λ m. exec_from_unwaited false nodes (i + 1) steps rounds arrived m h in
      ap (λ p. after p rest) (run_txn_step_unwaited nodes i s r (arrived i) n (h i))
      ∙ ap (after (run_txn_step cl nodes i s (record r { arrived = arrived i }) n)) (fun_ext same)

  -- A step that ends well after the rollback of the steps before it stays done: it is called after
  -- the undo functions of those, and the store says that it is executed.
  late_step_kept :
      (nodes : List NodeId) (before rest : List Step) (s : Step) (r : Round) (n : NodeTxn)
      → n.last ≡ last_of (length before)
      → let late =
          run_txn_step cl nodes
            (length before)
            s
            r
            (start_roll_back cl true (before ++ s ∷ rest) n) in
        late.1 ≡ none
        → (late.0.calls ≡ (n.calls ++ backward cl.my_uuid before) ++ do_calls cl.my_uuid s)
          × (late.0.last ≡ some (length before))
  late_step_kept nodes before rest s r n kept fine =
      let n₁ = start_roll_back cl true (before ++ s ∷ rest) n in
      let late = run_txn_step cl nodes (length before) s r n₁ in
      let ran = run_txn_step-Ran cl nodes (length before) s r n₁ in
      let (did, last) =
        Ran-done cl (length before) s r.write n₁ late.0
          (subst (Ran cl (length before) s r.write n₁ late.0) fine ran) in
      (
        did
            ∙ ap (λ x. x ++ do_calls cl.my_uuid s)
                (start_roll_back-calls cl true before (s ∷ rest) n kept),
        last,
      )
