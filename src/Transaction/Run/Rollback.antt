-- ===== src/Transaction/Run/Rollback.antt =====
-- Which calls a transaction makes, in which order, when it succeeds and when it fails.
use mathlib.Core.List.{append_assoc, append-nil}
use glusterd.Prelude.{
  false, Option, none, some, List, [], ◌∷◌, ◌++◌, ◌==◌, string_eq, if◌then◌else◌, ◌≡◌, Bool-cases,
  inl, inr, ◌∙◌,
}
use glusterd.Transaction.Run.{Step, Call, Cluster, Txn, TxnError, undo}
use glusterd.Transaction.Run.Steps.{calls_of, run_step_func_on_nodes_calls}

-- The calls of the steps that are not skipped, in order.
abbrev pub forward : List Step → List Call
forward [] = []
forward (s ∷ steps) = (if s.skip then [] else calls_of s.do_func s.nodes) ++ forward steps

-- The calls that undo the steps, for those that are not skipped and have an undo function.
abbrev pub backward : List Step → List Call
backward [] = []
backward (s ∷ steps) =
    (if s.skip then [] else if s.undo_func == "" then [] else calls_of s.undo_func s.nodes)
    ++ backward steps

-- `done` with `before` in front of it in reverse: the steps behind a failing one, the last first.
abbrev pub reverse_onto : List Step → List Step → List Step
reverse_onto [] done = done
reverse_onto (s ∷ before) done = reverse_onto before (s ∷ done)

module _ (cl : Cluster) where
  pub undo_calls :
      (done : List Step) (calls : List Call) → undo cl done calls ≡ calls ++ backward done
  unfolding undo
  undo_calls [] calls = simp append-nil
  undo_calls (s ∷ done) calls = elim (Bool-cases s.skip) [
    | inl skipped ↦ rw skipped (undo_calls done calls)
    | inr run ↦ rw run (elim (Bool-cases (s.undo_func == "")) [
      | inl empty ↦ rw empty (undo_calls done calls)
      | inr named ↦
          rw (named, run_step_func_on_nodes_calls)
            (undo_calls done _ ∙ append_assoc calls (calls_of s.undo_func s.nodes) (backward done))
    ])
  ]

  -- How a run of the steps that are left ends, by its calls and its result.
  pub data Ended (t : Txn) (done rest : List Step) (calls : List Call)
      (out : List Call × Option TxnError) : Type 0 where
    all_done : out.1 ≡ none → out.0 ≡ calls ++ forward rest → Ended t done rest calls out
    failed_at :
        (before after : List Step) (s : Step) (e : TxnError)
        → rest ≡ before ++ s ∷ after
        → s.skip ≡ false
        → out.1 ≡ some e
        → out.0
          ≡ (calls ++ forward before ++ calls_of s.do_func s.nodes)
            ++ (if t.disable_rollback then [] else backward (s ∷ reverse_onto before done))
        → Ended t done rest calls out

  abbrev made : Step → List Call
  made s = if s.skip then [] else calls_of s.do_func s.nodes
