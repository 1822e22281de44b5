-- ===== src/Engine/Executor/Calls.antt =====
-- The calls of step functions that one step, and the rollback of several, make on a node.
use mathlib.Core.List.{append_assoc, append-nil}
use glusterd.Prelude.{
  ℕ, zero, suc, not, ◌||◌, Option, none, some, List, [], ◌∷◌, ◌++◌, ◌==◌, string_eq, if◌then◌else◌,
  ◌≡◌, refl, Bool, Bool-cases, Option-cases, inl, inr, ap, sym, ◌∙◌, length, take_of_append,
}
use glusterd.Transaction.Nodes.{NodeId}
use glusterd.Transaction.Run.{Cluster, Step, Call, call, NodeError}
use glusterd.Engine.Executor.{
  Stored, stored, lost, stored_unseen, ExecError, step_failed, store_failed, ran_step, write_last,
  NodeTxn, Round, should_run_step, run_step, roll_back_step, run_txn_step, set_status, TxnState,
  roll_back_steps, start_roll_back, sync_step,
}

-- The calls of a step on this node, and of its undo.
abbrev pub do_calls : NodeId → Step → List Call
do_calls self s = if should_run_step self s then call s.do_func self ∷ [] else []

abbrev pub undo_calls_of : NodeId → Step → List Call
undo_calls_of self s =
    if not (should_run_step self s) || (s.undo_func == "") then [] else call s.undo_func self ∷ []

abbrev pub forward : NodeId → List Step → List Call
forward self [] = []
forward self (s ∷ steps) = do_calls self s ++ forward self steps

-- The last step first.
abbrev pub backward : NodeId → List Step → List Call
backward self [] = []
backward self (s ∷ steps) = backward self steps ++ undo_calls_of self s

-- What the store keeps when so many steps are executed.
abbrev pub last_of : ℕ → Option ℕ
last_of zero = none
last_of (suc k) = some k

pub forward-append :
    (self : NodeId) (a b : List Step) → forward self (a ++ b) ≡ forward self a ++ forward self b
forward-append self [] b = refl
forward-append self (s ∷ a) b =
    ap (λ x. do_calls self s ++ x) (forward-append self a b)
    ∙ sym (append_assoc (do_calls self s) (forward self a) (forward self b))

pub backward-append :
    (self : NodeId) (a b : List Step) → backward self (a ++ b) ≡ backward self b ++ backward self a
backward-append self [] b = sym (append-nil (backward self b))
backward-append self (s ∷ a) b =
    ap (λ x. x ++ undo_calls_of self s) (backward-append self a b)
    ∙ append_assoc (backward self b) (backward self a) (undo_calls_of self s)

module _ (cl : Cluster) where
  open cl use {my_uuid}

  pub run_step-calls :
      (s : Step) (calls : List Call) → (run_step cl s calls).0 ≡ calls ++ do_calls my_uuid s
  unfolding run_step
  run_step-calls s calls = elim (Bool-cases (should_run_step my_uuid s)) [
    | inl runs ↦ rw runs refl
    | inr skips ↦ rw skips (sym (append-nil calls))
  ]

  pub roll_back_step-calls :
      (s : Step) (calls : List Call) → roll_back_step cl s calls ≡ calls ++ undo_calls_of my_uuid s
  unfolding roll_back_step
  roll_back_step-calls s calls =
      elim (Bool-cases (not (should_run_step my_uuid s) || (s.undo_func == ""))) [
        | inl skips ↦ rw skips (sym (append-nil calls))
        | inr runs ↦ rw runs refl
      ]

  pub roll_back_steps-calls :
      (steps : List Step) (calls : List Call)
      → roll_back_steps cl steps calls ≡ calls ++ backward my_uuid steps
  unfolding roll_back_steps
  roll_back_steps-calls [] calls = sym (append-nil calls)
  roll_back_steps-calls (s ∷ steps) calls =
      roll_back_step-calls s (roll_back_steps cl steps calls)
      ∙ ap (λ x. x ++ undo_calls_of my_uuid s) (roll_back_steps-calls steps calls)
      ∙ append_assoc calls (backward my_uuid steps) (undo_calls_of my_uuid s)

  -- The rollback of the steps that the store says were executed.
  pub start_roll_back-calls :
      (written : Bool) (done rest : List Step) (n : NodeTxn)
      → n.last ≡ last_of (length done)
      → (start_roll_back cl written (done ++ rest) n).calls ≡ n.calls ++ backward my_uuid done
  unfolding start_roll_back
  start_roll_back-calls written [] rest n h = rw (h, start_roll_back) (sym (append-nil n.calls))
  start_roll_back-calls written (s ∷ done) rest n h =
      rw (h, start_roll_back)
        (ap (λ x. roll_back_steps cl x n.calls) (take_of_append (s ∷ done) rest)
          ∙ roll_back_steps-calls (s ∷ done) n.calls)

  -- What the run of one step leaves.
  pub data Ran (i : ℕ) (s : Step) (w : Stored) (n n' : NodeTxn) : Option ExecError → Type 0 where
    not_run : (e : ExecError) → n'.calls ≡ n.calls → n'.last ≡ n.last → Ran i s w n n' (some e)
    undone :
        (e : ExecError)
        → n'.calls ≡ (n.calls ++ do_calls my_uuid s) ++ undo_calls_of my_uuid s
        → n'.last ≡ n.last
        → Ran i s w n n' (some e)
    undone_unseen :
        (e : ExecError)
        → w ≡ stored_unseen
        → n'.calls ≡ (n.calls ++ do_calls my_uuid s) ++ undo_calls_of my_uuid s
        → n'.last ≡ some i
        → Ran i s w n n' (some e)
    done : n'.calls ≡ n.calls ++ do_calls my_uuid s → n'.last ≡ some i → Ran i s w n n' none

  pub ran_step-Ran :
      (i : ℕ) (s : Step) (w : Stored) (n : NodeTxn) (r : List Call × Option NodeError)
      → r.0 ≡ n.calls ++ do_calls my_uuid s
      → Ran i s w n (ran_step cl i s w n r).0 (ran_step cl i s w n r).1
  unfolding ran_step write_last
  ran_step-Ran i s w n (calls, some e) h =
      Ran.undone (step_failed e)
        (roll_back_step-calls s calls ∙ ap (λ x. x ++ undo_calls_of my_uuid s) h) refl
  ran_step-Ran i s stored n (calls, none) h = Ran.done h refl
  ran_step-Ran i s lost n (calls, none) h =
      Ran.undone store_failed
        (roll_back_step-calls s calls ∙ ap (λ x. x ++ undo_calls_of my_uuid s) h) refl
  ran_step-Ran i s stored_unseen n (calls, none) h =
      Ran.undone_unseen store_failed refl
        (roll_back_step-calls s calls ∙ ap (λ x. x ++ undo_calls_of my_uuid s) h) refl

  pub run_txn_step-Ran :
      (nodes : List NodeId) (i : ℕ) (s : Step) (r : Round) (n : NodeTxn)
      → Ran i s r.write n (run_txn_step cl nodes i s r n).0 (run_txn_step cl nodes i s r n).1
  unfolding run_txn_step
  run_txn_step-Ran nodes i s r n =
      elim (Option-cases (if s.sync then sync_step nodes r else none)) [
        | inl synced ↦
            rw (synced, run_txn_step)
              (ran_step-Ran i s r.write n (run_step cl s n.calls) (run_step-calls s n.calls))
        | inr (e, late) ↦ rw (late, run_txn_step) (Ran.not_run e refl refl)
      ]

  -- The status plays no part in it.
  pub Ran-set_status :
      (i : ℕ) (s : Step) (w : Stored) (n n' : NodeTxn) (r : Option ExecError) (st : TxnState)
      (applied : Bool)
      → Ran i s w n n' r
      → Ran i s w n (set_status cl st applied n') r
  Ran-set_status i s w n n' (some e) st applied (Ran.not_run _ a b) = Ran.not_run e a b
  Ran-set_status i s w n n' (some e) st applied (Ran.undone _ a b) = Ran.undone e a b
  Ran-set_status i s w n n' (some e) st applied (Ran.undone_unseen _ u a b) =
      Ran.undone_unseen e u a b
  Ran-set_status i s w n n' none st applied (Ran.done a b) = Ran.done a b

  pub Ran-done :
      (i : ℕ) (s : Step) (w : Stored) (n n' : NodeTxn)
      → Ran i s w n n' none
      → (n'.calls ≡ n.calls ++ do_calls my_uuid s) × (n'.last ≡ some i)
  Ran-done i s w n n' (Ran.done a b) = (a, b)
