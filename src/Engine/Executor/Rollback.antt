-- ===== src/Engine/Executor/Rollback.antt =====
-- The calls of step functions that a node makes for a transaction, up to its rollback.
use mathlib.Core.Path.{subst}
use mathlib.Core.List.{append_assoc, append-nil}
use glusterd.Prelude.{
  ℕ, suc, ◌+◌, true, false, ◌&&◌, none, some, List, [], ◌∷◌, ◌++◌, string_eq, ◌≡◌, refl, arith,
  Bool, Bool-cases, Option-cases, inl, inr, ap, sym, ◌∙◌, length, drop_of_append, length-append,
  contains,
}
use glusterd.Transaction.Nodes.{NodeId}
use glusterd.Transaction.Run.{Cluster, Step, Call}
use glusterd.Engine.Executor.{
  Stored, stored, lost, stored_unseen, ExecError, NodeTxn, Round, run_txn_step, finish, set_status,
  running, failed, exec_from, start_exec, resume, execute, start_roll_back,
}
use glusterd.Engine.Executor.Calls.{
  do_calls, undo_calls_of, forward, backward, last_of, forward-append, start_roll_back-calls, Ran,
  run_txn_step-Ran, Ran-set_status, Ran-done,
}

module _ (cl : Cluster) where
  open cl use {my_uuid}

  -- What a node has called, rollback included, when it began with the calls `calls` and the run of
  -- the steps `all` and the rollback leave `after`.
  pub data RolledBack (all : List Step) (rounds : ℕ → Round) (calls after : List Call)
      : Type 0 where
    all_run :
        after ≡ (calls ++ forward my_uuid all) ++ backward my_uuid all
        → RolledBack all rounds calls after
    stopped :
        (before rest : List Step)
        → all ≡ before ++ rest
        → after ≡ (calls ++ forward my_uuid before) ++ backward my_uuid before
        → RolledBack all rounds calls after
    undone_twice :
        (before rest : List Step) (s : Step)
        → all ≡ before ++ s ∷ rest
        → (rounds (length before)).write ≡ stored_unseen
        → after
          ≡ (((calls ++ forward my_uuid before) ++ do_calls my_uuid s) ++ undo_calls_of my_uuid s)
            ++ backward my_uuid (before ++ s ∷ [])
        → RolledBack all rounds calls after
    undone_at :
        (before rest : List Step) (s : Step)
        → all ≡ before ++ s ∷ rest
        → after
          ≡ (((calls ++ forward my_uuid before) ++ do_calls my_uuid s) ++ undo_calls_of my_uuid s)
            ++ backward my_uuid before
        → RolledBack all rounds calls after

  length-snoc : (before : List Step) (s : Step) → length (before ++ s ∷ []) ≡ suc (length before)
  length-snoc before s = omega (arith, length-append before (s ∷ []))

  forward-snoc :
      (calls : List Call) (before : List Step) (s : Step)
      → (calls ++ forward my_uuid before) ++ do_calls my_uuid s
        ≡ calls ++ forward my_uuid (before ++ s ∷ [])
  forward-snoc calls before s =
      append_assoc calls (forward my_uuid before) (do_calls my_uuid s)
      ∙ ap (λ x. calls ++ x)
          (sym (
            forward-append my_uuid before (s ∷ [])
            ∙ ap (λ x. forward my_uuid before ++ x) (append-nil (do_calls my_uuid s))))

  finish-keeps :
      (w : Stored) (n : NodeTxn)
      → ((finish cl w n).0.calls ≡ n.calls) × ((finish cl w n).0.last ≡ n.last)
  unfolding finish
  finish-keeps stored n = (refl, refl)
  finish-keeps lost n = (refl, refl)
  finish-keeps stored_unseen n = (refl, refl)

  module _ (nodes : List NodeId) (rounds : ℕ → Round) (written : Bool) (calls : List Call) where
    -- A step that ends with an error, and the rollback.
    failed-RolledBack :
        (before rest : List Step) (s : Step) (e : ExecError) (n n' : NodeTxn)
        → n.calls ≡ calls ++ forward my_uuid before
        → n.last ≡ last_of (length before)
        → Ran cl (length before) s (rounds (length before)).write n n' (some e)
        → RolledBack
            (before ++ s ∷ rest)
            rounds
            calls
            (start_roll_back cl written (before ++ s ∷ rest) n').calls
    failed-RolledBack before rest s e n n' made kept (Ran.not_run _ same last) =
        RolledBack.stopped before (s ∷ rest) refl (
          start_roll_back-calls cl written before (s ∷ rest) n' (last ∙ kept)
          ∙ ap (λ x. x ++ backward my_uuid before) (same ∙ made))
    failed-RolledBack before rest s e n n' made kept (Ran.undone _ did last) =
        RolledBack.undone_at before rest s refl (
          start_roll_back-calls cl written before (s ∷ rest) n' (last ∙ kept)
          ∙ ap (λ x. x ++ backward my_uuid before)
              (did ∙ ap (λ x. (x ++ do_calls my_uuid s) ++ undo_calls_of my_uuid s) made))
    failed-RolledBack before rest s e n n' made kept (Ran.undone_unseen _ unseen did last) =
        RolledBack.undone_twice before rest s refl unseen (
          ap (λ x. (start_roll_back cl written x n').calls)
            (sym (append_assoc before (s ∷ []) rest))
          ∙ start_roll_back-calls cl written (before ++ s ∷ []) rest n'
              (last ∙ ap last_of (sym (length-snoc before s)))
          ∙ ap (λ x. x ++ backward my_uuid (before ++ s ∷ []))
              (did ∙ ap (λ x. (x ++ do_calls my_uuid s) ++ undo_calls_of my_uuid s) made))

    -- A step that ends well while the failure of another node is noticed, and the rollback.
    told-RolledBack :
        (before rest : List Step) (s : Step) (n n' : NodeTxn)
        → n.calls ≡ calls ++ forward my_uuid before
        → n'.calls ≡ n.calls ++ do_calls my_uuid s
        → n'.last ≡ some (length before)
        → RolledBack
            (before ++ s ∷ rest)
            rounds
            calls
            (start_roll_back cl written (before ++ s ∷ rest) n').calls
    told-RolledBack before rest s n n' made did last =
        RolledBack.stopped (before ++ s ∷ []) rest (sym (append_assoc before (s ∷ []) rest)) (
          ap (λ x. (start_roll_back cl written x n').calls)
            (sym (append_assoc before (s ∷ []) rest))
          ∙ start_roll_back-calls cl written (before ++ s ∷ []) rest n'
              (last ∙ ap last_of (sym (length-snoc before s)))
          ∙ ap (λ x. x ++ backward my_uuid (before ++ s ∷ []))
              (did ∙ ap (λ x. x ++ do_calls my_uuid s) made ∙ forward-snoc calls before s))

    -- What the rollback gives from a state in which `before` is executed and `steps` are to come.
    abbrev After : List Step → List Step → NodeTxn → Type 0
    After before steps n =
        RolledBack (before ++ steps) rounds calls
          (start_roll_back cl written (before ++ steps) n).calls

    finish-After :
        (before : List Step) (w : Stored) (n : NodeTxn)
        → n.calls ≡ calls ++ forward my_uuid before
        → n.last ≡ last_of (length before)
        → After before [] (finish cl w n).0
    finish-After before w n made kept =
        let out = (finish cl w n).0 in
        let same = finish-keeps w n in
        subst (λ x. RolledBack x rounds calls (start_roll_back cl written x out).calls)
          (sym (append-nil before))
          (RolledBack.all_run (
            ap (λ x. (start_roll_back cl written x out).calls) (sym (append-nil before))
            ∙ start_roll_back-calls cl written before [] out (same.1 ∙ kept)
            ∙ ap (λ x. x ++ backward my_uuid before) (same.0 ∙ made)))

    -- One more step is executed.
    After-snoc :
        (before rest : List Step) (s : Step) (n : NodeTxn)
        → After
            (before ++ s ∷ [])
            rest
            (exec_from cl false nodes (length (before ++ s ∷ [])) rest rounds n).0
        → After before (s ∷ rest) (exec_from cl false nodes (length before + 1) rest rounds n).0
    After-snoc before rest s n later =
        let index : length (before ++ s ∷ []) ≡ length before + 1 =
          omega (arith, length-snoc before s) in
        subst
          (λ x.
            RolledBack x rounds calls
              (start_roll_back cl written x
                (exec_from cl false nodes (length before + 1) rest rounds n).0).calls)
          (append_assoc before (s ∷ []) rest)
          (subst (λ i. After (before ++ s ∷ []) rest (exec_from cl false nodes i rest rounds n).0)
            index later)

    exec_from-RolledBack :
        (once : Bool) (before steps : List Step) (n : NodeTxn)
        → n.calls ≡ calls ++ forward my_uuid before
        → n.last ≡ last_of (length before)
        → After before steps (exec_from cl once nodes (length before) steps rounds n).0
    unfolding exec_from
    exec_from-RolledBack once before [] n made kept =
        finish-After before (rounds (length before)).write n made kept
    exec_from-RolledBack once before (s ∷ rest) n made kept =
        let r = rounds (length before) in
        let ran = run_txn_step-Ran cl nodes (length before) s r n in
        let n' = (run_txn_step cl nodes (length before) s r n).0 in
        elim (Option-cases (run_txn_step cl nodes (length before) s r n).1) [
          | inr (e, failing) ↦
              let ran' = subst (Ran cl (length before) s r.write n n') failing ran in
              elim (Bool-cases r.told) [
                | inl told ↦ simp told (failed-RolledBack before rest s e n n' made kept ran')
                | inr untold ↦
                    simp (untold, failing)
                      (failed-RolledBack before rest s e n (set_status cl failed r.reported n') made
                        kept (Ran-set_status cl _ s r.write n n' (some e) failed r.reported ran'))
              ]
          | inl fine ↦
              let (did, last) =
                Ran-done cl _ s r.write n n'
                  (subst (Ran cl (length before) s r.write n n') fine ran) in
              elim (Bool-cases r.told) [
                | inl told ↦ simp told (told-RolledBack before rest s n n' made did last)
                | inr untold ↦
                    let n'' = set_status cl running (once && r.reported) n' in
                    simp (untold, fine)
                      (After-snoc before rest s n'' (
                        exec_from-RolledBack false (before ++ s ∷ []) rest n''
                          (did
                            ∙ ap (λ x. x ++ do_calls my_uuid s) made
                            ∙ forward-snoc calls before s)
                          (last ∙ ap last_of (sym (length-snoc before s)))))
              ]
        ]

  -- A node that runs the steps of a transaction from the first on, whatever happens meanwhile, and
  -- rolls back when the step under way has ended, has run its part of the steps in order up to some
  -- step and undone the same steps in the reverse order, the failing one at once; only a step whose
  -- record in the store is written though its write is reported as failed is undone once more.
  pub start_exec-RolledBack :
      (nodes : List NodeId) (steps : List Step) (rounds : ℕ → Round) (written : Bool) (n : NodeTxn)
      → contains my_uuid nodes ≡ true
      → n.last ≡ none
      → RolledBack steps rounds n.calls
          (start_roll_back cl written steps (start_exec cl nodes 0 steps rounds n).0).calls
  unfolding start_exec
  start_exec-RolledBack nodes steps rounds written n involved fresh = rw involved (
      exec_from-RolledBack nodes rounds written n.calls true [] steps n (sym (append-nil n.calls))
        fresh)

  -- A node that is started anew after it has executed some steps of a transaction goes on with the
  -- next one: its calls before and after, up to the end of its rollback, are those that a node makes
  -- without the interruption.
  execute-RolledBack :
      (nodes : List NodeId) (first : Step) (before steps : List Step) (rounds : ℕ → Round)
      (written : Bool) (calls : List Call) (n : NodeTxn)
      → contains my_uuid nodes ≡ true
      → n.status ≡ running
      → n.last ≡ last_of (length (first ∷ before))
      → n.calls ≡ calls ++ forward my_uuid (first ∷ before)
      → let all = (first ∷ before) ++ steps in
        RolledBack all rounds calls
          (start_roll_back cl written all (execute cl nodes all rounds n).0).calls
  unfolding execute resume start_exec
  execute-RolledBack nodes first before steps rounds written calls n involved status kept made =
      let all = (first ∷ before) ++ steps in
      let goes_on : execute cl nodes all rounds n
          ≡ exec_from cl true nodes (length (first ∷ before)) steps rounds n =
        simp (status, execute, kept, resume, involved, start_exec, drop_of_append before steps) in
      subst (λ x. RolledBack all rounds calls (start_roll_back cl written all x.0).calls)
        (sym goes_on)
        (exec_from-RolledBack nodes rounds written calls true (first ∷ before) steps n made kept)
