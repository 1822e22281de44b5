-- ===== src/Engine/Manager/Cleanup.antt =====
-- What the clean-up of failed transactions removes.
use mathlib.Core.List.{Memᴰ}
use glusterd.Prelude.{
  ◌≤◌, ◌≡◌, ◌⊎◌, refl, sym, ◌∙◌, inl, inr, String, Bool, true, false, none, some, List, [], ◌∷◌,
  ◌==◌, string_eq, nat_beq, length, arith, eq_iff, All, Bool-cases, Option-cases,
}
use glusterd.GoMap.{lookup, lookup-delete}
use glusterd.Transaction.Nodes.{NodeId}
use glusterd.Engine.Executor.{TxnState, failed}
use glusterd.Engine.Manager.{
  TxnStatus, PendingTxn, Pending, is_failed, get_txn_status, get_last_executed_step,
  remove_transaction, get_txns, is_rolled_back, count_rolled_back, remove_loop, remove_failed_txns,
}

-- Nothing is changed of what the store has of a transaction.
abbrev pub IsKept : String → Pending → Pending → Type 0
IsKept id db db' =
    (lookup id db'.txns ≡ lookup id db.txns)
    × (lookup id db'.status ≡ lookup id db.status)
    × (lookup id db'.last ≡ lookup id db.last)

-- The node has the status that the transaction failed, and a last step of -1.
pub record IsUndone (db : Pending) (fails : NodeId → Bool) (id : String) (node : NodeId)
    : Type 0 where
  pub status : TxnStatus
  pub read : get_txn_status db (fails node) id node ≡ some status
  pub failure : status.state ≡ failed
  pub none_left : get_last_executed_step db (fails node) id node ≡ some none

abbrev pub AllUndone : Pending → (String → NodeId → Bool) → PendingTxn → Type 0
AllUndone db fails t = All (IsUndone db (fails t.id) t.id) t.nodes

count_rolled_back-le :
    (db : Pending) (fails : NodeId → Bool) (id : String) (nodes : List NodeId)
    → count_rolled_back db fails id nodes ≤ length nodes
unfolding count_rolled_back
count_rolled_back-le db fails id [] = omega arith
count_rolled_back-le db fails id (node ∷ nodes) =
    ground (arith, count_rolled_back-le db fails id nodes)

count_rolled_back-All :
    (db : Pending) (fails : NodeId → Bool) (id : String) (nodes : List NodeId)
    → count_rolled_back db fails id nodes ≡ length nodes
    → All (λ node. is_rolled_back db fails id node ≡ true) nodes
unfolding count_rolled_back
count_rolled_back-All db fails id [] h = tt
count_rolled_back-All db fails id (node ∷ nodes) h =
    let le = count_rolled_back-le db fails id nodes in
    (ground (arith, le), count_rolled_back-All db fails id nodes (ground (arith, le)))

is_rolled_back-kept :
    (db db' : Pending) (fails : NodeId → Bool) (id : String) (node : NodeId)
    → IsKept id db db'
    → is_rolled_back db' fails id node ≡ is_rolled_back db fails id node
unfolding is_rolled_back get_txn_status get_last_executed_step
is_rolled_back-kept db db' fails id node (a, b, c) = ground (arith, b, c)

All-kept :
    (db db' : Pending) (fails : NodeId → Bool) (id : String) (nodes : List NodeId)
    → IsKept id db db'
    → All (λ node. is_rolled_back db' fails id node ≡ true) nodes
    → All (λ node. is_rolled_back db fails id node ≡ true) nodes
All-kept db db' fails id [] kept h = tt
All-kept db db' fails id (node ∷ nodes) kept (h, hs) = (
  sym (is_rolled_back-kept db db' fails id node kept) ∙ h,
  All-kept db db' fails id nodes kept hs,
)

remove_transaction-IsKept :
    (first second : Bool) (id other : String) (db : Pending)
    → (id == other) ≡ false
    → IsKept other db (remove_transaction first second id db)
unfolding remove_transaction
remove_transaction-IsKept first second id other db h = (
  ground (arith, lookup-delete id other db.txns),
  ground (arith, lookup-delete id other db.status),
  ground (arith, lookup-delete id other db.last),
)

abbrev AllRolledBack : Pending → (String → NodeId → Bool) → PendingTxn → Type 0
AllRolledBack db fails t = All (λ node. is_rolled_back db (fails t.id) t.id node ≡ true) t.nodes

is_failed-eq : (st : TxnState) → is_failed st ≡ true → st ≡ failed
unfolding is_failed
is_failed-eq st h = ground arith

IsUndone-of_rolled_back :
    (db : Pending) (fails : NodeId → Bool) (id : String) (node : NodeId)
    → is_rolled_back db fails id node ≡ true
    → IsUndone db fails id node
unfolding is_rolled_back
IsUndone-of_rolled_back db fails id node h =
    elim (Option-cases (get_txn_status db (fails node) id node)) [
      | inl unread ↦ absurd (ground (arith, unread))
      | inr (st, read) ↦ elim (Option-cases (get_last_executed_step db (fails node) id node)) [
        | inl unread ↦ absurd (ground (arith, read, unread))
        | inr (last, found) ↦ record {
          status = st;
          read = read;
          failure = is_failed-eq st.state (ground (arith, read, found));
          none_left = ground (arith, read, found);
        }
      ]
    ]

All-IsUndone :
    (db : Pending) (fails : NodeId → Bool) (id : String) (nodes : List NodeId)
    → All (λ node. is_rolled_back db fails id node ≡ true) nodes
    → All (IsUndone db fails id) nodes
All-IsUndone db fails id [] h = tt
All-IsUndone db fails id (node ∷ nodes) (h, hs) =
    (IsUndone-of_rolled_back db fails id node h, All-IsUndone db fails id nodes hs)

module _ (fails : String → NodeId → Bool) (deletes : String → Bool × Bool) where
  remove_loop-IsKept :
      (ts : List PendingTxn) (db : Pending) (id : String)
      → IsKept id db (remove_loop fails deletes ts db)
        ⊎ ((t : PendingTxn) × Memᴰ t ts × (t.id ≡ id) × AllRolledBack db fails t)
  unfolding remove_loop
  remove_loop-IsKept [] db id = inl (refl, refl, refl)
  remove_loop-IsKept (t ∷ ts) db id =
      elim (Bool-cases
        (nat_beq (count_rolled_back db (fails t.id) t.id t.nodes) (length t.nodes))) [
          | inr some_left ↦
              rw (some_left, remove_loop)
                (elim (remove_loop-IsKept ts db id) [
                  | inl kept ↦ inl kept
                  | inr (u, m, is, rolled) ↦ inr (u, Memᴰ.tail m, is, rolled)
                ])
          | inl all_done ↦
              let rolled =
                count_rolled_back-All db (fails t.id) t.id t.nodes (ground (arith, all_done)) in
              let db₁ = remove_transaction (deletes t.id).0 (deletes t.id).1 t.id db in
              rw (all_done, remove_loop)
                (elim (Bool-cases (t.id == id)) [
                  | inl this ↦ inr (t, Memᴰ.head refl, (eq_iff t.id id).0 this, rolled)
                  | inr other ↦
                      let kept₁ =
                        remove_transaction-IsKept (deletes t.id).0 (deletes t.id).1 t.id id db
                          other in
                      elim (remove_loop-IsKept ts db₁ id) [
                        | inl (a, b, c) ↦ inl (a ∙ kept₁.0, b ∙ kept₁.1, c ∙ kept₁.2)
                        | inr (u, m, is, rolled') ↦ inr (
                          u,
                          Memᴰ.tail m,
                          is,
                          All-kept db db₁ (fails u.id) u.id u.nodes (rw is kept₁) rolled',
                        )
                      ]
                ])
        ]

  -- The clean-up of failed transactions leaves everything of an id as it is, unless a transaction
  -- of that id has failed on each of its nodes and each of them has rolled it back.
  pub remove_failed_txns-IsKept :
      (db : Pending) (id : String)
      → IsKept id db (remove_failed_txns fails deletes db)
        ⊎ ((t : PendingTxn) × Memᴰ t (get_txns db) × (t.id ≡ id) × AllUndone db fails t)
  unfolding remove_failed_txns
  remove_failed_txns-IsKept db id = elim (remove_loop-IsKept (get_txns db) db id) [
    | inl kept ↦ inl kept
    | inr (t, m, is, rolled) ↦ inr (t, m, is, All-IsUndone db (fails t.id) t.id t.nodes rolled)
  ]
