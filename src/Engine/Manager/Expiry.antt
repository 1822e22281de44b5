-- ===== src/Engine/Manager/Expiry.antt =====
-- What the collection of expired transactions marks.
use mathlib.Core.Path.{subst}
use mathlib.Core.List.{Memᴰ}
use mathlib.Core.List.Memᴰ as MemD
use glusterd.Prelude.{
  ℕ, ◌+◌, ◌<◌, ◌≡◌, ◌⊎◌, refl, inl, inr, String, true, false, ◌&&◌, Option, none, some, List, [],
  ◌∷◌, ◌==◌, string_eq, ltb, if◌then◌else◌, arith, eq_iff, contains, Bool-cases, Option-cases,
}
use glusterd.GoMap.{GoMap, lookup, insert, lookup-insert}
use glusterd.Transaction.Nodes.{NodeId}
use glusterd.Engine.Executor.{Stored}
use glusterd.Engine.Manager.{
  TxnStatus, PendingTxn, Pending, entries, put_nodes, applies, is_failed, update_txn_status,
  get_txn_status, get_txns, non_failed, expired_status, mark_expired, gc_txn, gc_loop, txn_gc,
}

pub lookup-put_nodes :
    {A : Type 0} (a : A) (nodes : List NodeId) (m : GoMap NodeId A) (node : NodeId)
    → lookup node (put_nodes a nodes m) ≡ (if contains node nodes then some a else lookup node m)
unfolding put_nodes
lookup-put_nodes a [] m node = refl
lookup-put_nodes a (x ∷ nodes) m node =
    ground
      (arith, lookup-put_nodes a nodes (insert x a m) node, lookup-insert x node a m, eq_iff x node)

-- What the store has as the status of a transaction on a node.
abbrev pub entry : String → NodeId → Pending → Option TxnStatus
entry id node db = lookup node (entries id db.status)

-- No status, or one that is not valid, or a failure.
abbrev pub IsSettled : String → NodeId → Pending → Type 0
IsSettled id node db =
    (st : TxnStatus) → get_txn_status db false id node ≡ some st → is_failed st.state ≡ true

pub entry-update :
    (st : TxnStatus) (t id : String) (nodes : List NodeId) (w : Stored) (db : Pending)
    (node : NodeId)
    → entry id node (update_txn_status st t nodes w db).0
      ≡ (if applies w && (t == id) && contains node nodes then some st else entry id node db)
unfolding update_txn_status
entry-update st t id nodes w db node = ground (
  arith,
  eq_iff t id,
  lookup-insert t id (put_nodes st nodes (entries t db.status)) db.status,
  lookup-put_nodes st nodes (entries t db.status) node,
)

IsSettled-of_none :
    (db : Pending) (id : String) (node : NodeId)
    → get_txn_status db false id node ≡ none
    → IsSettled id node db
IsSettled-of_none db id node h st g = cc

IsSettled-of_failed :
    (db : Pending) (id : String) (node : NodeId) (st : TxnStatus)
    → get_txn_status db false id node ≡ some st
    → is_failed st.state ≡ true
    → IsSettled id node db
IsSettled-of_failed db id node st g f st' g' = cc

contains-cons :
    (x node : NodeId) (nodes : List NodeId)
    → contains node (x ∷ nodes) ≡ true
    → (x ≡ node) ⊎ (contains node nodes ≡ true)
contains-cons x node nodes h = ground (arith, eq_iff x node)

contains_later :
    (x node : NodeId) (nodes : List NodeId)
    → contains node nodes ≡ true
    → contains node (x ∷ nodes) ≡ true
contains_later x node nodes h = ground arith

contains_first :
    (x node : NodeId) (nodes : List NodeId) → x ≡ node → contains node (x ∷ nodes) ≡ true
contains_first x node nodes h = ground (arith, eq_iff x node)

contains-non_failed :
    (db : Pending) (id : String) (nodes : List NodeId) (node : NodeId)
    → contains node nodes ≡ true
    → (contains node (non_failed db (λ n. false) id nodes) ≡ true) ⊎ IsSettled id node db
unfolding non_failed
contains-non_failed db id [] node h = absurd (ground (arith, h))
contains-non_failed db id (x ∷ nodes) node h = elim (Option-cases (get_txn_status db false id x)) [
  | inl unread ↦
      rw (unread, non_failed)
        (elim (contains-cons x node nodes h) [
          | inl this ↦ inr (subst (λ y. IsSettled id y db) this (IsSettled-of_none db id x unread))
          | inr later ↦ contains-non_failed db id nodes node later
        ])
  | inr (st, read) ↦ elim (Bool-cases (is_failed st.state)) [
    | inl over ↦
        rw (read, over, non_failed)
          (elim (contains-cons x node nodes h) [
            | inl this ↦
                inr (subst (λ y. IsSettled id y db) this (IsSettled-of_failed db id x st read over))
            | inr later ↦ contains-non_failed db id nodes node later
          ])
    | inr going ↦
        rw (read, going, non_failed)
          (elim (contains-cons x node nodes h) [
            | inl this ↦ inl (contains_first x node (non_failed db (λ n. false) id nodes) this)
            | inr later ↦ elim (contains-non_failed db id nodes node later) [
              | inl there ↦ inl (contains_later x node (non_failed db (λ n. false) id nodes) there)
              | inr settled ↦ inr settled
            ]
          ])
  ]
]

IsSettled-of_expired :
    (t id : String) (node : NodeId) (db : Pending)
    → entry id node db ≡ some (expired_status t)
    → IsSettled id node db
unfolding get_txn_status is_failed
IsSettled-of_expired t id node db h st g = ground (arith, h)

IsSettled-of_same :
    (id : String) (node : NodeId) (db db' : Pending)
    → entry id node db' ≡ entry id node db
    → IsSettled id node db
    → IsSettled id node db'
unfolding get_txn_status
IsSettled-of_same id node db db' h settled st g = settled st (ground (arith, h))

entry-mark_expired :
    (t : PendingTxn) (id : String) (w : Stored) (nodes : List NodeId) (db : Pending) (node : NodeId)
    → entry id node (mark_expired t w nodes db) ≡ (
        if applies w && (t.id == id) && contains node nodes
        then some (expired_status t.id)
        else entry id node db)
unfolding mark_expired
entry-mark_expired t id w [] db node = ground arith
entry-mark_expired t id w (x ∷ nodes) db node =
    entry-update (expired_status t.id) t.id id (x ∷ nodes) w db node

module _ (max_age now : ℕ) (writes : String → Stored) where
  gc_txn-keeps :
      (t : PendingTxn) (db : Pending) (id : String) (node : NodeId)
      → IsSettled id node db
      → IsSettled id node (gc_txn max_age now (λ i n. false) writes t db)
  unfolding gc_txn
  gc_txn-keeps t db id node settled = elim (Bool-cases (ltb (t.start_time + max_age) now)) [
    | inr young ↦ rw (young, gc_txn) settled
    | inl old ↦
        let nodes = non_failed db (λ n. false) t.id t.nodes in
        let w = writes t.id in
        let after = entry-mark_expired t id w nodes db node in
        elim (Bool-cases (applies w && (t.id == id) && contains node nodes)) [
          | inl hit ↦
              rw (old, gc_txn)
                (IsSettled-of_expired t.id id node (mark_expired t w nodes db) (rw hit at after))
          | inr miss ↦
              rw (old, gc_txn)
                (IsSettled-of_same id node db (mark_expired t w nodes db) (rw miss at after)
                  settled)
        ]
  ]

  gc_txn-settles :
      (t : PendingTxn) (db : Pending) (node : NodeId)
      → t.start_time + max_age < now
      → applies (writes t.id) ≡ true
      → contains node t.nodes ≡ true
      → IsSettled t.id node (gc_txn max_age now (λ i n. false) writes t db)
  unfolding gc_txn
  gc_txn-settles t db node old written there =
      elim (contains-non_failed db t.id t.nodes node there) [
        | inr settled ↦ gc_txn-keeps t db t.id node settled
        | inl listed ↦
            let nodes = non_failed db (λ n. false) t.id t.nodes in
            let after = entry-mark_expired t t.id (writes t.id) nodes db node in
            let expired : ltb (t.start_time + max_age) now ≡ true = ground (arith, old) in
            rw (expired, gc_txn)
              (IsSettled-of_expired t.id t.id node (mark_expired t (writes t.id) nodes db)
                (ground (arith, after, eq_iff t.id t.id, written, listed)))
      ]

  gc_loop-keeps :
      (ts : List PendingTxn) (db : Pending) (id : String) (node : NodeId)
      → IsSettled id node db
      → IsSettled id node (gc_loop max_age now (λ i n. false) writes ts db)
  unfolding gc_loop
  gc_loop-keeps [] db id node settled = settled
  gc_loop-keeps (t ∷ ts) db id node settled =
      gc_loop-keeps ts (gc_txn max_age now (λ i n. false) writes t db) id node
        (gc_txn-keeps t db id node settled)

  gc_loop-settles :
      (ts : List PendingTxn) (db : Pending) (t : PendingTxn) (node : NodeId)
      → Memᴰ t ts
      → t.start_time + max_age < now
      → applies (writes t.id) ≡ true
      → contains node t.nodes ≡ true
      → IsSettled t.id node (gc_loop max_age now (λ i n. false) writes ts db)
  unfolding gc_loop
  gc_loop-settles [] db t node m old written there = absurd (MemD.not-nil m)
  gc_loop-settles (u ∷ ts) db t node m old written there = elim (MemD.cases_cons m) [
    | inl this ↦ gc_loop-keeps ts (gc_txn max_age now (λ i n. false) writes u db) t.id node (
        subst (λ x. IsSettled t.id node (gc_txn max_age now (λ i n. false) writes x db)) this
          (gc_txn-settles t db node old written there))
    | inr later ↦
        gc_loop-settles ts (gc_txn max_age now (λ i n. false) writes u db) t node later old written
          there
  ]

  -- Where reads do not fail, every expired transaction whose write is applied is marked: after the
  -- collection no node of it has a valid status other than that the transaction failed.
  txn_gc-settles :
      (db : Pending) (t : PendingTxn) (node : NodeId)
      → Memᴰ t (get_txns db)
      → t.start_time + max_age < now
      → applies (writes t.id) ≡ true
      → contains node t.nodes ≡ true
      → IsSettled t.id node (txn_gc max_age now (λ i n. false) writes db)
  unfolding txn_gc
  txn_gc-settles db t node m old written there =
      gc_loop-settles (get_txns db) db t node m old written there
