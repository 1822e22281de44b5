-- ===== src/Transaction/Context/Peers.antt =====
-- Results that the peers leave for one another in the context of a transaction.
use text.Mathlib.TextLemmas.{append_inj, append_cancel_left}
use Prim.Native.String.{◌++◌, count}
use glusterd.Prelude.{String, ◌≡◌, ◌≢◌, none, string_eq, arith, eq_iff, Option-cases, inl, inr}
use glusterd.GoMap.{lookup-insert}
use glusterd.Etcd.{Etcd}
use glusterd.Transaction.Context.{Json, Tctx, set, set_node_result, get_node_result}
use glusterd.Transaction.Context.Cache.{get_lem}

-- The keys of two peers differ, since the ids of peers have one length.
node_keys_apart :
    (prefix p q key key' : String)
    → p ≢ q
    → count p ≡ count q
    → prefix ++ (p ++ "/" ++ key) ≢ prefix ++ (q ++ "/" ++ key')
node_keys_apart prefix p q key key' apart same e =
    apart (append_inj (append_cancel_left prefix _ _ e) same).0

module _ (etcd : Etcd) (j : Json) where
  open etcd use {Db}
  open j use {Value, marshal, unmarshal}

  -- The result that a peer leaves under a key does not change what is read as the result of another
  -- peer, under the same key or another one, if the ids of the two peers have the same length.
  get_node_result-set_node_result :
      (d : Db) (c : Tctx) (p q key key' : String) (v : Value)
      → p ≢ q
      → count p ≡ count q
      → (get_node_result etcd j d none (set_node_result j c p key v).0 q key').1
        ≡ (get_node_result etcd j d none c q key').1
  unfolding get_node_result set_node_result set
  get_node_result-set_node_result d c p q key key' v apart same =
      let k = c.store_prefix ++ (p ++ "/" ++ key) in
      let k' = c.store_prefix ++ (q ++ "/" ++ key') in
      let separate = node_keys_apart c.store_prefix p q key key' apart same in
      elim (Option-cases (marshal v)) [
        | inl none_encoded ↦ rw (none_encoded, set)
        | inr (b, encoded) ↦
            rw (encoded, set, get_lem)
              (ground (
                arith,
                separate,
                eq_iff k k',
                lookup-insert k k' b c.read_set,
                get_lem etcd j d c (q ++ "/" ++ key'),
              ))
      ]
