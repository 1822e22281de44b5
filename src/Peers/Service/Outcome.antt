-- ===== src/Peers/Service/Outcome.antt =====
-- In which state a node is after it was asked to join or to leave.
use glusterd.Prelude.{
  ◌≡◌, ◌≢◌, ◌⊎◌, inl, inr, String, Bool, true, false, none, some, List, arith, Bool-cases,
}
use glusterd.Peers.Service.{
  no_error, store_reconfig_failed, running, Node, Answers, update_cluster_id, restart_default_store,
  reconfigure_store, join, leave,
}

-- The node is a running member of the cluster.
pub record IsMember (cluster_id : String) (endpoints : List String) (n : Node) : Type 0 where
  pub id : n.cluster_id ≡ cluster_id
  pub opened : n.store ≡ some cluster_id
  pub connected : n.endpoints ≡ endpoints
  pub saved : n.saved_endpoints ≡ endpoints
  pub services : n.events ≡ running
  pub engine : n.txn_engine ≡ true
  pub leader : n.cleanup_leader ≡ true

reconfigure_store-IsMember :
    (a : Answers) (endpoints : List String) (n : Node)
    → (reconfigure_store a endpoints n).1 ≡ true
    → IsMember n.cluster_id endpoints (reconfigure_store a endpoints n).0
unfolding reconfigure_store
reconfigure_store-IsMember a endpoints n h = ground arith

-- A node that reports that it has joined was alone in its cluster and had no volumes, and it is a
-- running member of the new cluster.
pub join-IsMember :
    (a : Answers) (busy : Bool) (cluster_id : String) (endpoints : List String) (n : Node)
    → (join a busy cluster_id endpoints n).1 ≡ no_error
    → (a.peers ≡ some 1)
      × (a.volumes ≡ some 0)
      × IsMember cluster_id endpoints (join a busy cluster_id endpoints n).0
unfolding join
join-IsMember a busy cluster_id endpoints n h =
    let is = reconfigure_store-IsMember a endpoints (record n { cluster_id = cluster_id }) in
    ground (arith, is)

reconfigure_store_fails :
    (a : Answers) (endpoints : List String) (n : Node)
    → (reconfigure_store a endpoints n).1 ≡ false
    → let n' = (reconfigure_store a endpoints n).0 in
      (n'.txn_engine ≡ false)
      × (n'.cleanup_leader ≡ false)
      × (n'.events ≢ running)
      × (n'.cluster_id ≡ n.cluster_id)
      × (a.peers_left ≢ none → a.inits_again ≡ true → n'.store ≡ some n.cluster_id)
unfolding reconfigure_store restart_default_store
reconfigure_store_fails a endpoints n h = ground arith

-- A node that reports that the reconfiguration of its store has failed runs no transaction engine, no
-- clean-up leader and not all of the events, until it is started again. If it could list its peers
-- and its store was opened again, that store lies in the namespace of the cluster that the node did
-- not join, while its cluster id, if it could be restored, is the old one.
pub join_fails :
    (a : Answers) (busy : Bool) (cluster_id : String) (endpoints : List String) (n : Node)
    → (join a busy cluster_id endpoints n).1 ≡ store_reconfig_failed
    → let n' = (join a busy cluster_id endpoints n).0 in
      (n'.txn_engine ≡ false)
      × (n'.cleanup_leader ≡ false)
      × (n'.events ≢ running)
      × (a.peers_left ≢ none → a.inits_again ≡ true → n'.store ≡ some cluster_id)
      × (a.restores_id ≡ true → n'.cluster_id ≡ n.cluster_id)
unfolding join update_cluster_id
join_fails a busy cluster_id endpoints n h =
    let fails = reconfigure_store_fails a endpoints (record n { cluster_id = cluster_id }) in
    ground (arith, fails)

-- A join that is refused for any other reason leaves the node as it was.
join_refused :
    (a : Answers) (busy : Bool) (cluster_id : String) (endpoints : List String) (n : Node)
    → (join a busy cluster_id endpoints n).1 ≢ no_error
    → (join a busy cluster_id endpoints n).1 ≢ store_reconfig_failed
    → (join a busy cluster_id endpoints n).0 ≡ n
unfolding join update_cluster_id
join_refused a busy cluster_id endpoints n done failed = ground arith

-- A node that is free, knows the peer that asks and can update its cluster id always reports that it
-- has left, under the fresh id. It is a running member of a cluster of its own if its store could be
-- reconfigured; if not, it reports the same, and its transaction engine does not run.
leave_lem :
    (a : Answers) (fresh : String) (defaults : List String) (n : Node)
    → a.knows_peer ≡ true
    → a.updates_id ≡ true
    → let (n', e) = leave a false fresh defaults n in
      (e ≡ no_error)
      × (n'.cluster_id ≡ fresh)
      × (IsMember fresh defaults n' ⊎ (n'.txn_engine ≡ false))
unfolding leave update_cluster_id
leave_lem a fresh defaults n known updated =
    let n₁ : Node = record n { cluster_id = fresh } in
    elim (Bool-cases (reconfigure_store a defaults n₁).1) [
      | inl done ↦
          let member = reconfigure_store-IsMember a defaults n₁ done in
          (ground arith, ground (arith, member), inl (ground (arith, member)))
      | inr failed ↦
          let fails = reconfigure_store_fails a defaults n₁ failed in
          (ground arith, ground (arith, fails), inr (ground (arith, fails)))
    ]
