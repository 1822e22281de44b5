-- ===== src/Peers/Service.antt =====
-- glusterd2/commands/peers/peer-rpc-svc.go: a node that joins or leaves a cluster, and the restart of
-- its store. `Answers` says how the calls end that may fail. The file of the cluster id is taken to
-- be unchanged by an update that fails.
pub mod Outcome
use glusterd.Prelude.{
  ℕ, String, Bool, true, false, not, Option, none, some, List, [], ◌∷◌, nat_beq, Result, ok, err,
  if◌then◌else◌, ltb,
}

pub data JoinError : Type 0 where
  no_error another_cluster have_volumes store_reconfig_failed unknown_peer : JoinError
  cluster_id_update_failed another_req_in_progress failed_to_connect_to_store : JoinError

pub data Events : Type 0 where
  running global_only stopped : Events

-- The state of a node that the calls change. The open store lies in the namespace of the cluster id
-- with which it was opened.
pub record Node : Type 0 where
  pub cluster_id : String
  pub store : Option String
  pub endpoints : List String
  pub saved_endpoints : List String
  pub events : Events
  pub txn_engine : Bool
  pub cleanup_leader : Bool
  -- the namespaces that were deleted
  pub deleted : List (Option String)

-- How many peers and volumes the store lists (`none`: it cannot be read), and which calls succeed.
pub record Answers : Type 0 where
  pub peers : Option ℕ
  pub volumes : Option ℕ
  pub knows_peer : Bool
  pub updates_id : Bool
  pub restores_id : Bool
  -- the peers at the time of the reconfiguration
  pub peers_left : Option ℕ
  pub inits : Bool
  pub saves : Bool
  pub adds_self : Bool
  pub inits_again : Bool

unfoldable pub update_cluster_id : Bool → String → Node → Node
update_cluster_id succeeds id n = if succeeds then record n { cluster_id = id } else n

-- `events.Stop`, `StopTxnEngine` and `StopCleanupLeader`
abbrev stop_services : Node → Node
stop_services n = record n { events = stopped; txn_engine = false; cleanup_leader = false }

abbrev start_services : Node → Node
start_services n = record n { events = running; txn_engine = true; cleanup_leader = true }

-- `store.Destroy`
abbrev destroy : Bool → Node → Node
destroy delete_namespace n = record n {
  store = none;
  deleted = if delete_namespace then n.store ∷ n.deleted else n.deleted;
}

-- `store.Init` with the given or with the saved endpoints
abbrev init : Bool → List String → Node → Node
init succeeds endpoints n =
    if succeeds then record n { store = some n.cluster_id; endpoints = endpoints } else n

unfoldable pub restart_default_store : Answers → Bool → Bool → Node → Node
restart_default_store a destroys delete_namespace n =
    let n' = (if destroys then destroy delete_namespace n else n) in
    let n'' = init a.inits_again n'.saved_endpoints n' in record n'' { events = global_only }

unfoldable pub reconfigure_store : Answers → List String → Node → Node × Bool
unfolding restart_default_store
reconfigure_store a endpoints n =
    let n₁ = stop_services n in
    elim a.peers_left [
      | none ↦ (n₁, false)
      | some peers ↦
          let delete_namespace = nat_beq peers 0 in
          let n₂ = destroy delete_namespace n₁ in
          let n₃ = init a.inits endpoints n₂ in
          if not a.inits
          then (restart_default_store a false delete_namespace n₂, false)
          else if not a.saves
          then (restart_default_store a true delete_namespace n₃, false)
          else let n₄ = record n₃ { saved_endpoints = endpoints } in
            if not a.adds_self
            then (restart_default_store a true delete_namespace n₄, false)
            else (start_services n₄, true)
    ]

-- `busy`: another request holds the mutex.
unfoldable pub join : Answers → Bool → String → List String → Node → Node × JoinError
unfolding update_cluster_id
join a busy cluster_id endpoints n = if busy then (n, another_req_in_progress) else elim a.peers [
  | none ↦ (n, failed_to_connect_to_store)
  | some peers ↦ if not (nat_beq peers 1) then (n, another_cluster) else elim a.volumes [
    | none ↦ (n, failed_to_connect_to_store)
    | some volumes ↦
        if not (nat_beq volumes 0)
        then (n, another_cluster)
        else if not a.updates_id
        then (update_cluster_id a.restores_id n.cluster_id n, cluster_id_update_failed)
        else let (n', done) = reconfigure_store a endpoints (update_cluster_id true cluster_id n) in
          if done
          then (n', no_error)
          else (update_cluster_id a.restores_id n.cluster_id n', store_reconfig_failed)
  ]
]

-- `fresh` is the new cluster id, `defaults` the default endpoints. An error of the reconfiguration is
-- logged only.
unfoldable pub leave : Answers → Bool → String → List String → Node → Node × JoinError
unfolding update_cluster_id
leave a busy fresh defaults n =
    if busy
    then (n, another_req_in_progress)
    else if not a.knows_peer
    then (n, unknown_peer)
    else if not a.updates_id
    then (update_cluster_id a.restores_id n.cluster_id n, cluster_id_update_failed)
    else ((reconfigure_store a defaults (update_cluster_id true fresh n)).0, no_error)
