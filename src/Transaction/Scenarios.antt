-- ===== src/Transaction/Scenarios.antt =====
-- A transaction of two steps on two nodes: tests, and the theorems at concrete inputs.
use glusterd.Prelude.{
  ℕ, ◌≤◌, sym, ◌==◌, String, ◌≡◌, ◌≢◌, ◌⊎◌, refl, true, false, Option, none, some, List, [], ◌∷◌,
  arith, ok, nat_eq, string_eq, contains, IsUnique, if◌then◌else◌,
}
use glusterd.GoMap.{has}
use glusterd.Etcd.{succeeded}
use glusterd.Etcd.Memory.{memory}
use glusterd.Transaction.Context.{Json, Tctx, new_ctx, set, commit, get}
use glusterd.Transaction.Context.Cache.{get-commit-set}
use glusterd.Transaction.Nodes.{NodeId, nodes_union}
use glusterd.Transaction.Locks.{
  LockError, Locks, obtained, deadline_exceeded, after_attempts, lock_with_retry,
  acquire_cluster_locks,
}
use glusterd.Transaction.Locks.Held.{AllFresh, acquire_cluster_locks_lem, lock_with_retry_lem}
use glusterd.Transaction.Run.{
  Step, call, Cluster, Txn, other, run_step_func_on_nodes, is_node_unreachable, do_txn, run_steps,
  node_down, listed_nodes, committed_do, step_nodes, check_alive, undo, undo_step, do_step,
  run_step_func_on_node,
}
use glusterd.Transaction.Run.Liveness.{AllAlive, do_txn_checked}

-- Values that are texts already.
abbrev text_json : Json
text_json = record {
  Value = String;
  marshal = λ v. some v;
  unmarshal = λ b. some b;
  unmarshal-marshal = λ v b h. sym h;
}

abbrev first : String
first = "v1"

abbrev second : String
second = "v2"

abbrev trio : List NodeId
trio = "a" ∷ "b" ∷ "a" ∷ []

abbrev ctx : Tctx
ctx = record { store_prefix = "txn/1/"; read_set = []; read_cache_dirty = true; write_set = [] }

abbrev written : Tctx
written = record ctx { write_set = ("txn/1/volinfo", "v2") ∷ [] }

get-commit-set_example :
    let (c', d', e) = commit memory succeeded [] (set text_json ctx "volinfo" second).0 in
    (e ≡ none)
    × (c'.write_set ≡ [])
    × ((get memory text_json d' none (new_ctx "txn/1/") "volinfo").1 ≡ ok (some second))
get-commit-set_example = get-commit-set memory text_json [] ctx "volinfo" "v2" second refl

-- Node `a` is this one and runs every step; node `b` fails in the second step.
abbrev cluster : Cluster
cluster = record {
  my_uuid = "a";
  step_func = λ name. some (λ calls. none);
  commit = λ calls. none;
  remote = λ calls name node. if name == "start" then some (other "no space") else none;
  is_node_alive = λ node. true;
}

abbrev create : Step
create = record {
  do_func = "create";
  undo_func = "remove";
  nodes = "a" ∷ "b" ∷ [];
  skip = false;
  sync = false;
}

abbrev start : Step
start = record {
  do_func = "start";
  undo_func = "stop";
  nodes = "b" ∷ [];
  skip = false;
  sync = false;
}

abbrev volume_start : Txn
volume_start = record {
  steps = create ∷ start ∷ [];
  dont_check_alive = false;
  disable_rollback = false;
  nodes = [];
}

abbrev volume_start_unchecked : Txn
volume_start_unchecked = record volume_start { dont_check_alive = true }

-- The second step fails, and both are undone, the second one first.
rolled_back :
    (do_txn cluster volume_start true []).1
    ≡ call "create" "a"
      ∷ call "create" "b"
      ∷ call "start" "b"
      ∷ call "stop" "b"
      ∷ call "remove" "a"
      ∷ call "remove" "b"
      ∷ []
unfolding do_txn run_steps run_step_func_on_nodes check_alive nodes_union step_nodes committed_do
    undo undo_step do_step run_step_func_on_node is_node_unreachable
rolled_back = refl

do_txn_checked_example :
    let listed = listed_nodes cluster [] (create ∷ start ∷ []) in
    let t' = record volume_start { nodes = nodes_union listed } in
    IsUnique t'.nodes
    × ((AllAlive cluster listed
          × (do_txn cluster volume_start true []
              ≡ (t', (committed_do cluster t' true []).0, (committed_do cluster t' true []).1)))
        ⊎ ((n : NodeId) × (contains n listed ≡ true)
            × (true ≡ false)
            × (do_txn cluster volume_start true [] ≡ (t', [], some (node_down n)))))
do_txn_checked_example = do_txn_checked cluster volume_start true [] refl

acquire_cluster_locks_lem_example :
    let ids : List String = "vol1" ∷ "vol2" ∷ [] in
    let (l', e) =
      acquire_cluster_locks (λ id. false) [] ids ((obtained, 1) ∷ (deadline_exceeded, 2) ∷ []) in
    ((e ≡ none)
      × AllFresh [] ids
      × ((k : String) → has k l' ≡ (if contains k ids then true else has {V = ℕ} k [])))
    ⊎ ((e ≢ none) × ((k : String) → has k l' ≡ true → false ≡ true))
acquire_cluster_locks_lem_example =
    acquire_cluster_locks_lem (λ id. false) [] ("vol1" ∷ "vol2" ∷ [])
      ((obtained, 1) ∷ (deadline_exceeded, 2) ∷ [])

lock_with_retry_lem_example :
    (l' : Locks) × (e : Option LockError) × (made : ℕ) × (lock_with_retry 3 [] "vol1" 3 0 []
      ≡ some (l', e, made))
    × (made ≤ 3)
    × (((e ≡ none) × (has "vol1" l' ≡ true))
        ⊎ ((x : LockError) × (e ≡ some (after_attempts x 3)) × (made ≡ 3)))
lock_with_retry_lem_example = lock_with_retry_lem 3 [] "vol1" 3 0 [] (omega arith) (omega arith)
