-- ===== src/Georep/Workers.antt =====
-- The workers of a session that `georepStatusHandler` of plugins/georeplication/rest.go reports, and
-- `aggregateGsyncdStatus` of transactions.go.
use Prim.Native.String.{◌++◌}
use glusterd.Prelude.{◌≡◌, refl, String, Option, none, some, List, [], ◌∷◌, map, string_eq}
use glusterd.GoMap.{GoMap, lookup, insert}

pub record WorkerStatus : Type 0 where
  pub status : String
  pub last_synced_time : String
  pub last_synced_time_utc : String
  pub last_entry_synced_time : String
  pub remote_peer_hostname : String
  pub checkpoint_time : String
  pub checkpoint_time_utc : String
  pub checkpoint_completed : String
  pub checkpoint_completed_time : String
  pub checkpoint_completed_time_utc : String
  pub meta_ops : String
  pub entry_ops : String
  pub data_ops : String
  pub failed_ops : String
  pub crawl_status : String

pub record Worker : Type 0 where
  pub master_peer_hostname : String
  pub master_peer_id : String
  pub master_brick_path : String
  pub master_brick : String
  pub details : WorkerStatus

pub record Brick : Type 0 where
  pub hostname : String
  pub peer_id : String
  pub path : String

abbrev pub defaults : WorkerStatus
defaults = record {
  status = "Unknown";
  last_synced_time = "N/A";
  last_synced_time_utc = "N/A";
  last_entry_synced_time = "N/A";
  remote_peer_hostname = "N/A";
  checkpoint_time = "N/A";
  checkpoint_time_utc = "N/A";
  checkpoint_completed = "N/A";
  checkpoint_completed_time = "N/A";
  checkpoint_completed_time_utc = "N/A";
  meta_ops = "0";
  entry_ops = "0";
  data_ops = "0";
  failed_ops = "0";
  crawl_status = "N/A";
}

-- The value of a missing key: every field is the empty text.
abbrev pub zero_status : WorkerStatus
zero_status = record {
  status = "";
  last_synced_time = "";
  last_synced_time_utc = "";
  last_entry_synced_time = "";
  remote_peer_hostname = "";
  checkpoint_time = "";
  checkpoint_time_utc = "";
  checkpoint_completed = "";
  checkpoint_completed_time = "";
  checkpoint_completed_time_utc = "";
  meta_ops = "";
  entry_ops = "";
  data_ops = "";
  failed_ops = "";
  crawl_status = "";
}

abbrev pub Results : Type 0
Results = GoMap String WorkerStatus

unfoldable pub add_results : Results → Results → Results
add_results [] all = all
add_results ((k, v) ∷ tmp) all = add_results tmp (insert k v all)

-- The results of the nodes, in order; the result of one may be missing.
unfoldable pub aggregate : List (Option Results) → Results → Option Results
aggregate [] all = some all
aggregate (r ∷ nodes) all = elim r [
  | none ↦ none
  | some tmp ↦ aggregate nodes (add_results tmp all)
]

-- The first loop.
unfoldable pub new_workers : List Brick → List Worker
new_workers [] = []
new_workers (b ∷ bricks) =
    record {
      master_peer_hostname = b.hostname;
      master_peer_id = b.peer_id;
      master_brick_path = b.path;
      master_brick = b.peer_id ++ ":" ++ b.path;
      details = defaults;
    }
    ∷ new_workers bricks

abbrev pub or_zero : Option WorkerStatus → WorkerStatus
or_zero r = elim r [ none ↦ zero_status | some d ↦ d ]

-- The second loop.
unfoldable pub fill_workers : Results → List Worker → List Worker
fill_workers results [] = []
fill_workers results (w ∷ workers) =
    record w { details = or_zero (lookup (w.master_peer_id ++ ":" ++ w.master_brick_path) results) }
    ∷ fill_workers results workers

-- The worker of one brick as it is reported.
pub reported : Results → Brick → Worker
reported results b = record {
  master_peer_hostname = b.hostname;
  master_peer_id = b.peer_id;
  master_brick_path = b.path;
  master_brick = b.peer_id ++ ":" ++ b.path;
  details = or_zero (lookup (b.peer_id ++ ":" ++ b.path) results);
}

-- The workers come in the order of the bricks, each with what the nodes report under its brick; where
-- they report nothing, all is empty, and the defaults that are set before are never reported.
fill_workers-new_workers :
    (results : Results) (bricks : List Brick)
    → fill_workers results (new_workers bricks) ≡ map (reported results) bricks
unfolding fill_workers new_workers reported
fill_workers-new_workers results [] = refl
fill_workers-new_workers results (b ∷ bricks) =
    let later = fill_workers-new_workers results bricks in cc
