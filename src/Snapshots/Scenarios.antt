-- ===== src/Snapshots/Scenarios.antt =====
-- Tests and worked cases of the snapshots.
use glusterd.Prelude.{
  ◌≡◌, refl, String, true, false, Option, none, some, List, [], ◌∷◌, map, string_eq, codes, ok,
}
use glusterd.GoMap.{lookup}
use glusterd.Brickmux.{stopped}
use glusterd.Volumes.{Brickinfo, Subvol, Volinfo}
use glusterd.Volumes.Create.Subvols.{BrickEnv, new_brick_entry, new_brick_entries}
use glusterd.Volumes.Fixtures.{triple, triple_volume, brick_at}
use glusterd.Volumes.State.{Outcome}
use glusterd.BricksPlanner.Request.{itoa}
use glusterd.Peers.Address.{split_host_port}
use glusterd.Text.{has_code}
use glusterd.Snapshots.{Snapinfo, Db}
use glusterd.Snapshots.Info.{
  SnapCreateReq, change_options, brick_reqs, create_snap_subvols, create_snapinfo,
  create_restore_volinfo, restore_subvols, snap_volinfo_of, ignore_ops,
}
use glusterd.Snapshots.Info.Restored.{IsRestored, create_restore_volinfo-create_snapinfo}
use glusterd.Snapshots.Create.{SnapEnv, Answer, CreateRun}

abbrev brick_env : BrickEnv
brick_env = record {
  is_uuid = λ _. true;
  peer_addresses = λ _. some (codes "host:1" ∷ []);
  abs_path = λ path. some path;
  fresh = λ _. "new";
}

abbrev snap_req : SnapCreateReq
snap_req = record { vol_name = "d"; snap_name = "s2"; time_stamp = false; description = "" }

abbrev no_default : String → Option String
no_default _ = none

-- A disperse volume, and a snapshot of it.
abbrev snap_of_triple : Snapinfo
snap_of_triple = record {
  snap_volinfo = record triple_volume { name = "s1"; state = stopped };
  parent_volume = "d";
  description = "";
  option_change = [];
  created_at = "";
}

abbrev parent : Volinfo
parent = record triple_volume { snap_list = "s1" ∷ [] }

abbrev db : Db
db = record { volumes = ("d", parent) ∷ []; snaps = ("s1", snap_of_triple) ∷ [] }

abbrev good : Answer
good = record { write = true; bricks = true }

abbrev snap_env : SnapEnv
snap_env = record {
  my_id = "p1";
  is_valid_name = λ _. true;
  stamp = "_GMT";
  created_at = "now";
  bricks = brick_env;
  find_option = no_default;
  can_snapshot = λ _. true;
}

-- The snapshot cannot be written after the list was.
abbrev half_stored : CreateRun
half_stored = record {
  answered = true;
  locks = true;
  node_data = some [];
  barrier = good;
  taken = true;
  unbarrier = good;
  store = record { snap = false; list = true };
  undo_store = record { snap = true; list = false };
  undo_barrier = good;
}

abbrev works : Outcome
works = record { locks = true; bricks = true; writes = true; actions = true; writes_back = true }

abbrev snap_bricks : List Brickinfo
snap_bricks =
    record (brick_at "") { id = "new"; volume_name = "s2" }
    ∷ record (brick_at "") { id = "new"; volume_name = "s2" }
    ∷ record (brick_at "") { id = "new"; volume_name = "s2" }
    ∷ []

abbrev taken_subvols : List Subvol
taken_subvols = record triple { name = "s2-disperse-0"; bricks = snap_bricks } ∷ []

abbrev taken : Snapinfo
taken = record {
  snap_volinfo =
      snap_volinfo_of snap_req parent (change_options no_default ignore_ops parent.options []).0
        taken_subvols;
  parent_volume = "d";
  description = "";
  option_change = (change_options no_default ignore_ops parent.options []).1;
  created_at = "now";
}

takes : create_snapinfo brick_env no_default [] "now" snap_req parent ≡ ok taken
unfolding create_snapinfo create_snap_subvols brick_reqs new_brick_entries new_brick_entry lookup
    itoa split_host_port has_code
takes = refl

create_restore_volinfo-create_snapinfo_example :
    IsRestored no_default parent parent (create_restore_volinfo taken parent)
create_restore_volinfo-create_snapinfo_example =
    create_restore_volinfo-create_snapinfo brick_env no_default [] "now" snap_req parent parent
      taken takes

-- A restored disperse subvolume has lost its disperse count.
count_lost :
    map (λ (s : Subvol). s.disperse_count) (restore_subvols "d" 0 triple_volume.subvols) ≡ 0 ∷ []
unfolding restore_subvols
count_lost = refl
