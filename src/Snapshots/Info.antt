-- ===== src/Snapshots/Info.antt =====
-- The snapshot made of a volume (createSnapinfo of glusterd2/commands/snapshot/snapshot-create.go) and
-- the volume made of a snapshot (createRestoreVolinfo of snapshot-restore.go).
pub mod Changes
pub mod Restored
use Prim.Native.String.{◌++◌}
use glusterd.Prelude.{
  ℕ, ◌+◌, String, Bool, ◌||◌, Option, none, some, List, [], ◌∷◌, string_eq, ◌==◌, length, Result,
  ok, err, ◌>>=◌, if◌then◌else◌,
}
use glusterd.GoMap.{GoMap, lookup, insert, insert_all}
use glusterd.Brickmux.{created}
use glusterd.BricksPlanner.Request.{itoa}
use glusterd.Volumes.{BrickType, plain, arbiter, thin_arbiter, Brickinfo, Subvol, Volinfo}
use glusterd.Volumes.Create.{BrickReq, VolError}
use glusterd.Volumes.Create.Subvols.{BrickEnv, new_brick_entries}
use glusterd.Volumes.Expand.{type_name}
use glusterd.Snapshots.{Snapinfo}

pub record BrickMountData : Type 0 where
  pub brick_dir_suffix : String
  pub device_path : String
  pub fs_type : String
  pub mnt_opts : String
  pub path : String

pub record SnapCreateReq : Type 0 where
  pub vol_name : String
  pub snap_name : String
  pub time_stamp : Bool
  pub description : String

-- The nodes of bricks.
abbrev pub peers_of : List Brickinfo → List String
peers_of [] = []
peers_of (b ∷ bricks) = b.peer_id ∷ peers_of bricks

-- The options of other features, with what they are in a snapshot. Go goes through them in any order.
abbrev pub ignore_ops : GoMap String String
ignore_ops =
    ("features/quota", "off")
    ∷ ("features/inode-quota", "off")
    ∷ ("feature/deem-statfs", "off")
    ∷ ("features/quota-deem-statfs", "off")
    ∷ ("bitrot-stub.bitrot", "off")
    ∷ ("replicate.self-heal-daemon", "off")
    ∷ ("features/read-only", "on")
    ∷ ("features/uss", "off")
    ∷ []

-- The value of an option, its default, or the empty text where it has none; `find_option` gives the
-- default of an option.
abbrev pub current : (String → Option String) → GoMap String String → String → String
current find_option options key = elim (lookup key options) [
  | some v ↦ v
  | none ↦ elim (find_option key) [ some d ↦ d | none ↦ "" ]
]

-- The loop over those options: the options of the snapshot, and what they were before.
unfoldable pub change_options :
    (String → Option String)
    → GoMap String String
    → (options changes : GoMap String String) → GoMap String String × GoMap String String
change_options find_option [] options changes = (options, changes)
change_options find_option ((key, value) ∷ ops) options changes =
    change_options find_option ops (insert key value options)
      (insert key (current find_option options key) changes)

abbrev pub brick_type_to_string : BrickType → String
brick_type_to_string arbiter = "arbiter"
brick_type_to_string plain = "brick"
brick_type_to_string thin_arbiter = "brick"

-- The path of the new brick, by the text of the old one.
abbrev pub mount_path : GoMap String BrickMountData → Brickinfo → String
mount_path node_data b = elim (lookup (b.peer_id ++ ":" ++ b.path) node_data) [
  | some m ↦ m.path
  | none ↦ ""
]

unfoldable pub brick_reqs : GoMap String BrickMountData → List Brickinfo → List BrickReq
brick_reqs node_data [] = []
brick_reqs node_data (b ∷ bricks) =
    record {
      brick_type = brick_type_to_string b.brick_type;
      peer_id = b.peer_id;
      path = mount_path node_data b;
    }
    ∷ brick_reqs node_data bricks

-- `createSnapSubvols`; `n` counts the random ids drawn before.
unfoldable pub create_snap_subvols :
    BrickEnv
    → GoMap String BrickMountData
    → String
    → ℕ
    → ℕ
    → List Subvol
    → Result VolError (List Subvol)
create_snap_subvols env node_data name idx n [] = ok []
create_snap_subvols env node_data name idx n (s ∷ subvols) = do
  bricks ← new_brick_entries env name n (brick_reqs node_data s.bricks)
  rest ← create_snap_subvols env node_data name (idx + 1) (n + length s.bricks) subvols
  ok (
      record s { name = name ++ "-" ++ type_name s.subvol_type ++ "-" ++ itoa idx; bricks = bricks }
      ∷ rest)

abbrev pub snap_volinfo_of : SnapCreateReq → Volinfo → GoMap String String → List Subvol → Volinfo
snap_volinfo_of req vol options subvols = record {
  name = req.snap_name;
  vol_type = vol.vol_type;
  state = created;
  dist_count = vol.dist_count;
  transport = vol.transport;
  options = options;
  metadata = insert "_brick-provision-type" "snapshot" vol.metadata;
  subvols = subvols;
  snap_list = [];
  capacity = vol.capacity;
}

-- `createSnapinfo` on the volume of the request, with what its nodes found out about their bricks.
unfoldable pub create_snapinfo :
    BrickEnv
    → (String → Option String)
    → GoMap String BrickMountData
    → String
    → SnapCreateReq
    → Volinfo
    → Result VolError Snapinfo
create_snapinfo env find_option node_data created_at req vol =
    create_snap_subvols env node_data req.snap_name 0 0 vol.subvols >>= λ subvols. ok (record {
      snap_volinfo =
          snap_volinfo_of req vol (change_options find_option ignore_ops vol.options []).0 subvols;
      parent_volume = req.vol_name;
      description = req.description;
      option_change = (change_options find_option ignore_ops vol.options []).1;
      created_at = created_at;
    })

-- `createVolumeBrickFromSnap`
unfoldable pub create_volume_brick_from_snap : String → List Brickinfo → List Brickinfo
create_volume_brick_from_snap vol_name [] = []
create_volume_brick_from_snap vol_name (b ∷ bricks) =
    record b { volume_name = vol_name } ∷ create_volume_brick_from_snap vol_name bricks

-- The loop of `createRestoreVolinfo`, which takes the disperse count from the arbiter count.
unfoldable pub restore_subvols : String → ℕ → List Subvol → List Subvol
restore_subvols vol_name idx [] = []
restore_subvols vol_name idx (s ∷ subvols) =
    record s {
      name = vol_name ++ "-" ++ type_name s.subvol_type ++ "-" ++ itoa idx;
      disperse_count = s.arbiter_count;
      bricks = create_volume_brick_from_snap vol_name s.bricks;
    }
    ∷ restore_subvols vol_name (idx + 1) subvols

unfoldable pub create_restore_volinfo : Snapinfo → Volinfo → Volinfo
create_restore_volinfo s vol =
    let v = s.snap_volinfo in
    record {
      name = s.parent_volume;
      vol_type = v.vol_type;
      state = vol.state;
      dist_count = v.dist_count;
      transport = v.transport;
      options = insert_all s.option_change v.options;
      metadata = v.metadata;
      subvols = restore_subvols vol.name 0 v.subvols;
      snap_list = vol.snap_list;
      capacity = 0;
    }
