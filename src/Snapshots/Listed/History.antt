-- ===== src/Snapshots/Listed/History.antt =====
-- Any sequence of commands on volumes and snapshots.
use glusterd.Prelude.{String, Bool, List, [], ◌∷◌, string_eq}
use glusterd.Volumes.State.{Outcome, start_volume, stop_volume, delete_volume}
use glusterd.Snapshots.{Db, Writes}
use glusterd.Snapshots.Info.{SnapCreateReq}
use glusterd.Snapshots.Create.{SnapEnv, CreateRun, snapshot_create}
use glusterd.Snapshots.Commands.{
  snapshot_delete, RestoreRun, snapshot_restore, StateRun, snapshot_activate, snapshot_deactivate,
}
use glusterd.Snapshots.Listed.Restoration.{IsUndone}

pub data Request : Type 0 where
  create_snap : SnapEnv → CreateRun → SnapCreateReq → Request
  delete_snap : (locks bricks : Bool) → Writes → String → Request
  restore_snap : RestoreRun → String → Request
  activate_snap : StateRun → Bool → String → Request
  deactivate_snap : StateRun → String → Request
  start_vol : Outcome → Bool → String → Request
  stop_vol : Outcome → String → Request
  delete_vol : Outcome → String → Request

abbrev pub handle : Request → Db → Db
handle (create_snap env f req) db = (snapshot_create env f req db).0
handle (delete_snap locks bricks w name) db = (snapshot_delete locks bricks w name db).0
handle (restore_snap f name) db = (snapshot_restore f name db).0
handle (activate_snap f force name) db = (snapshot_activate f force name db).0
handle (deactivate_snap f name) db = (snapshot_deactivate f name db).0
handle (start_vol o force name) db = record db {
  volumes = (start_volume o force name db.volumes).0;
}
handle (stop_vol o name) db = record db { volumes = (stop_volume o name db.volumes).0 }
handle (delete_vol o name) db = record db { volumes = (delete_volume o name db.volumes).0 }

abbrev pub handle_all : List Request → Db → Db
handle_all [] db = db
handle_all (req ∷ reqs) db = handle_all reqs (handle req db)

-- No restore leaves its undo function half done.
abbrev pub IsTolerated : Request → Type 0
IsTolerated (restore_snap f name) = IsUndone f
IsTolerated (create_snap env f req) = Unit
IsTolerated (delete_snap locks bricks w name) = Unit
IsTolerated (activate_snap f force name) = Unit
IsTolerated (deactivate_snap f name) = Unit
IsTolerated (start_vol o force name) = Unit
IsTolerated (stop_vol o name) = Unit
IsTolerated (delete_vol o name) = Unit
