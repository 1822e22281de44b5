-- ===== src/Snapshots/Commands.antt =====
-- The other handlers of glusterd2/commands/snapshot that change the store: snapshot-delete.go,
-- snapshot-restore.go, snapshot-activate.go and snapshot-deactivate.go.
use glusterd.Prelude.{
  String, Bool, false, not, ◌&&◌, ◌||◌, none, some, string_eq, ◌==◌, if◌then◌else◌,
}
use glusterd.GoMap.{lookup}
use glusterd.Brickmux.{VolState, started, stopped}
use glusterd.Volumes.{Volinfo}
use glusterd.Volumes.State.{is_started, with_state}
use glusterd.Snapshots.{
  Snapinfo, Db, add_or_update_volume, add_or_update_snap, Writes, delete_snapshot,
}
use glusterd.Snapshots.Info.{create_restore_volinfo}
use glusterd.Snapshots.Create.{
  SnapStatus, done, not_locked, no_volume, no_snap, must_be_stopped, already_activated, deactivated,
  txn_failed,
}

-- `snapshotDeleteHandler`
unfoldable pub snapshot_delete : (locks bricks : Bool) → Writes → String → Db → Db × SnapStatus
snapshot_delete locks bricks w name db = elim (lookup name db.snaps) [
  | none ↦ (db, no_snap)
  | some s ↦
      if not locks
      then (db, not_locked)
      else if not bricks
      then (db, txn_failed)
      else let (db', deleted) = delete_snapshot w s db in
        (db', if deleted then done else txn_failed)
]

-- What happens to a transaction that restores a snapshot.
pub record RestoreRun : Type 0 where
  pub locks : Bool
  pub commit : Bool
  pub volume : Bool
  pub delete : Writes
  pub volfiles : Bool
  pub clean : Bool
  pub undo_snap : Bool
  pub undo_volfiles : Bool
  pub undo_volume : Bool

-- `storeSnapRestore`, with the snapshot and its parent as they are in the store.
unfoldable pub store_snap_restore : RestoreRun → Snapinfo → Volinfo → Db → Db × Bool
store_snap_restore f s vol db =
    if not f.volume
    then (db, false)
    else let (db', deleted) =
        delete_snapshot f.delete s (add_or_update_volume (create_restore_volinfo s vol) db) in
      (db', deleted && (not (is_started s.snap_volinfo.state) || f.volfiles))

-- `undoSnapStore`
unfoldable pub undo_snap_store : RestoreRun → Snapinfo → Volinfo → Db → Db
undo_snap_store f s vol db =
    if not f.undo_snap
    then db
    else let db' = add_or_update_snap s db in
      if is_started s.snap_volinfo.state && not f.undo_volfiles
      then db'
      else if f.undo_volume
      then add_or_update_volume vol db'
      else db'

-- Whether the bricks of the parent are removed after it was restored.
abbrev pub is_provisioned : Volinfo → Bool
is_provisioned vol = elim (lookup "_brick-provision-type" vol.metadata) [
  | some how ↦ how == "auto" || how == "snapshot"
  | none ↦ false
]

unfoldable pub restore_steps : RestoreRun → Snapinfo → Volinfo → Db → Db × SnapStatus
restore_steps f s vol db =
    if not f.commit
    then (db, txn_failed)
    else let (db', stored) = store_snap_restore f s vol db in
      if stored && (not (is_provisioned vol) || f.clean)
      then (db', done)
      else (undo_snap_store f s vol db', txn_failed)

-- `snapshotRestoreHandler`
unfoldable pub snapshot_restore : RestoreRun → String → Db → Db × SnapStatus
snapshot_restore f name db = elim (lookup name db.snaps) [
  | none ↦ (db, no_snap)
  | some s ↦ if not f.locks then (db, not_locked) else elim (lookup s.parent_volume db.volumes) [
    | none ↦ (db, no_volume)
    | some vol ↦ if is_started vol.state then (db, must_be_stopped) else restore_steps f s vol db
  ]
]

-- What happens to a transaction that activates or deactivates a snapshot.
pub record StateRun : Type 0 where
  pub locks : Bool
  pub commit : Bool
  pub store : Bool
  pub undo_store : Bool

abbrev pub in_state : VolState → Snapinfo → Snapinfo
in_state state s = record s { snap_volinfo = with_state state s.snap_volinfo }

unfoldable pub state_steps : StateRun → (old new : Snapinfo) → Db → Db × SnapStatus
state_steps f old new db =
    if not f.commit
    then (db, txn_failed)
    else if f.store
    then (add_or_update_snap new db, done)
    else if f.undo_store
    then (add_or_update_snap old db, txn_failed)
    else (db, txn_failed)

-- `snapshotActivateHandler`
unfoldable pub snapshot_activate : StateRun → Bool → String → Db → Db × SnapStatus
snapshot_activate f force name db =
    if not f.locks then (db, not_locked) else elim (lookup name db.snaps) [
      | none ↦ (db, no_snap)
      | some s ↦
          if is_started s.snap_volinfo.state && not force
          then (db, already_activated)
          else state_steps f s (in_state started s) db
    ]

-- `snapshotDeactivateHandler`
unfoldable pub snapshot_deactivate : StateRun → String → Db → Db × SnapStatus
snapshot_deactivate f name db =
    if not f.locks then (db, not_locked) else elim (lookup name db.snaps) [
      | none ↦ (db, no_snap)
      | some s ↦
          if not (is_started s.snap_volinfo.state)
          then (db, deactivated)
          else state_steps f s (in_state stopped s) db
    ]
