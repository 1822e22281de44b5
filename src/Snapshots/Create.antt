-- ===== src/Snapshots/Create.antt =====
-- `snapshotCreateHandler` of glusterd2/commands/snapshot/snapshot-create.go, with its steps. What bricks,
-- file systems and the writes of the store answer is given for each request.
pub mod Steps
pub mod Failure
use Prim.Native.String.{◌++◌}
use glusterd.Prelude.{
  String, Bool, true, false, not, ◌||◌, Option, none, some, List, [], ◌∷◌, ◌++◌ as append,
  string_eq, ◌==◌, contains, ok, err, if◌then◌else◌,
}
use glusterd.GoMap.{GoMap, lookup, insert}
use glusterd.Volumes.{Subvol, Volinfo}
use glusterd.Volumes.Create.Subvols.{BrickEnv}
use glusterd.Volumes.State.{is_started}
use glusterd.Snapshots.{
  Snapinfo, Db, add_or_update_volume, add_or_update_snap, exists, Writes, delete_snapshot,
}
use glusterd.Snapshots.Info.{BrickMountData, SnapCreateReq, peers_of, create_snapinfo}

pub data SnapStatus : Type 0 where
  done empty_name invalid_name not_locked snap_exists no_volume not_started not_supported :
      SnapStatus
  no_snap must_be_stopped already_activated deactivated txn_failed : SnapStatus

-- The node, its clock, and the packages that the code calls.
pub record SnapEnv : Type 0 where
  pub my_id : String
  pub is_valid_name : String → Bool
  pub stamp : String
  pub created_at : String
  pub bricks : BrickEnv
  pub find_option : String → Option String
  pub can_snapshot : Volinfo → Bool

-- Of a step that sets the barrier: whether the volume is written, and whether no call of a brick
-- fails.
pub record Answer : Type 0 where
  pub write : Bool
  pub bricks : Bool

-- What happens to a transaction that creates a snapshot, step by step and in the undo functions.
pub record CreateRun : Type 0 where
  pub answered : Bool
  pub locks : Bool
  pub node_data : Option (GoMap String BrickMountData)
  pub barrier : Answer
  pub taken : Bool
  pub unbarrier : Answer
  pub store : Writes
  pub undo_store : Writes
  pub undo_barrier : Answer

unfoldable pub is_node : String → List Subvol → Bool
is_node id [] = false
is_node id (s ∷ subvols) = contains id (peers_of s.bricks) || is_node id subvols

abbrev pub with_barrier : String → Volinfo → Volinfo
with_barrier value v = record v { options = insert "features/barrier" value v.options }

-- `barrierActivateDeactivateFunc` on all nodes of the volume; the one that began stores the option.
unfoldable pub set_barrier : SnapEnv → String → Answer → Volinfo → Db → Db × Bool
set_barrier env value a v db =
    if not (is_node env.my_id v.subvols)
    then (db, a.bricks)
    else if a.write
    then (add_or_update_volume (with_barrier value v) db, a.bricks)
    else (db, false)

unfoldable pub barrier_step :
    SnapEnv → (skip value : String) → Answer → String → String → Db → Db × Bool
barrier_step env skip value a barrier_op parent db =
    if barrier_op == skip then (db, true) else elim (lookup parent db.volumes) [
      | none ↦ (db, false)
      | some v ↦ set_barrier env value a v db
    ]

abbrev pub activate_barrier : SnapEnv → Answer → String → String → Db → Db × Bool
activate_barrier env = barrier_step env "enabled" "enable"

abbrev pub deactivate_barrier : SnapEnv → Answer → String → String → Db → Db × Bool
deactivate_barrier env = barrier_step env "enable" "disable"

abbrev pub with_snap : String → Volinfo → Volinfo
with_snap name v = record v { snap_list = append v.snap_list (name ∷ []) }

unfoldable pub store_snapshot_create : Writes → Snapinfo → Db → Db × Bool
store_snapshot_create w s db = elim (lookup s.parent_volume db.volumes) [
  | none ↦ (db, false)
  | some vol ↦
      if not w.list
      then (db, false)
      else let db' = add_or_update_volume (with_snap s.snap_volinfo.name vol) db in
        if w.snap then (add_or_update_snap s db', true) else (db', false)
]

-- The last three steps, with the undo functions of the steps before.
unfoldable pub store_steps : SnapEnv → CreateRun → String → Snapinfo → Db → Db × SnapStatus
store_steps env f barrier_op s db =
    let undo_barrier : Db → Db =
      λ d. (deactivate_barrier env f.undo_barrier barrier_op s.parent_volume d).0 in
    if not f.taken
    then (undo_barrier db, txn_failed)
    else let (db₁, lifted) = deactivate_barrier env f.unbarrier barrier_op s.parent_volume db in
      if not lifted
      then (undo_barrier db₁, txn_failed)
      else let (db₂, stored) = store_snapshot_create f.store s db₁ in
        if stored
        then (db₂, done)
        else (undo_barrier (delete_snapshot f.undo_store s db₂).0, txn_failed)

-- The steps of `snapshotCreateHandler`, on the volume of the request.
unfoldable pub create_steps : SnapEnv → CreateRun → SnapCreateReq → Volinfo → Db → Db × SnapStatus
create_steps env f req vol db = elim f.node_data [
  | none ↦ (db, txn_failed)
  | some node_data ↦
      elim (create_snapinfo env.bricks env.find_option node_data env.created_at req vol) [
        | err e ↦ (db, txn_failed)
        | ok s ↦
            let barrier_op : String = elim (lookup "features/barrier" vol.options) [
              | some v ↦ v
              | none ↦ ""
            ] in
            let (db', closed) = activate_barrier env f.barrier barrier_op s.parent_volume db in
            if closed then store_steps env f barrier_op s db' else (
              (deactivate_barrier env f.undo_barrier barrier_op s.parent_volume db').0,
              txn_failed,
            )
      ]
]

abbrev pub stamped : SnapEnv → SnapCreateReq → SnapCreateReq
stamped env req =
    if req.time_stamp then record req { snap_name = req.snap_name ++ env.stamp } else req

-- `snapshotCreateHandler` after the time was put in the name of the snapshot.
unfoldable pub create_named : SnapEnv → CreateRun → SnapCreateReq → Db → Db × SnapStatus
create_named env f req db =
    if not (env.is_valid_name req.snap_name)
    then (db, invalid_name)
    else if not f.locks
    then (db, not_locked)
    else if exists f.answered req.snap_name db
    then (db, snap_exists)
    else elim (lookup req.vol_name db.volumes) [
      | none ↦ (db, no_volume)
      | some vol ↦
          if not (is_started vol.state)
          then (db, not_started)
          else if not (env.can_snapshot vol)
          then (db, not_supported)
          else create_steps env f req vol db
    ]

unfoldable pub snapshot_create : SnapEnv → CreateRun → SnapCreateReq → Db → Db × SnapStatus
snapshot_create env f req db =
    if req.vol_name == "" || req.snap_name == ""
    then (db, empty_name)
    else create_named env f (stamped env req) db
