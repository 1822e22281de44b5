-- ===== src/Snapshots/Listed/Restoration.antt =====
-- Deleting, restoring, activating and deactivating a snapshot keep the lists of the volumes covering.
use mathlib.Core.Path.{subst}
use glusterd.Prelude.{
  ◌≡◌, sym, ◌∙◌, inl, inr, String, Bool, true, not, ◌&&◌, ◌||◌, some, string_eq, eq_iff, contains,
  arith, Option-cases, Bool-cases,
}
use glusterd.GoMap.{lookup, delete, lookup-insert}
use glusterd.Brickmux.{VolState, started, stopped}
use glusterd.Volumes.{Volinfo}
use glusterd.Volumes.State.{is_started}
use glusterd.Snapshots.{
  Snapinfo, Db, Writes, unlist, add_or_update_volume, add_or_update_snap, delete_snapshot,
}
use glusterd.Snapshots.Info.{create_restore_volinfo}
use glusterd.Snapshots.Commands.{
  snapshot_delete, RestoreRun, store_snap_restore, undo_snap_store, is_provisioned, restore_steps,
  snapshot_restore, StateRun, in_state, state_steps, snapshot_activate, snapshot_deactivate,
}
use glusterd.Snapshots.Listed.{
  IsListed, CoversSnaps, stored-CoversSnaps, lookup_of_delete, add_or_update_volume-IsListed,
  add_or_update_snap-IsListed, delete_snapshot-IsListed,
}

pub snapshot_delete-IsListed :
    (locks bricks : Bool) (w : Writes) (name : String) (db : Db)
    → IsListed db
    → IsListed (snapshot_delete locks bricks w name db).0
unfolding snapshot_delete
snapshot_delete-IsListed locks bricks w name db inv = elim (Option-cases (lookup name db.snaps)) [
  | inl missing ↦ subst IsListed (ground (arith, missing)) inv
  | inr (s, found) ↦ elim (Bool-cases (locks && bricks)) [
    | inr refused ↦ subst IsListed (ground (arith, found, refused)) inv
    | inl free ↦ subst IsListed (ground (arith, found, free)) (delete_snapshot-IsListed w s db inv)
  ]
]

-- Deleting a snapshot adds none.
delete_snapshot_within :
    (w : Writes) (s : Snapinfo) (db : Db) (n : String) (t : Snapinfo)
    → lookup n (delete_snapshot w s db).0.snaps ≡ some t
    → lookup n db.snaps ≡ some t
unfolding delete_snapshot unlist
delete_snapshot_within w s db n t h = elim (Bool-cases w.snap) [
  | inr failed ↦ ground (arith, h, failed)
  | inl deleted ↦
      let left : lookup n (delete s.snap_volinfo.name db.snaps) ≡ some t =
        ground (arith, h, deleted) in
      (lookup_of_delete s.snap_volinfo.name n t db.snaps left).1
]

-- Once an undo function has written the snapshot back, it writes its parent too.
abbrev pub IsUndone : RestoreRun → Type 0
IsUndone f = f.undo_snap ≡ true → (f.undo_volfiles ≡ true) × (f.undo_volume ≡ true)

undo_snap_store-IsListed :
    (f : RestoreRun) (s : Snapinfo) (vol : Volinfo) (db : Db)
    → IsUndone f
    → IsListed db
    → CoversSnaps vol db
    → lookup s.parent_volume (add_or_update_volume vol db).volumes ≡ some vol
    → contains s.snap_volinfo.name vol.snap_list ≡ true
    → IsListed (undo_snap_store f s vol db)
unfolding undo_snap_store
undo_snap_store-IsListed f s vol db undone inv covers found has = elim (Bool-cases f.undo_snap) [
  | inr failed ↦ subst IsListed (ground (arith, failed)) inv
  | inl written ↦
      let (files, volume) = undone written in
      let both : Db = add_or_update_snap s (add_or_update_volume vol db) in
      let same : both ≡ undo_snap_store f s vol db = ground (arith, written, files, volume) in
      subst IsListed same (
        add_or_update_snap-IsListed s vol (add_or_update_volume vol db)
          (add_or_update_volume-IsListed vol db inv covers) found has)
]

store_snap_restore-IsListed :
    (f : RestoreRun) (s : Snapinfo) (vol : Volinfo) (db : Db)
    → IsListed db
    → lookup s.parent_volume db.volumes ≡ some vol
    → IsListed (store_snap_restore f s vol db).0 × CoversSnaps vol (store_snap_restore f s vol db).0
unfolding store_snap_restore create_restore_volinfo
store_snap_restore-IsListed f s vol db inv found =
    let covers = stored-CoversSnaps s.parent_volume vol db inv found in
    let new = create_restore_volinfo s vol in
    let named = inv.volume_names s.parent_volume vol found in
    let db₁ = add_or_update_volume new db in
    let inv₁ =
      add_or_update_volume-IsListed new db inv
        (λ n t h parent. covers n t h (parent ∙ sym named)) in
    let result = (store_snap_restore f s vol db).0 in
    elim (Bool-cases f.volume) [
      | inr failed ↦
          let same : db ≡ result = ground (arith, failed) in
          (subst IsListed same inv, subst (λ (d : Db). CoversSnaps vol d) same covers)
      | inl written ↦
          let same : (delete_snapshot f.delete s db₁).0 ≡ result = ground (arith, written) in
          (
            subst IsListed same (delete_snapshot-IsListed f.delete s db₁ inv₁),
            subst (λ (d : Db). CoversSnaps vol d) same
                (λ n t h parent. covers n t (delete_snapshot_within f.delete s db₁ n t h) parent),
          )
    ]

restore_steps-IsListed :
    (f : RestoreRun) (s : Snapinfo) (vol : Volinfo) (db : Db)
    → IsUndone f
    → IsListed db
    → lookup s.parent_volume db.volumes ≡ some vol
    → contains s.snap_volinfo.name vol.snap_list ≡ true
    → IsListed (restore_steps f s vol db).0
unfolding restore_steps
restore_steps-IsListed f s vol db undone inv found has =
    let (inv', covers) = store_snap_restore-IsListed f s vol db inv found in
    let (db', stored) = store_snap_restore f s vol db in
    let named = inv.volume_names s.parent_volume vol found in
    let parent : lookup s.parent_volume (add_or_update_volume vol db').volumes ≡ some vol = ground (
      arith,
      lookup-insert vol.name s.parent_volume vol db'.volumes,
      named,
      eq_iff vol.name s.parent_volume,
    ) in
    elim (Bool-cases f.commit) [
      | inr failed ↦ subst IsListed (ground (arith, failed)) inv
      | inl begun ↦ elim (Bool-cases (stored && (not (is_provisioned vol) || f.clean))) [
        | inl finished ↦ subst IsListed (ground (arith, begun, finished)) inv'
        | inr failed ↦
            subst IsListed (ground (arith, begun, failed))
              (undo_snap_store-IsListed f s vol db' undone inv' covers parent has)
      ]
    ]

pub snapshot_restore-IsListed :
    (f : RestoreRun) (name : String) (db : Db)
    → IsUndone f
    → IsListed db
    → IsListed (snapshot_restore f name db).0
unfolding snapshot_restore
snapshot_restore-IsListed f name db undone inv = elim (Option-cases (lookup name db.snaps)) [
  | inl missing ↦ subst IsListed (ground (arith, missing)) inv
  | inr (s, found) ↦
      let (vol, parent, has) = inv.listed name s found in
      let named : contains s.snap_volinfo.name vol.snap_list ≡ true =
        subst (λ (x : String). contains x vol.snap_list ≡ true) (sym (inv.snap_names name s found))
          has in
      elim (Bool-cases (f.locks && not (is_started vol.state))) [
        | inr refused ↦ subst IsListed (ground (arith, found, parent, refused)) inv
        | inl free ↦
            subst IsListed (ground (arith, found, parent, free))
              (restore_steps-IsListed f s vol db undone inv parent named)
      ]
]

-- Writing a snapshot in another state, or back in its own.
in_state-IsListed :
    (name : String) (state : VolState) (f : StateRun) (s : Snapinfo) (db : Db)
    → IsListed db
    → lookup name db.snaps ≡ some s
    → IsListed (state_steps f s (in_state state s) db).0
unfolding state_steps
in_state-IsListed name state f s db inv found =
    let (vol, parent, has) = inv.listed name s found in
    let named : contains s.snap_volinfo.name vol.snap_list ≡ true =
      subst (λ (x : String). contains x vol.snap_list ≡ true) (sym (inv.snap_names name s found))
        has in
    elim (Bool-cases f.commit) [
      | inr failed ↦ subst IsListed (ground (arith, failed)) inv
      | inl begun ↦ elim (Bool-cases f.store) [
        | inl stored ↦
            subst IsListed (ground (arith, begun, stored))
              (add_or_update_snap-IsListed (in_state state s) vol db inv parent named)
        | inr failed ↦ elim (Bool-cases f.undo_store) [
          | inr lost ↦ subst IsListed (ground (arith, begun, failed, lost)) inv
          | inl back ↦
              subst IsListed (ground (arith, begun, failed, back))
                (add_or_update_snap-IsListed s vol db inv parent named)
        ]
      ]
    ]

pub snapshot_activate-IsListed :
    (f : StateRun) (force : Bool) (name : String) (db : Db)
    → IsListed db
    → IsListed (snapshot_activate f force name db).0
unfolding snapshot_activate
snapshot_activate-IsListed f force name db inv = elim (Option-cases (lookup name db.snaps)) [
  | inl missing ↦ subst IsListed (ground (arith, missing)) inv
  | inr (s, found) ↦
      elim (Bool-cases (f.locks && not (is_started s.snap_volinfo.state && not force))) [
        | inr refused ↦ subst IsListed (ground (arith, found, refused)) inv
        | inl free ↦
            subst IsListed (ground (arith, found, free))
              (in_state-IsListed name started f s db inv found)
      ]
]

pub snapshot_deactivate-IsListed :
    (f : StateRun) (name : String) (db : Db)
    → IsListed db
    → IsListed (snapshot_deactivate f name db).0
unfolding snapshot_deactivate
snapshot_deactivate-IsListed f name db inv = elim (Option-cases (lookup name db.snaps)) [
  | inl missing ↦ subst IsListed (ground (arith, missing)) inv
  | inr (s, found) ↦ elim (Bool-cases (f.locks && is_started s.snap_volinfo.state)) [
    | inr refused ↦ subst IsListed (ground (arith, found, refused)) inv
    | inl free ↦
        subst IsListed (ground (arith, found, free))
          (in_state-IsListed name stopped f s db inv found)
  ]
]
