-- ===== src/Snapshots/Listed/Creation.antt =====
-- Creating a snapshot: whatever fails, and whichever undo function does, the lists cover the snapshots.
use mathlib.Core.Path.{subst}
use glusterd.Prelude.{
  ◌≡◌, ap, ◌∙◌, inl, inr, String, Bool, true, not, ◌&&◌, ◌||◌, none, some, List, [], ◌∷◌,
  ◌++◌ as append, string_eq, eq_iff, ◌==◌, contains, Result-cases, if◌then◌else◌, arith,
  Option-cases, Bool-cases,
}
use glusterd.GoMap.{lookup, insert, lookup-insert}
use glusterd.Volumes.{Volinfo}
use glusterd.Volumes.State.{is_started}
use glusterd.Snapshots.{Snapinfo, Db, Writes, exists, add_or_update_volume, delete_snapshot}
use glusterd.Snapshots.Info.{SnapCreateReq, create_snapinfo}
use glusterd.Snapshots.Create.{
  SnapEnv, Answer, CreateRun, set_barrier, barrier_step, with_barrier, with_snap,
  store_snapshot_create, activate_barrier, deactivate_barrier, store_steps, create_steps, stamped,
  create_named, snapshot_create, is_node,
}
use glusterd.Snapshots.Listed.{
  IsListed, stored-CoversSnaps, add_or_update_volume-IsListed, add_or_update_snap-IsListed,
  delete_snapshot-IsListed,
}

barrier_step-IsListed :
    (env : SnapEnv) (skip value : String) (a : Answer) (barrier_op parent : String) (db : Db)
    → IsListed db
    → IsListed (barrier_step env skip value a barrier_op parent db).0
unfolding barrier_step set_barrier
barrier_step-IsListed env skip value a barrier_op parent db inv =
    elim (Option-cases (lookup parent db.volumes)) [
      | inl missing ↦ subst IsListed (ground (arith, missing)) inv
      | inr (v, found) ↦
          elim (Bool-cases (not (barrier_op == skip) && (is_node env.my_id v.subvols && a.write))) [
            | inr unwritten ↦ subst IsListed (ground (arith, found, unwritten)) inv
            | inl written ↦ subst IsListed (ground (arith, found, written)) (
                add_or_update_volume-IsListed (with_barrier value v) db inv
                  (stored-CoversSnaps parent v db inv found))
          ]
    ]

contains-append_last :
    (n : String) (l : List String) (name : String)
    → contains n (append l (name ∷ [])) ≡ (if contains n l then true else name == n)
contains-append_last n [] name = ground arith
contains-append_last n (x ∷ l) name = ground (arith, contains-append_last n l name)

store_snapshot_create-IsListed :
    (w : Writes) (s : Snapinfo) (db : Db) → IsListed db → IsListed (store_snapshot_create w s db).0
unfolding store_snapshot_create
store_snapshot_create-IsListed w s db inv =
    elim (Option-cases (lookup s.parent_volume db.volumes)) [
      | inl missing ↦ subst IsListed (ground (arith, missing)) inv
      | inr (vol, found) ↦ elim (Bool-cases w.list) [
        | inr failed ↦ subst IsListed (ground (arith, found, failed)) inv
        | inl listed ↦
            let name = s.snap_volinfo.name in
            let vol' = with_snap name vol in
            let covers = stored-CoversSnaps s.parent_volume vol db inv found in
            let inv' = add_or_update_volume-IsListed vol' db inv (λ n t h parent.
              contains-append_last n vol.snap_list name
              ∙ ap (λ (b : Bool). if b then true else name == n) (covers n t h parent)) in
            let parent : lookup s.parent_volume (insert vol.name vol' db.volumes) ≡ some vol' =
              ground (
                arith,
                lookup-insert vol.name s.parent_volume vol' db.volumes,
                inv.volume_names s.parent_volume vol found,
                eq_iff vol.name s.parent_volume,
              ) in
            let has : contains name vol'.snap_list ≡ true =
              ground (arith, contains-append_last name vol.snap_list name, eq_iff name name) in
            elim (Bool-cases w.snap) [
              | inr failed ↦ subst IsListed (ground (arith, found, listed, failed)) inv'
              | inl stored ↦ subst IsListed (ground (arith, found, listed, stored)) (
                  add_or_update_snap-IsListed s vol' (add_or_update_volume vol' db) inv' parent has)
            ]
      ]
    ]

store_steps-IsListed :
    (env : SnapEnv) (f : CreateRun) (barrier_op : String) (s : Snapinfo) (db : Db)
    → IsListed db
    → IsListed (store_steps env f barrier_op s db).0
unfolding store_steps
store_steps-IsListed env f barrier_op s db inv =
    let step : (a : Answer) (d : Db) → Db × Bool =
      λ a d. deactivate_barrier env a barrier_op s.parent_volume d in
    let step-IsListed : (a : Answer) (d : Db) → IsListed d → IsListed (step a d).0 =
      λ a d. barrier_step-IsListed env "enable" "disable" a barrier_op s.parent_volume d in
    let db₁ = (step f.unbarrier db).0 in
    let inv₁ = step-IsListed f.unbarrier db inv in
    let db₂ = (store_snapshot_create f.store s db₁).0 in
    let inv₂ = store_snapshot_create-IsListed f.store s db₁ inv₁ in
    elim (Bool-cases f.taken) [
      | inr failed ↦ subst IsListed (ground (arith, failed)) (step-IsListed f.undo_barrier db inv)
      | inl taken ↦ elim (Bool-cases (step f.unbarrier db).1) [
        | inr failed ↦
            subst IsListed (ground (arith, taken, failed)) (step-IsListed f.undo_barrier db₁ inv₁)
        | inl lifted ↦ elim (Bool-cases (store_snapshot_create f.store s db₁).1) [
          | inl stored ↦ subst IsListed (ground (arith, taken, lifted, stored)) inv₂
          | inr failed ↦ subst IsListed (ground (arith, taken, lifted, failed)) (
              step-IsListed f.undo_barrier (delete_snapshot f.undo_store s db₂).0
                (delete_snapshot-IsListed f.undo_store s db₂ inv₂))
        ]
      ]
    ]

create_steps-IsListed :
    (env : SnapEnv) (f : CreateRun) (req : SnapCreateReq) (vol : Volinfo) (db : Db)
    → IsListed db
    → IsListed (create_steps env f req vol db).0
unfolding create_steps
create_steps-IsListed env f req vol db inv = elim (Option-cases f.node_data) [
  | inl failed ↦ subst IsListed (ground (arith, failed)) inv
  | inr (node_data, valid) ↦
      elim (Result-cases
        (create_snapinfo env.bricks env.find_option node_data env.created_at req vol)) [
          | inl (e, failed) ↦ subst IsListed (ground (arith, valid, failed)) inv
          | inr (s, made) ↦
              let barrier_op : String = elim (lookup "features/barrier" vol.options) [
                | some v ↦ v
                | none ↦ ""
              ] in
              let db' = (activate_barrier env f.barrier barrier_op s.parent_volume db).0 in
              let inv' =
                barrier_step-IsListed env "enabled" "enable" f.barrier barrier_op s.parent_volume db
                  inv in
              elim (Bool-cases (activate_barrier env f.barrier barrier_op s.parent_volume db).1) [
                | inl closed ↦
                    subst IsListed (ground (arith, valid, made, closed))
                      (store_steps-IsListed env f barrier_op s db' inv')
                | inr failed ↦ subst IsListed (ground (arith, valid, made, failed)) (
                    barrier_step-IsListed env "enable" "disable" f.undo_barrier barrier_op
                      s.parent_volume db' inv')
              ]
        ]
]

create_named-IsListed :
    (env : SnapEnv) (f : CreateRun) (req : SnapCreateReq) (db : Db)
    → IsListed db
    → IsListed (create_named env f req db).0
unfolding create_named
create_named-IsListed env f req db inv = elim (Option-cases (lookup req.vol_name db.volumes)) [
  | inl missing ↦ subst IsListed (ground (arith, missing)) inv
  | inr (vol, found) ↦
      elim (Bool-cases (
        (env.is_valid_name req.snap_name && f.locks)
        && (not (exists f.answered req.snap_name db)
            && (is_started vol.state && env.can_snapshot vol)))) [
              | inr refused ↦ subst IsListed (ground (arith, found, refused)) inv
              | inl free ↦
                  subst IsListed (ground (arith, found, free))
                    (create_steps-IsListed env f req vol db inv)
            ]
]

pub snapshot_create-IsListed :
    (env : SnapEnv) (f : CreateRun) (req : SnapCreateReq) (db : Db)
    → IsListed db
    → IsListed (snapshot_create env f req db).0
unfolding snapshot_create
snapshot_create-IsListed env f req db inv =
    elim (Bool-cases (req.vol_name == "" || req.snap_name == "")) [
      | inl empty ↦ subst IsListed (ground (arith, empty)) inv
      | inr named ↦
          subst IsListed (ground (arith, named))
            (create_named-IsListed env f (stamped env req) db inv)
    ]
