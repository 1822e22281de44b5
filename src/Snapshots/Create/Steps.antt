-- ===== src/Snapshots/Create/Steps.antt =====
-- What the steps of a creation leave of the snapshots in the store.
use glusterd.Prelude.{
  ◌≡◌, ◌≢◌, ap, ◌∙◌, inl, inr, String, Bool, true, false, ◌&&◌, none, string_eq, eq_iff, ok,
  Result-cases, if◌then◌else◌, arith, Option-cases, Bool-cases,
}
use glusterd.GoMap.{GoMap, lookup, insert, delete, lookup-insert, lookup-delete}
use glusterd.Volumes.{Volinfo}
use glusterd.Snapshots.{Snapinfo, Db, Writes, unlist, delete_snapshot}
use glusterd.Snapshots.Info.{BrickMountData, SnapCreateReq, create_snap_subvols, create_snapinfo}
use glusterd.Snapshots.Create.{
  SnapStatus, done, SnapEnv, Answer, CreateRun, set_barrier, barrier_step, deactivate_barrier,
  store_snapshot_create, store_steps,
}

pub barrier_step_snaps :
    (env : SnapEnv) (skip value : String) (a : Answer) (barrier_op parent : String) (db : Db)
    → (barrier_step env skip value a barrier_op parent db).0.snaps ≡ db.snaps
unfolding barrier_step set_barrier
barrier_step_snaps env skip value a barrier_op parent db =
    elim (Option-cases (lookup parent db.volumes)) [
      | inl missing ↦ ground (arith, missing)
      | inr (v, found) ↦ ground (arith, found)
    ]

store_snapshot_create_snaps :
    (w : Writes) (s : Snapinfo) (db : Db)
    → let (db', stored) = store_snapshot_create w s db in
      db'.snaps ≡ (if stored then insert s.snap_volinfo.name s db.snaps else db.snaps)
unfolding store_snapshot_create
store_snapshot_create_snaps w s db = elim (Option-cases (lookup s.parent_volume db.volumes)) [
  | inl missing ↦ ground (arith, missing)
  | inr (v, found) ↦ ground (arith, found)
]

delete_snapshot_snaps :
    (w : Writes) (s : Snapinfo) (db : Db)
    → (delete_snapshot w s db).0.snaps
      ≡ (if w.snap then delete s.snap_volinfo.name db.snaps else db.snaps)
unfolding delete_snapshot unlist
delete_snapshot_snaps w s db = ground arith

pub create_snapinfo_name :
    (env : SnapEnv) (node_data : GoMap String BrickMountData) (req : SnapCreateReq) (vol : Volinfo)
    (s : Snapinfo)
    → create_snapinfo env.bricks env.find_option node_data env.created_at req vol ≡ ok s
    → s.snap_volinfo.name ≡ req.snap_name
unfolding create_snapinfo
create_snapinfo_name env node_data req vol s h =
    elim (Result-cases (create_snap_subvols env.bricks node_data req.snap_name 0 0 vol.subvols)) [
      | inl (e, failed) ↦ absurd (ground (arith, h, failed))
      | inr (subvols, made) ↦ ground (arith, h, made)
    ]

-- What the steps leave of a snapshot: the new one if they succeed, and else what there was.
abbrev pub IsKept : (name : String) (db : Db) → Db × SnapStatus → Type 0
IsKept name db r =
    (n : String)
    → ((r.1 ≡ done) → n ≢ name → lookup n r.0.snaps ≡ lookup n db.snaps)
      × (r.1 ≢ done → lookup n r.0.snaps ≡ lookup n db.snaps)

-- The last step, and its undo function, at one name.
stored_or_undone :
    (w undo : Writes) (s : Snapinfo) (db : Db) (n : String)
    → lookup s.snap_volinfo.name db.snaps ≡ none
    → let (db', stored) = store_snapshot_create w s db in
      ((stored ≡ true) → n ≢ s.snap_volinfo.name → lookup n db'.snaps ≡ lookup n db.snaps)
      × ((stored ≡ false) → lookup n (delete_snapshot undo s db').0.snaps ≡ lookup n db.snaps)
stored_or_undone w undo s db n free =
    let name = s.snap_volinfo.name in
    let db' = (store_snapshot_create w s db).0 in
    let snaps = store_snapshot_create_snaps w s db in
    let inserted = lookup-insert name n s db.snaps in
    let same : name ≡ n → lookup name db.snaps ≡ lookup n db.snaps =
      λ e. ap (λ (x : String). lookup x db.snaps) e in
    (
      λ stored other.
          let new : db'.snaps ≡ insert name s db.snaps = ground (arith, snaps, stored) in
          ap (lookup n) new ∙ ground (arith, inserted, other, eq_iff name n),
      λ failed.
          let old : db'.snaps ≡ db.snaps = ground (arith, snaps, failed) in
          let undone = ap (lookup n) (delete_snapshot_snaps undo s db') in
          let back : lookup n (delete name db'.snaps) ≡ lookup n (delete name db.snaps) =
            ap (λ (m : GoMap String Snapinfo). lookup n (delete name m)) old in
          ground (
            arith,
            undone,
            back,
            ap (lookup n) old,
            lookup-delete name n db.snaps,
            free,
            same,
            eq_iff name n,
          ),
    )

pub store_steps-IsKept :
    (env : SnapEnv) (f : CreateRun) (barrier_op : String) (s : Snapinfo) (db : Db)
    → lookup s.snap_volinfo.name db.snaps ≡ none
    → IsKept s.snap_volinfo.name db (store_steps env f barrier_op s db)
unfolding store_steps
store_steps-IsKept env f barrier_op s db free n =
    let step : (a : Answer) (d : Db) → Db × Bool =
      λ a d. deactivate_barrier env a barrier_op s.parent_volume d in
    let step_snaps : (a : Answer) (d : Db) → (step a d).0.snaps ≡ d.snaps =
      λ a d. barrier_step_snaps env "enable" "disable" a barrier_op s.parent_volume d in
    let db₁ = (step f.unbarrier db).0 in
    let db₂ = (store_snapshot_create f.store s db₁).0 in
    let lifted = ap (lookup n) (step_snaps f.unbarrier db) in
    let (kept, undone) =
      stored_or_undone f.store f.undo_store s db₁ n
        (ap (lookup s.snap_volinfo.name) (step_snaps f.unbarrier db) ∙ free) in
    let last : (d : Db) → lookup n (step f.undo_barrier d).0.snaps ≡ lookup n d.snaps =
      λ d. ap (lookup n) (step_snaps f.undo_barrier d) in
    elim (Bool-cases (f.taken && (step f.unbarrier db).1)) [
      | inr failed ↦ (
        λ success. absurd (ground (arith, success, failed)),
        λ _. ground (arith, failed, last db, last db₁, lifted),
      )
      | inl ready ↦ elim (Bool-cases (store_snapshot_create f.store s db₁).1) [
        | inl stored ↦ (
          λ _ other. ground (arith, ready, stored, kept stored other, lifted),
          λ bad. absurd (bad (ground (arith, ready, stored))),
        )
        | inr failed ↦ (
          λ success. absurd (ground (arith, success, ready, failed)),
          λ _. ground (
            arith,
            ready,
            failed,
            undone failed,
            last (delete_snapshot f.undo_store s db₂).0,
            lifted,
          ),
        )
      ]
    ]
