-- ===== src/Snapshots/Listed/VolumeCommands.antt =====
-- Starting, stopping and deleting volumes (glusterd2/commands/volumes) with snapshots beside them.
use mathlib.Core.Path.{subst}
use glusterd.Prelude.{
  ◌≡◌, refl, sym, ap, ◌∙◌, inl, inr, String, Bool, true, false, not, ◌&&◌, some, List, [], ◌∷◌,
  string_eq, contains, arith, Option-cases, Bool-cases, ==-cases,
}
use glusterd.GoMap.{GoMap, lookup, delete, lookup-delete}
use glusterd.Brickmux.{started, stopped}
use glusterd.Volumes.{Volinfo}
use glusterd.Volumes.State.{
  Outcome, update_steps, with_state, is_started, start_volume, stop_volume, delete_volume,
}
use glusterd.Snapshots.{Db, add_or_update_volume}
use glusterd.Snapshots.Listed.{
  IsListed, stored-CoversSnaps, lookup_of_delete, add_or_update_volume-IsListed,
}

abbrev pub on_volumes : GoMap String Volinfo → Db → Db
on_volumes volumes db = record db { volumes = volumes }

update_steps-IsListed :
    (o : Outcome) (name : String) (old new : Volinfo) (db : Db)
    → IsListed db
    → lookup name db.volumes ≡ some old
    → new.name ≡ old.name
    → new.snap_list ≡ old.snap_list
    → IsListed (on_volumes (update_steps o old new db.volumes).0 db)
unfolding update_steps
update_steps-IsListed o name old new db inv found named listed =
    let covers = stored-CoversSnaps name old db inv found in
    let inv' =
      add_or_update_volume-IsListed new db inv
        (λ n s h parent. ap (contains n) listed ∙ covers n s h (parent ∙ named)) in
    let back = add_or_update_volume-IsListed old (add_or_update_volume new db) inv' covers in
    elim (Bool-cases (o.bricks && o.writes)) [
      | inr failed ↦ subst IsListed (ground (arith, failed)) inv
      | inl written ↦ elim (Bool-cases (not o.actions && o.writes_back)) [
        | inl undone ↦ subst IsListed (ground (arith, written, undone)) back
        | inr left ↦ subst IsListed (ground (arith, written, left)) inv'
      ]
    ]

pub start_volume-IsListed :
    (o : Outcome) (force : Bool) (name : String) (db : Db)
    → IsListed db
    → IsListed (on_volumes (start_volume o force name db.volumes).0 db)
unfolding start_volume
start_volume-IsListed o force name db inv = elim (Option-cases (lookup name db.volumes)) [
  | inl missing ↦ subst IsListed (ground (arith, missing)) inv
  | inr (v, found) ↦ elim (Bool-cases (o.locks && not (is_started v.state && not force))) [
    | inr refused ↦ subst IsListed (ground (arith, found, refused)) inv
    | inl free ↦
        subst IsListed (ground (arith, found, free))
          (update_steps-IsListed o name v (with_state started v) db inv found refl refl)
  ]
]

pub stop_volume-IsListed :
    (o : Outcome) (name : String) (db : Db)
    → IsListed db
    → IsListed (on_volumes (stop_volume o name db.volumes).0 db)
unfolding stop_volume
stop_volume-IsListed o name db inv = elim (Option-cases (lookup name db.volumes)) [
  | inl missing ↦ subst IsListed (ground (arith, missing)) inv
  | inr (v, found) ↦ elim (Bool-cases (o.locks && is_started v.state)) [
    | inr refused ↦ subst IsListed (ground (arith, found, refused)) inv
    | inl free ↦
        subst IsListed (ground (arith, found, free))
          (update_steps-IsListed o name v (with_state stopped v) db inv found refl refl)
  ]
]

-- A volume whose list is empty can go.
removed-IsListed :
    (name : String) (v : Volinfo) (db : Db)
    → IsListed db
    → lookup name db.volumes ≡ some v
    → v.snap_list ≡ []
    → IsListed (on_volumes (delete v.name db.volumes) db)
removed-IsListed name v db inv found plain =
    let covers = stored-CoversSnaps name v db inv found in
    record {
      volume_names = λ n w h. inv.volume_names n w (lookup_of_delete v.name n w db.volumes h).1;
      snap_names = inv.snap_names;
      listed = λ n s h.
          let (w, there, has) = inv.listed n s h in
          elim (==-cases v.name s.parent_volume) [
            | inl (same, p) ↦ absurd (ground (arith, covers n s h (sym p), ap (contains n) plain))
            | inr (other, p) ↦ (
              w,
              ground (arith, lookup-delete v.name s.parent_volume db.volumes, other, there),
              has,
            )
          ];
    }

abbrev has_none : List String → Bool
has_none [] = true
has_none (snap ∷ snaps) = false

pub delete_volume-IsListed :
    (o : Outcome) (name : String) (db : Db)
    → IsListed db
    → IsListed (on_volumes (delete_volume o name db.volumes).0 db)
unfolding delete_volume
delete_volume-IsListed o name db inv = elim (Option-cases (lookup name db.volumes)) [
  | inl missing ↦ subst IsListed (ground (arith, missing)) inv
  | inr (v, found) ↦ elim (Bool-cases (has_none v.snap_list)) [
    | inr kept ↦ subst IsListed (ground (arith, found, kept)) inv
    | inl plain ↦
        elim (Bool-cases (o.locks && not (is_started v.state) && (o.bricks && o.writes))) [
          | inr refused ↦ subst IsListed (ground (arith, found, plain, refused)) inv
          | inl free ↦
              subst IsListed (ground (arith, found, free, plain))
                (removed-IsListed name v db inv found (ground (arith, plain)))
        ]
  ]
]
