-- ===== src/Snapshots.antt =====
-- glusterd2/snapshot: the snapshots in the store (structs.go, store-utils.go), beside the volumes. A
-- snapshot lies under its name, and its name is on a list in its parent volume.
pub mod Info
pub mod Create
pub mod Commands
pub mod Listed
mod Scenarios
use glusterd.Prelude.{
  String, Bool, true, false, ◌&&◌, Option, none, some, List, [], ◌∷◌, string_eq, ◌==◌,
  if◌then◌else◌,
}
use glusterd.GoMap.{GoMap, lookup, insert, delete, has}
use glusterd.Volumes.{Volinfo}
use glusterd.Volumes.State.{Store}

pub record Snapinfo : Type 0 where
  pub snap_volinfo : Volinfo
  pub parent_volume : String
  pub description : String
  pub option_change : GoMap String String
  pub created_at : String

pub record Db : Type 0 where
  pub volumes : Store
  pub snaps : GoMap String Snapinfo

abbrev pub add_or_update_volume : Volinfo → Db → Db
add_or_update_volume v db = record db { volumes = insert v.name v db.volumes }

abbrev pub add_or_update_snap : Snapinfo → Db → Db
add_or_update_snap s db = record db { snaps = insert s.snap_volinfo.name s db.snaps }

-- Whether there is a snapshot; a read that fails counts as no.
abbrev pub exists : Bool → String → Db → Bool
exists answered name db = answered && has name db.snaps

-- The loop over the list of snapshots in `DeleteSnapshot`.
unfoldable pub without_first : String → List String → Option (List String)
without_first name [] = none
without_first name (entry ∷ entries) =
    let rest = without_first name entries in
    if entry == name then some entries else elim rest [ none ↦ none | some l ↦ some (entry ∷ l) ]

-- Which of the two writes of an operation the store takes: of the snapshot and of its parent.
pub record Writes : Type 0 where
  pub snap : Bool
  pub list : Bool

-- The second half of `DeleteSnapshot`: the name is taken off the parent's list.
unfoldable pub unlist : Bool → Snapinfo → Db → Db × Bool
unlist written s db = elim (lookup s.parent_volume db.volumes) [
  | none ↦ (db, false)
  | some vol ↦ elim (without_first s.snap_volinfo.name vol.snap_list) [
    | none ↦ (db, false)
    | some l ↦
        if written
        then (add_or_update_volume (record vol { snap_list = l }) db, true)
        else (db, false)
  ]
]

unfoldable pub delete_snapshot : Writes → Snapinfo → Db → Db × Bool
delete_snapshot w s db =
    if w.snap
    then unlist w.list s (record db { snaps = delete s.snap_volinfo.name db.snaps })
    else (db, false)
