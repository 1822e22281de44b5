-- ===== src/Volumes/State.antt =====
-- `StartVolume`, `StopVolume` and `DeleteVolume` of glusterd2/commands/volumes, with `storeVolume` and
-- `undoStoreVolume` of common.go. `Outcome` is what happens to the transaction: whether its locks are
-- given, its steps on the bricks and in the translators succeed, and its writes to the store do.
pub mod Removal
pub mod Lifecycle
use glusterd.Prelude.{
  String, Bool, true, false, not, ◌&&◌, ◌||◌, Option, none, some, List, [], ◌∷◌, string_eq,
  if◌then◌else◌,
}
use glusterd.GoMap.{GoMap, lookup, insert, delete}
use glusterd.Brickmux.{VolState, created, started, stopped}
use glusterd.Volumes.{Volinfo}

abbrev pub Store : Type 0
Store = GoMap String Volinfo

pub data Status : Type 0 where
  done not_locked not_found already_started already_stopped not_started : Status
  must_be_stopped has_snapshots txn_failed : Status

pub record Outcome : Type 0 where
  pub locks : Bool
  pub bricks : Bool
  pub writes : Bool
  pub actions : Bool
  pub writes_back : Bool

-- The steps of a transaction that writes a volume: the bricks, the write of `storeVolume`, the actions
-- of the translators. A failure after the write is undone by `undoStoreVolume`.
unfoldable pub update_steps : Outcome → (old new : Volinfo) → Store → Store × Status
update_steps o old new store =
    if not o.bricks || not o.writes
    then (store, txn_failed)
    else if o.actions
    then (insert new.name new store, done)
    else if o.writes_back
    then (insert old.name old (insert new.name new store), txn_failed)
    else (insert new.name new store, txn_failed)

abbrev pub is_started : VolState → Bool
is_started started = true
is_started created = false
is_started stopped = false

abbrev pub with_state : VolState → Volinfo → Volinfo
with_state s v = record v { state = s }

unfoldable pub start_volume : Outcome → Bool → String → Store → Store × Status
start_volume o force name store =
    if not o.locks then (store, not_locked) else elim (lookup name store) [
      | none ↦ (store, not_found)
      | some v ↦
          if is_started v.state && not force
          then (store, already_started)
          else update_steps o v (with_state started v) store
    ]

unfoldable pub stop_volume : Outcome → String → Store → Store × Status
stop_volume o name store = if not o.locks then (store, not_locked) else elim (lookup name store) [
  | none ↦ (store, not_found)
  | some v ↦ elim v.state [
    | stopped ↦ (store, already_stopped)
    | created ↦ (store, not_started)
    | started ↦ update_steps o v (with_state stopped v) store
  ]
]

unfoldable pub delete_volume : Outcome → String → Store → Store × Status
delete_volume o name store = if not o.locks then (store, not_locked) else elim (lookup name store) [
  | none ↦ (store, not_found)
  | some v ↦ if is_started v.state then (store, must_be_stopped) else elim v.snap_list [
    | snap ∷ others ↦ (store, has_snapshots)
    | [] ↦ if o.bricks && o.writes then (delete v.name store, done) else (store, txn_failed)
  ]
]

pub data Command : Type 0 where
  start : (force : Bool) → Command
  stop remove : Command

abbrev pub run : Command → Outcome → String → Store → Store × Status
run (start force) o name store = start_volume o force name store
run stop o name store = stop_volume o name store
run remove o name store = delete_volume o name store
