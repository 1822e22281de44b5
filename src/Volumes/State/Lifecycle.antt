-- ===== src/Volumes/State/Lifecycle.antt =====
-- The states that a volume goes through, and which commands move it.
use glusterd.Prelude.{◌≡◌, ◌≢◌, ◌⊎◌, String, Bool, true, Option, none, some, [], string_eq}
use glusterd.GoMap.{lookup, delete}
use glusterd.Brickmux.{started, stopped}
use glusterd.Volumes.{Volinfo}
use glusterd.Volumes.State.{
  Store, Status, done, Outcome, update_steps, with_state, Command, start, stop, remove,
}

-- What a command makes of a volume.
pub data Moves : Command → Volinfo → Option Volinfo → Type 0 where
  starts :
      (force : Bool) (v : Volinfo)
      → (v.state ≢ started) ⊎ (force ≡ true)
      → Moves (start force) v (some (with_state started v))
  stops : (v : Volinfo) → v.state ≡ started → Moves stop v (some (with_state stopped v))
  removes : (v : Volinfo) → v.state ≢ started → v.snap_list ≡ [] → Moves remove v none

-- A volume is stored under its name.
unfoldable pub IsNamed : Store → Type 0
IsNamed store = (name : String) (v : Volinfo) → lookup name store ≡ some v → v.name ≡ name

-- How the value of one name may change.
pub record IsEffect (cmd : Command) (o : Outcome) (name : String) (store store' : Store)
    (status : Status) : Type 0 where
  pub moved :
      status ≡ done
      → (v : Volinfo) × (lookup name store ≡ some v) × Moves cmd v (lookup name store')
  pub undone : status ≢ done → o.writes_back ≡ true → lookup name store' ≡ lookup name store
  pub others : (k : String) → k ≢ name → lookup k store' ≡ lookup k store

-- A result that is refused, or the steps on a volume that is found.
IsRun : Command → Outcome → String → Store → Store × Status → Type 0
IsRun cmd o name store r =
    ((r.0 ≡ store) × (r.1 ≢ done))
    ⊎ ((v new : Volinfo) × (lookup name store ≡ some v)
        × (new.name ≡ v.name)
        × Moves cmd v (some new)
        × (r ≡ update_steps o v new store))

-- A deletion that is refused, or that removes the volume that is found.
IsDeletion : String → Store → Store × Status → Type 0
IsDeletion name store r =
    ((r.0 ≡ store) × (r.1 ≢ done))
    ⊎ ((v : Volinfo) × (lookup name store ≡ some v)
        × Moves remove v none
        × (r ≡ (delete v.name store, done)))
