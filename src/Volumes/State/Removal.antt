-- ===== src/Volumes/State/Removal.antt =====
-- That a volume can be removed, whatever its state is.
use glusterd.Prelude.{
  ◌≡◌, ◌⊎◌, refl, inl, inr, String, true, false, none, some, [], string_eq, eq_iff, arith,
  Bool-cases,
}
use glusterd.GoMap.{lookup, lookup-insert, lookup-delete}
use glusterd.Brickmux.{stopped}
use glusterd.Volumes.{Volinfo}
use glusterd.Volumes.State.{
  Store, done, Outcome, update_steps, with_state, is_started, stop_volume, delete_volume, stop,
  remove, run,
}

deletes :
    (o : Outcome) (name : String) (store : Store) (v : Volinfo)
    → o.locks ≡ true
    → o.bricks ≡ true
    → o.writes ≡ true
    → lookup name store ≡ some v
    → v.name ≡ name
    → v.snap_list ≡ []
    → is_started v.state ≡ false
    → let (store', status) = delete_volume o name store in
      (status ≡ done) × (lookup name store' ≡ none)
unfolding delete_volume
deletes o name store v locked bricks writes found named plain idle = ground (
  arith,
  locked,
  bricks,
  writes,
  found,
  named,
  plain,
  idle,
  lookup-delete v.name name store,
  eq_iff v.name name,
)

stop_idles :
    (o : Outcome) (name : String) (store : Store) (v : Volinfo)
    → o.locks ≡ true
    → o.bricks ≡ true
    → o.writes ≡ true
    → o.actions ≡ true
    → lookup name store ≡ some v
    → v.name ≡ name
    → (lookup name (stop_volume o name store).0 ≡ some (with_state stopped v))
      ⊎ ((lookup name (stop_volume o name store).0 ≡ some v) × (is_started v.state ≡ false))
unfolding stop_volume update_steps
stop_idles o name store v locked bricks writes actions found named =
    elim (Bool-cases (is_started v.state)) [
      | inl on ↦ inl (
          ground (
            arith,
            on,
            locked,
            bricks,
            writes,
            actions,
            found,
            named,
            lookup-insert v.name name (with_state stopped v) store,
            eq_iff v.name name,
          ))
      | inr off ↦ inr (ground (arith, off, found), off)
    ]

-- With locks, steps and writes that succeed, a volume without snapshots can be removed whatever its
-- state is, by a command to stop it and one to delete it: the first may be refused, the second is not.
pub stop_then_delete :
    (o : Outcome) (name : String) (store : Store) (v : Volinfo)
    → o.locks ≡ true
    → o.bricks ≡ true
    → o.writes ≡ true
    → o.actions ≡ true
    → lookup name store ≡ some v
    → v.name ≡ name
    → v.snap_list ≡ []
    → let (store', status) = run remove o name (run stop o name store).0 in
      (status ≡ done) × (lookup name store' ≡ none)
stop_then_delete o name store v locked bricks writes actions found named plain =
    let between = (stop_volume o name store).0 in
    elim (stop_idles o name store v locked bricks writes actions found named) [
      | inl idle ↦
          deletes o name between (with_state stopped v) locked bricks writes idle named plain refl
      | inr (same, idle) ↦ deletes o name between v locked bricks writes same named plain idle
    ]
