-- ===== src/Georep/Actions.antt =====
-- `georepActionHandler` and `georepDeleteHandler` of plugins/georeplication/rest.go. A handler reads the
-- session before it asks for the lock, so each is a check and a commit, on the sessions as they are then.
pub mod Moves
use glusterd.Prelude.{
  String, Bool, true, false, not, ◌&&◌, ◌||◌, Option, none, some, List, string_eq, Result, ok, err,
  ◌>>=◌, if◌then◌else◌,
}
use glusterd.GoMap.{GoMap, lookup, insert, delete}
use glusterd.Georep.{
  SessionStatus, created, started, stopped, paused, Session, GeorepError, not_locked, no_volume,
  already_started, already_stopped, cannot_pause, cannot_resume, volume_not_started, txn_failed,
  Master, Env, Sessions, read_session, add_or_update_session, delete_session, validate_ids,
}

pub data Action : Type 0 where
  start stop pause resume : Action

unfoldable pub is_status : SessionStatus → SessionStatus → Bool
is_status created created = true
is_status created started = false
is_status created stopped = false
is_status created paused = false
is_status started created = false
is_status started started = true
is_status started stopped = false
is_status started paused = false
is_status stopped created = false
is_status stopped started = false
is_status stopped stopped = true
is_status stopped paused = false
is_status paused created = false
is_status paused started = false
is_status paused stopped = false
is_status paused paused = true

-- The four guards on the status of the session.
unfoldable pub refusal : Action → Bool → SessionStatus → Option GeorepError
unfolding is_status
refusal start force s = if is_status s started && not force then some already_started else none
refusal stop force s = if is_status s stopped && not force then some already_stopped else none
refusal pause force s = if not (is_status s started) && not force then some cannot_pause else none
refusal resume force s = if not (is_status s paused) && not force then some cannot_resume else none

unfoldable pub state_to_set : Action → SessionStatus
state_to_set start = started
state_to_set stop = stopped
state_to_set pause = paused
state_to_set resume = started

abbrev pub is_start : Action → Bool
is_start a = elim a [ start ↦ true | stop ↦ false | pause ↦ false | resume ↦ false ]

-- The part before the lock.
unfoldable pub action_check :
    Env → Action → Bool → String → String → Sessions → Result GeorepError Session
action_check env a force master remote sessions = read_session env master remote sessions >>= λ s.
    elim (refusal a force s.status) [ some e ↦ err e | none ↦ ok s ]

-- The part under the lock.
unfoldable pub action_commit :
    Env → Action → Session → Sessions → Sessions × Result GeorepError Session
action_commit env a s sessions =
    if not env.locks then (sessions, err not_locked) else elim (env.volume s.master_vol) [
      | none ↦ (sessions, err no_volume)
      | some vol ↦
          if is_start a && not vol.is_started
          then (sessions, err volume_not_started)
          else if not env.steps || not env.writes
          then (sessions, err txn_failed)
          else (
            add_or_update_session (record s { status = state_to_set a }) sessions,
            ok (record s { status = state_to_set a }),
          )
    ]

unfoldable pub georep_action :
    Env → Action → Bool → String → String → Sessions → Sessions × Result GeorepError Session
georep_action env a force master remote sessions =
    elim (action_check env a force master remote sessions) [
      | err e ↦ (sessions, err e)
      | ok s ↦ action_commit env a s sessions
    ]

unfoldable pub georep_delete : Env → String → String → Sessions → Sessions × Option GeorepError
georep_delete env master remote sessions = elim (read_session env master remote sessions) [
  | err e ↦ (sessions, some e)
  | ok s ↦ if not env.locks then (sessions, some not_locked) else elim (env.volume s.master_vol) [
    | none ↦ (sessions, some no_volume)
    | some vol ↦
        if env.steps && env.writes
        then (delete_session master remote sessions, none)
        else (sessions, some txn_failed)
  ]
]
