-- ===== src/Georep/Scenarios.antt =====
-- A session of geo-replication: tests, and the theorems at concrete inputs.
use glusterd.Prelude.{
  ◌==◌, ◌∙◌, sym, ap, inl, inr, Bool-cases, ◌≡◌, refl, String, true, false, some, [], ◌∷◌,
  string_eq, eq_iff, codes, ok, arith,
}
use glusterd.GoMap.{GoMap, delete, has, insert, lookup}
use glusterd.Georep.{
  Env, Master, Session, Sessions, get_session, key_of, paused, read_session, started,
}
use glusterd.Georep.Actions.{
  action_check, action_commit, georep_action, pause, refusal, state_to_set,
}
use glusterd.Georep.Actions.Moves.{
  Moves, IsKeyed, IsWritten, action_commit-IsWritten, georep_action-Moves,
}
use glusterd.Georep.Config.{
  GeorepOption, apply_session, config_get, config_reset, drop_stale, has_any, reset_on,
  reset_options, write_config,
}
use glusterd.Georep.Create.{Directories, GeorepCreateReq, Planned}
use glusterd.Georep.Workers.{Brick}
use glusterd.Georep.Keys.{SshPublicKey}

abbrev session : Session
session = record {
  master_id = "m";
  remote_id = "r";
  master_vol = "v";
  remote_user = "root";
  remote_hosts = ("p", "host") ∷ [];
  remote_vol = "w";
  status = started;
  options = ("sync-jobs", "3") ∷ [];
}

abbrev master : Master
master = record { id = "m"; is_started = true; options = [] }

abbrev env : Env
env = record {
  is_uuid = λ _. true;
  reads = true;
  locks = true;
  volume = λ _. some master;
  steps = true;
  writes = true;
}

abbrev sessions : Sessions
sessions = ("m/r", session) ∷ []

sessions-IsKeyed : IsKeyed sessions
unfolding IsKeyed lookup
sessions-IsKeyed key s h = elim (Bool-cases ("m/r" == key)) [
  | inl here ↦
      let same : session ≡ s = ground (arith, h, here) in
      ap key_of (sym same) ∙ (eq_iff "m/r" key).0 here
  | inr other ↦ absurd (ground (arith, h, other))
]

abbrev paused_session : Session
paused_session = record session { status = paused }

pause_works :
    georep_action env pause false "m" "r" sessions
    ≡ (("m/r", paused_session) ∷ [], ok paused_session)
unfolding georep_action action_check read_session get_session lookup refusal action_commit insert
    state_to_set
pause_works = refl

georep_action-Moves_example :
    (s : Session) × (lookup "m/r" sessions ≡ some s)
    × (paused_session ≡ record s { status = paused })
    × (key_of paused_session ≡ "m/r")
    × (false ≡ false → Moves pause s.status paused)
    × IsWritten paused_session sessions (("m/r", paused_session) ∷ [])
unfolding state_to_set
georep_action-Moves_example =
    georep_action-Moves env pause false "m" "r" sessions (("m/r", paused_session) ∷ [])
      paused_session sessions-IsKeyed pause_works

-- The session after another request has set an option, while a pause waits for the lock.
abbrev changed : Session
changed = record session { options = ("sync-jobs", "9") ∷ [] }

pause_checked : action_check env pause false "m" "r" sessions ≡ ok session
unfolding action_check read_session get_session lookup refusal
pause_checked = refl

pause_commits :
    action_commit env pause session (("m/r", changed) ∷ [])
    ≡ (("m/r", paused_session) ∷ [], ok paused_session)
unfolding action_commit insert state_to_set
pause_commits = refl

action_commit-IsWritten_example :
    (lookup "m/r" sessions ≡ some session)
    × (paused_session ≡ record session { status = paused })
    × IsWritten paused_session (("m/r", changed) ∷ []) (("m/r", paused_session) ∷ [])
unfolding state_to_set
action_commit-IsWritten_example =
    action_commit-IsWritten env pause false "m" "r" sessions (("m/r", changed) ∷ [])
      (("m/r", paused_session) ∷ []) session paused_session pause_checked pause_commits

abbrev sync_jobs : GeorepOption
sync_jobs = record {
  name = "sync-jobs";
  value = "7";
  default_value = "2";
  configurable = true;
  modified = true;
}

options_shown :
    config_get env (some (sync_jobs ∷ [])) "m" "r" sessions
    ≡ ok (record sync_jobs { value = "3" } ∷ [])
unfolding config_get read_session get_session lookup apply_session drop_stale
options_shown = refl

abbrev set_req : GoMap String String
set_req = ("sync-jobs", "9") ∷ []

abbrev bare : Session
bare = record session { options = [] }

reset_works :
    config_reset env ("sync-jobs" ∷ []) "m" "r" sessions ≡ (("m/r", bare) ∷ [], ok (bare, true))
unfolding config_reset read_session get_session lookup reset_on has_any has write_config insert
    reset_options delete
reset_works = refl

abbrev create_req : GeorepCreateReq
create_req = record {
  master_vol = "v";
  remote_user = "";
  remote_hosts = ("p", "host") ∷ [];
  remote_vol = "w";
  force = true;
}

abbrev dirs : Directories
dirs = record {
  rundir = "/run";
  localstatedir = "/var";
  logdir = "/log";
  marker_file = "/var/tstamp";
}

abbrev marked : GoMap String String
marked =
    ("marker.xtime", "on")
    ∷ ("marker.gsync-force-xtime", "on")
    ∷ ("changelog.changelog", "on")
    ∷ ("marker.volume-uuid", "m")
    ∷ ("marker.timestamp-file", "/var/tstamp")
    ∷ []

abbrev planned : Planned
planned = record { session = session; volinfo = marked; oldvolinfo = marked }

abbrev brick : Brick
brick = record { hostname = "host"; peer_id = "p"; path = "/a" }

abbrev key : SshPublicKey
key = record { peer_id = codes "p"; gsyncd_key = codes "g"; tar_key = codes "t" }
