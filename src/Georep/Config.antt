-- ===== src/Georep/Config.antt =====
-- The configuration handlers of plugins/georeplication/rest.go. `check_config` is the answer of gsyncd to
-- an option and its value. Setting and resetting read the session before the lock is asked for.
pub mod Shown
pub mod Changed
use glusterd.Prelude.{
  String, Bool, true, false, not, ◌&&◌, ◌||◌, Option, none, some, List, [], ◌∷◌, string_eq, ◌==◌,
  Result, ok, err, ◌>>=◌, if◌then◌else◌,
}
use glusterd.GoMap.{GoMap, lookup, insert, delete, has, insert_all}
use glusterd.Georep.{
  SessionStatus, created, started, stopped, paused, Session, GeorepError, not_locked, no_volume,
  invalid_config, txn_failed, Env, Sessions, read_session, add_or_update_session,
}

pub record GeorepOption : Type 0 where
  pub name : String
  pub value : String
  pub default_value : String
  pub configurable : Bool
  pub modified : Bool

-- The bodies of the two loops of `georepConfigGetHandler`: values that gsyncd has from an old file are
-- dropped, and the options of the session are put in.
abbrev pub without_stale : GeorepOption → GeorepOption
without_stale o =
    if o.modified
    then record o { modified = false; value = o.default_value; default_value = "" }
    else o

abbrev pub with_session : GoMap String String → GeorepOption → GeorepOption
with_session options o = elim (lookup o.name options) [
  | none ↦ o
  | some val ↦ record o { default_value = o.value; value = val; modified = true }
]

unfoldable pub drop_stale : List GeorepOption → List GeorepOption
drop_stale [] = []
drop_stale (o ∷ opts) = without_stale o ∷ drop_stale opts

unfoldable pub apply_session : GoMap String String → List GeorepOption → List GeorepOption
apply_session options [] = []
apply_session options (o ∷ opts) = with_session options o ∷ apply_session options opts

-- `georepConfigGetHandler`, with what gsyncd reports.
unfoldable pub config_get :
    Env
    → Option (List GeorepOption)
    → String
    → String
    → Sessions
    → Result GeorepError (List GeorepOption)
config_get env reported master remote sessions = read_session env master remote sessions >>= λ s.
    elim reported [
      | none ↦ err invalid_config
      | some opts ↦ ok (apply_session s.options (drop_stale opts))
    ]

-- The loop that looks for a change and checks it: whether there is one.
unfoldable pub check_changes :
    (String → String → Bool) → GoMap String String → GoMap String String → Result GeorepError Bool
check_changes check_config options [] = ok false
check_changes check_config options ((k, v) ∷ req) =
    let rest = check_changes check_config options req in
    if not (elim (lookup k options) [ none ↦ true | some val ↦ not (v == val) ])
    then rest
    else if check_config k v
    then (rest >>= λ _. ok true)
    else err invalid_config

unfoldable pub reset_options : List String → GoMap String String → GoMap String String
reset_options [] options = options
reset_options (k ∷ req) options = reset_options req (delete k options)

unfoldable pub has_any : List String → GoMap String String → Bool
has_any [] options = false
has_any (k ∷ req) options = has k options || has_any req options

abbrev pub is_running : SessionStatus → Bool
is_running s = elim s [ started ↦ true | created ↦ false | stopped ↦ false | paused ↦ false ]

-- The transaction that both run: the session, and whether gsyncd is started again.
unfoldable pub write_config :
    Env → Session → Sessions → Sessions × Result GeorepError (Session × Bool)
write_config env s sessions =
    if env.steps && env.writes
    then (add_or_update_session s sessions, ok (s, is_running s.status))
    else (sessions, err txn_failed)

-- `georepConfigSetHandler` on the session that was read.
unfoldable pub set_on :
    Env
    → (String → String → Bool)
    → GoMap String String
    → Session
    → Sessions
    → Sessions × Result GeorepError (Session × Bool)
set_on env check_config req s sessions = elim (check_changes check_config s.options req) [
  | err e ↦ (sessions, err e)
  | ok changes ↦
      if not env.locks then (sessions, err not_locked) else elim (env.volume s.master_vol) [
        | none ↦ (sessions, err no_volume)
        | some vol ↦
            if not changes
            then (sessions, ok (s, false))
            else write_config env (record s { options = insert_all req s.options }) sessions
      ]
]

unfoldable pub config_set :
    Env
    → (String → String → Bool)
    → GoMap String String
    → String
    → String
    → Sessions
    → Sessions × Result GeorepError (Session × Bool)
config_set env check_config req master remote sessions =
    elim (read_session env master remote sessions) [
      | err e ↦ (sessions, err e)
      | ok s ↦ set_on env check_config req s sessions
    ]

-- `georepConfigResetHandler` on the session that was read.
unfoldable pub reset_on :
    Env → List String → Session → Sessions → Sessions × Result GeorepError (Session × Bool)
reset_on env req s sessions =
    if not (has_any req s.options)
    then (sessions, ok (s, false))
    else if not env.locks
    then (sessions, err not_locked)
    else elim (env.volume s.master_vol) [
      | none ↦ (sessions, err no_volume)
      | some vol ↦ write_config env (record s { options = reset_options req s.options }) sessions
    ]

unfoldable pub config_reset :
    Env → List String → String → String → Sessions → Sessions × Result GeorepError (Session × Bool)
config_reset env req master remote sessions = elim (read_session env master remote sessions) [
  | err e ↦ (sessions, err e)
  | ok s ↦ reset_on env req s sessions
]
