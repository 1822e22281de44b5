-- ===== src/Georep.antt =====
-- plugins/georeplication: sessions of geo-replication and their place in the store (store-utils.go).
pub mod Create
pub mod Actions
pub mod Config
pub mod Workers
pub mod Keys
mod Scenarios
use Prim.Native.String.{◌++◌}
use glusterd.Prelude.{
  ◌≡◌, inl, inr, arith, Option-cases, String, Bool, not, Option, none, some, List, string_eq,
  Result, ok, err, if◌then◌else◌,
}
use glusterd.GoMap.{GoMap, lookup, insert, delete}

pub data SessionStatus : Type 0 where
  created started stopped paused : SessionStatus

pub record Session : Type 0 where
  pub master_id : String
  pub remote_id : String
  pub master_vol : String
  pub remote_user : String
  -- the peer id and the host name of each
  pub remote_hosts : List (String × String)
  pub remote_vol : String
  pub status : SessionStatus
  pub options : GoMap String String

pub data GeorepError : Type 0 where
  invalid_master_id invalid_remote_id same_volume : GeorepError
  no_master_vol no_remote_hosts no_remote_vol : GeorepError
  not_locked no_volume wrong_master_id session_exists session_not_found store_failed : GeorepError
  already_started already_stopped cannot_pause cannot_resume volume_not_started : GeorepError
  invalid_config txn_failed : GeorepError

-- The master volume, as far as a session depends on it.
pub record Master : Type 0 where
  pub id : String
  pub is_started : Bool
  pub options : GoMap String String

-- What happens around a request: which ids are valid, whether the store can be read and written, the
-- lock is given and the steps of the transaction succeed, and the volumes in the store.
pub record Env : Type 0 where
  pub is_uuid : String → Bool
  pub reads : Bool
  pub locks : Bool
  pub volume : String → Option Master
  pub steps : Bool
  pub writes : Bool

abbrev pub Sessions : Type 0
Sessions = GoMap String Session

abbrev pub session_key : String → String → String
session_key master remote = master ++ "/" ++ remote

unfoldable pub get_session : Env → String → String → Sessions → Result GeorepError Session
get_session env master remote sessions =
    if env.reads
    then elim (lookup (session_key master remote) sessions) [
      | none ↦ err session_not_found
      | some s ↦ ok s
    ]
    else err store_failed

abbrev pub key_of : Session → String
key_of s = session_key s.master_id s.remote_id

abbrev pub add_or_update_session : Session → Sessions → Sessions
add_or_update_session s sessions = insert (key_of s) s sessions

abbrev pub delete_session : String → String → Sessions → Sessions
delete_session master remote sessions = delete (session_key master remote) sessions

-- `validateMasterAndRemoteIDFormat`
abbrev pub validate_ids : Env → String → String → Option GeorepError
validate_ids env master remote =
    if not (env.is_uuid master)
    then some invalid_master_id
    else if not (env.is_uuid remote)
    then some invalid_remote_id
    else none

-- The session that a request names, as every handler reads it first.
unfoldable pub read_session : Env → String → String → Sessions → Result GeorepError Session
read_session env master remote sessions = elim (validate_ids env master remote) [
  | some e ↦ err e
  | none ↦ get_session env master remote sessions
]

pub read_session_lem :
    (env : Env) (master remote : String) (sessions : Sessions) (s : Session)
    → read_session env master remote sessions ≡ ok s
    → lookup (session_key master remote) sessions ≡ some s
unfolding read_session get_session
read_session_lem env master remote sessions s h =
    elim (Option-cases (lookup (session_key master remote) sessions)) [
      | inl missing ↦ absurd (ground (arith, h, missing))
      | inr (t, found) ↦ ground (arith, h, found)
    ]
