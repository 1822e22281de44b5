-- ===== src/Georep/Create.antt =====
-- `georepCreateHandler` and `newGeorepSession` of plugins/georeplication/rest.go, up to the transaction.
pub mod Requested
use glusterd.Prelude.{
  String, Bool, true, false, not, ◌&&◌, ◌||◌, Option, none, some, List, [], ◌∷◌, map, string_eq,
  ◌==◌, nat_beq, length, Result, ok, err, if◌then◌else◌,
}
use glusterd.GoMap.{GoMap, lookup, insert}
use glusterd.Georep.{
  SessionStatus, created, Session, GeorepError, same_volume, no_master_vol, no_remote_hosts,
  no_remote_vol, not_locked, no_volume, wrong_master_id, session_exists, session_not_found,
  store_failed, Master, Env, Sessions, get_session, session_key, validate_ids,
}

pub record GeorepCreateReq : Type 0 where
  pub master_vol : String
  pub remote_user : String
  pub remote_hosts : List (String × String)
  pub remote_vol : String
  pub force : Bool

-- The directories of the daemon's configuration; `marker_file` is the path of the marker's time stamp.
pub record Directories : Type 0 where
  pub rundir : String
  pub localstatedir : String
  pub logdir : String
  pub marker_file : String

unfoldable pub new_georep_session : String → String → GeorepCreateReq → Session
new_georep_session master remote req = record {
  master_id = master;
  remote_id = remote;
  master_vol = req.master_vol;
  remote_user = if req.remote_user == "" then "root" else req.remote_user;
  remote_hosts = req.remote_hosts;
  remote_vol = req.remote_vol;
  status = created;
  options = [];
}

abbrev pub with_required : Directories → Session → Session
with_required dirs s = record s {
  options = insert "gluster-logdir" dirs.logdir (
      insert "glusterd-workdir" dirs.localstatedir (insert "gluster-rundir" dirs.rundir s.options));
}

-- The options that the master volume needs.
unfoldable pub with_marker : Directories → Master → GoMap String String
with_marker dirs vol = insert "marker.timestamp-file" dirs.marker_file (
    insert "marker.volume-uuid" vol.id (
      insert "changelog.changelog" "on"
        (insert "marker.gsync-force-xtime" "on" (insert "marker.xtime" "on" vol.options))))

-- The checks of the request before the lock.
unfoldable pub check_create : Env → String → String → GeorepCreateReq → Option GeorepError
check_create env master remote req = elim (validate_ids env master remote) [
  | some e ↦ some e
  | none ↦
      if master == remote
      then some same_volume
      else if req.master_vol == ""
      then some no_master_vol
      else if nat_beq (length req.remote_hosts) 0
      then some no_remote_hosts
      else if req.remote_vol == ""
      then some no_remote_vol
      else none
]

-- The session that the transaction writes: an existing one is kept, if the request forces it.
unfoldable pub session_to_write :
    Env → Directories → String → String → GeorepCreateReq → Sessions → Result GeorepError Session
session_to_write env dirs master remote req sessions =
    if not env.reads then err store_failed else elim (lookup (session_key master remote) sessions) [
      | none ↦ ok (with_required dirs (new_georep_session master remote req))
      | some s ↦ if req.force then ok s else err session_exists
    ]

-- What is put in the context of the transaction: the session, and the options of the volume as `volinfo`
-- and as `oldvolinfo`. The two are one object, which has been changed when they are stored.
pub record Planned : Type 0 where
  pub session : Session
  pub volinfo : GoMap String String
  pub oldvolinfo : GoMap String String

unfoldable pub georep_create :
    Env → Directories → String → String → GeorepCreateReq → Sessions → Result GeorepError Planned
georep_create env dirs master remote req sessions = elim (check_create env master remote req) [
  | some e ↦ err e
  | none ↦ if not env.locks then err not_locked else elim (env.volume req.master_vol) [
    | none ↦ err no_volume
    | some vol ↦
        if not (vol.id == master)
        then err wrong_master_id
        else elim (session_to_write env dirs master remote req sessions) [
          | err e ↦ err e
          | ok s ↦ ok (record {
            session = s;
            volinfo = with_marker dirs vol;
            oldvolinfo = with_marker dirs vol;
          })
        ]
  ]
]
