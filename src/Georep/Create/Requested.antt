-- ===== src/Georep/Create/Requested.antt =====
-- Which sessions a request creates.
use glusterd.Prelude.{◌≡◌, ◌≢◌, ◌⊎◌, String, true, none, some, [], string_eq}
use glusterd.GoMap.{lookup}
use glusterd.Georep.{Session, Master, Env, Sessions, session_key}
use glusterd.Georep.Create.{
  GeorepCreateReq, Directories, Planned, new_georep_session, with_required,
}

-- The session to write is the new one, or the one that is there, whatever the request says besides.
pub IsWanted : Directories → String → String → GeorepCreateReq → Sessions → Session → Type 0
IsWanted dirs master remote req sessions s =
    ((lookup (session_key master remote) sessions ≡ none)
      × (s ≡ with_required dirs (new_georep_session master remote req)))
    ⊎ ((lookup (session_key master remote) sessions ≡ some s) × (req.force ≡ true))

-- What a request that succeeds has been checked for, and what it writes.
pub record IsRequested (env : Env) (dirs : Directories) (master remote : String)
    (req : GeorepCreateReq) (sessions : Sessions) (p : Planned) : Type 0 where
  pub different : master ≢ remote
  pub named : req.master_vol ≢ ""
  pub hosts : req.remote_hosts ≢ []
  pub remote_named : req.remote_vol ≢ ""
  pub vol : Master
  pub found : env.volume req.master_vol ≡ some vol
  pub same_id : vol.id ≡ master
  pub wanted : IsWanted dirs master remote req sessions p.session
  pub changelog : lookup "changelog.changelog" p.volinfo ≡ some "on"
  pub not_kept : p.oldvolinfo ≡ p.volinfo
