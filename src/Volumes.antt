-- ===== src/Volumes.antt =====
-- glusterd2/volume/struct.go, as far as the commands of glusterd2/commands/volumes change it: a
-- volume, its subvolumes and its bricks.
pub mod Create
pub mod Expand
pub mod Settings
pub mod State
pub mod Fixtures
mod Scenarios
mod CommandScenarios
use glusterd.Prelude.{ℕ, String, List, Bytes}
use glusterd.GoMap.{GoMap}
use glusterd.Brickmux.{VolState}
use glusterd.Transaction.Nodes.{NodeId}

pub data BrickType : Type 0 where
  plain arbiter thin_arbiter : BrickType

pub record Brickinfo : Type 0 where
  pub id : String
  pub peer_id : NodeId
  pub hostname : Bytes
  pub path : String
  pub brick_type : BrickType
  pub volume_name : String

pub data SubvolType : Type 0 where
  distribute replicate disperse : SubvolType

pub data VolType : Type 0 where
  distribute_vol replicate_vol disperse_vol dist_replicate dist_disperse : VolType

pub record Subvol : Type 0 where
  pub name : String
  pub subvol_type : SubvolType
  pub bricks : List Brickinfo
  pub replica_count : ℕ
  pub arbiter_count : ℕ
  pub disperse_count : ℕ
  pub redundancy_count : ℕ

pub record Volinfo : Type 0 where
  pub name : String
  pub vol_type : VolType
  pub state : VolState
  pub dist_count : ℕ
  pub transport : String
  pub options : GoMap String String
  pub metadata : GoMap String String
  pub subvols : List Subvol
  pub snap_list : List String
  pub capacity : ℕ
