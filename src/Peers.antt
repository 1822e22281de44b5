-- ===== src/Peers.antt =====
-- glusterd2/peer and glusterd2/commands/peers: the peers in the store, their addresses, how one is
-- added, edited and deleted, and how a node joins and leaves a cluster.
pub mod Removal
pub mod Address
pub mod Directory
pub mod Service
pub mod Handlers
mod Scenarios
use glusterd.Prelude.{String, List, Bytes}
use glusterd.GoMap.{GoMap}

pub record Peer : Type 0 where
  pub id : String
  pub name : String
  pub peer_addresses : List Bytes
  pub client_addresses : List Bytes
  pub metadata : GoMap Bytes Bytes
