-- ===== src/Peers/Removal.antt =====
-- `deletePeerHandler` and `bricksExist` of glusterd2/commands/peers/deletepeer.go. `DeleteEnv` is the
-- answers of the store, of the network and of the other peer.
pub mod Removable
use glusterd.Prelude.{
  ℕ, zero, suc, ◌+◌, ◌-◌, ◌/◌, String, Bool, true, false, not, ◌&&◌, ◌||◌, Option, none, some, List,
  [], ◌∷◌, ◌++◌, Bytes, codes, bytes_eq, string_eq, ◌==◌, contains, nat_beq, ltb, leb, length,
  get_elem?, Result, ok, err, ◌>>=◌, if◌then◌else◌,
}
use glusterd.GoMap.{GoMap, insert}
use glusterd.Brickmux.{Brickinfo, Volinfo, bricks_of}
use glusterd.Transaction.Nodes.{NodeId}
use glusterd.Peers.{Peer}
use glusterd.Peers.Address.{form_remote_peer_address}
use glusterd.Peers.Directory.{get_peer_by_addrs}
use glusterd.Peers.Service.{JoinError, no_error, another_req_in_progress}

pub record DeleteEnv : Type 0 where
  pub default_port : Bytes
  pub is_uuid : String → Bool
  -- the peer, or the status for the error
  pub get_peer : String → Result ℕ Peer
  pub my_uuid : NodeId
  pub is_node_alive : String → Bool
  pub volumes : Option (List Volinfo)
  pub dials : Bytes → Bool
  pub leave : Bytes → Option JoinError
  pub deletes : Bool

unfoldable pub is_on : NodeId → List Brickinfo → Bool
is_on id [] = false
is_on id (b ∷ bs) = id == b.peer_id || is_on id bs

unfoldable pub any_on : NodeId → List Volinfo → Bool
unfolding is_on
any_on id [] = false
any_on id (v ∷ vols) = is_on id (bricks_of false "" v.subvols) || any_on id vols

-- `bricksExist`; `none` is an error.
unfoldable pub bricks_exist : NodeId → Option (List Volinfo) → Option Bool
bricks_exist id none = none
bricks_exist id (some vols) = some (any_on id vols)

-- The status, whether the peer has left, and whether it was deleted from the store.
pub record DeleteOutcome : Type 0 where
  pub status : ℕ
  pub left : Bool
  pub deleted : Bool

abbrev deny : ℕ → DeleteOutcome
deny status = record { status = status; left = false; deleted = false }

unfoldable pub ask_to_leave : DeleteEnv → Bytes → DeleteOutcome
ask_to_leave env addr = if not (env.dials addr) then deny 500 else elim (env.leave addr) [
  | none ↦ deny 500
  | some e ↦ elim e [
    | no_error ↦
        if env.deletes
        then record { status = 204; left = true; deleted = true }
        else record { status = 500; left = true; deleted = false }
    | another_req_in_progress ↦ deny 409
    | _ ↦ deny 500
  ]
]

-- `deletePeerHandler`; a peer without an address is a panic, with no status.
unfoldable pub delete_peer : DeleteEnv → String → DeleteOutcome
unfolding ask_to_leave
delete_peer env id = if not (env.is_uuid id) then deny 400 else elim (env.get_peer id) [
  | err status ↦ deny status
  | ok p ↦
      if id == env.my_uuid
      then deny 400
      else if not (env.is_node_alive id)
      then deny 500
      else elim (bricks_exist id env.volumes) [
        | none ↦ deny 500
        | some exists ↦ if exists then deny 403 else elim p.peer_addresses [
          | [] ↦ deny 0
          | first ∷ others ↦ elim (form_remote_peer_address env.default_port first) [
            | none ↦ deny 400
            | some addr ↦ ask_to_leave env addr
          ]
        ]
      ]
]
