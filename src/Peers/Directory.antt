-- ===== src/Peers/Directory.antt =====
-- glusterd2/peer/store-utils.go: the peers of the store, by metadata, name and address. The store is
-- the list of its values in the order of their keys, each as it is decoded (`none`: it cannot be).
pub mod Lookup
use glusterd.Prelude.{
  String, Bool, true, false, ◌&&◌, Option, none, some, List, [], ◌∷◌, ◌++◌, Bytes, bytes_eq,
  string_eq, ◌==◌, Result, ok, err, if◌then◌else◌,
}
use glusterd.GoMap.{GoMap, lookup, has, insert}
use glusterd.Peers.{Peer}
use glusterd.Peers.Address.{is_peer_address_same, form_remote_peer_address}

pub data MetadataFilter : Type 0 where
  no_key_and_value only_key only_value key_and_value : MetadataFilter

pub record FilterParams : Type 0 where
  pub key : Option Bytes
  pub value : Option Bytes

unfoldable pub get_filter_type : FilterParams → MetadataFilter
get_filter_type f = elim f.key [
  | none ↦ elim f.value [ none ↦ no_key_and_value | some v ↦ only_value ]
  | some k ↦ elim f.value [ none ↦ only_key | some v ↦ key_and_value ]
]

abbrev or_empty : Option Bytes → Bytes
or_empty none = []
or_empty (some s) = s

-- Once for each value of the metadata that is the one asked for.
unfoldable pub with_value : Peer → Bytes → GoMap Bytes Bytes → List Peer
with_value p asked [] = []
with_value p asked ((k, v) ∷ metadata) =
    let rest = with_value p asked metadata in if v == asked then p ∷ rest else rest

-- How often the loop of `GetPeers` appends a peer.
unfoldable pub selected : FilterParams → Peer → List Peer
unfolding get_filter_type
selected f p = elim (get_filter_type f) [
  | no_key_and_value ↦ p ∷ []
  | only_key ↦ if has (or_empty f.key) p.metadata then p ∷ [] else []
  | only_value ↦ with_value p (or_empty f.value) p.metadata
  | key_and_value ↦ elim (lookup (or_empty f.key) p.metadata) [
    | none ↦ []
    | some v ↦ if v == or_empty f.value then p ∷ [] else []
  ]
]

unfoldable pub get_peers : FilterParams → List (Option Peer) → List Peer
get_peers f [] = []
get_peers f (none ∷ kvs) = get_peers f kvs
get_peers f (some p ∷ kvs) = selected f p ++ get_peers f kvs

abbrev pub no_filter : FilterParams
no_filter = record { key = none; value = none }

first_named : String → List Peer → Option Peer
first_named name [] = none
first_named name (p ∷ ps) = if p.name == name then some p else first_named name ps

-- `GetPeerByName`
unfoldable pub get_peer_by_name : String → List (Option Peer) → Option Peer
unfolding first_named
get_peer_by_name name kvs = first_named name (get_peers no_filter kvs)

unfoldable pub has_address : Bytes → Bytes → List Bytes → Bool
has_address default_port addr [] = false
has_address default_port addr (paddr ∷ paddrs) =
    if is_peer_address_same default_port addr paddr
    then true
    else has_address default_port addr paddrs

unfoldable pub first_at : Bytes → Bytes → List Peer → Option Peer
unfolding has_address
first_at default_port addr [] = none
first_at default_port addr (p ∷ ps) =
    if has_address default_port addr p.peer_addresses then some p else first_at default_port addr ps

-- `GetPeerByAddr`
unfoldable pub get_peer_by_addr : Bytes → Bytes → List (Option Peer) → Option Peer
get_peer_by_addr default_port addr kvs = first_at default_port addr (get_peers no_filter kvs)

unfoldable pub first_at_any : Bytes → List Bytes → List Peer → Option Peer
first_at_any default_port [] ps = none
first_at_any default_port (a ∷ addrs) ps = elim (first_at default_port a ps) [
  | some p ↦ some p
  | none ↦ first_at_any default_port addrs ps
]

-- `GetPeerByAddrs`
unfoldable pub get_peer_by_addrs : Bytes → List Bytes → List (Option Peer) → Option Peer
get_peer_by_addrs default_port addrs kvs = first_at_any default_port addrs (get_peers no_filter kvs)
