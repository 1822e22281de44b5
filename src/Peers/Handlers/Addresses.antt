-- ===== src/Peers/Handlers/Addresses.antt =====
-- When a peer is asked to join, and what is stored of it.
use glusterd.Prelude.{
  ◌≡◌, ◌≢◌, ◌≤◌, refl, inl, inr, true, false, none, some, List, [], ◌∷◌, Bytes, bytes_eq,
  bytes_beq_iff, ◌==◌, ok, Option, arith, Bool-cases, Option-cases, Bool, codes,
}
use glusterd.GoMap.{lookup, insert, lookup-insert}
use glusterd.Peers.{Peer}
use glusterd.Peers.Address.{form_remote_peer_address}
use glusterd.Peers.Handlers.{
  AddEnv, PeerAddReq, PeerEditReq, add_peer, ask_to_join, store_new_peer, max_metadata_size_limit,
  map_size, Metadata, is_restricted, set_zone, overlay, has_restricted_key, known_peer,
  txn_peer_edit,
}

abbrev pub address_of : AddEnv → List Bytes → Option Bytes
address_of env [] = none
address_of env (first ∷ others) = form_remote_peer_address env.default_port first

-- The request and the answers let the peer at `addr` be asked.
pub record IsAskable (env : AddEnv) (req : PeerAddReq) (addr : Bytes) : Type 0 where
  pub small : map_size req.metadata ≤ 4096
  pub unrestricted : has_restricted_key req.metadata ≡ false
  pub unknown : known_peer env req.addresses ≡ none
  pub formed : address_of env req.addresses ≡ some addr
  pub reachable : env.is_reachable addr ≡ true

store_new_peer-asked :
    (env : AddEnv) (req : PeerAddReq) (addr : Bytes) (p : Peer)
    → (store_new_peer env req addr p).asked ≡ some addr
unfolding store_new_peer
store_new_peer-asked env req addr p = ground arith

ask_to_join-asked :
    (env : AddEnv) (req : PeerAddReq) (addr : Bytes) → (ask_to_join env req addr).asked ≡ some addr
unfolding ask_to_join
ask_to_join-asked env req addr = elim (Option-cases (env.join addr)) [
  | inl lost ↦ ground (arith, lost)
  | inr ((id, e), answered) ↦ elim (Option-cases (env.get_peer id)) [
    | inl absent ↦ ground (arith, answered, absent)
    | inr (p, found) ↦ ground (arith, answered, found, store_new_peer-asked env req addr p)
  ]
]

-- A peer is asked to join the cluster only if the metadata of the request is within the limit and has
-- no key of the program's own, no peer of the cluster has one of the addresses, and the peer can be
-- reached at the first address, which is the one that is asked.
add_peer-IsAskable :
    (env : AddEnv) (req : PeerAddReq) (addr : Bytes)
    → (add_peer env req).asked ≡ some addr
    → IsAskable env req addr
unfolding add_peer
add_peer-IsAskable env req addr h = elim (Option-cases (address_of env req.addresses)) [
  | inl unformed ↦ absurd (ground (arith, h, unformed))
  | inr (addr', formed) ↦ ground (arith, h, formed, ask_to_join-asked env req addr')
]

map_size-insert :
    (k v : Bytes) (m : Metadata) → is_restricted k ≡ true → map_size (insert k v m) ≡ map_size m
unfolding map_size insert
map_size-insert k v [] h = ground (arith, h)
map_size-insert k v ((j, old) ∷ m) h = ground (arith, h, map_size-insert k v m h, bytes_beq_iff j k)

map_size-set_zone : (zone : Bytes) (m : Metadata) → map_size (set_zone zone m) ≡ map_size m
map_size-set_zone zone m = elim (Bool-cases (zone == [])) [
  | inl absent ↦ rw absent refl
  | inr given ↦ rw given (map_size-insert (codes "_zone") zone m refl)
]

-- An edited peer keeps its id, name and addresses, its metadata is within the limit, and a zone that
-- was asked for is its zone.
txn_peer_edit_lem :
    (p p' : Peer) (puts : Bool) (req : PeerEditReq)
    → txn_peer_edit (some p) puts req ≡ ok p'
    → (p'.id ≡ p.id)
      × (p'.name ≡ p.name)
      × (p'.peer_addresses ≡ p.peer_addresses)
      × (map_size p'.metadata ≤ max_metadata_size_limit)
      × (req.zone ≢ [] → lookup (codes "_zone") p'.metadata ≡ some req.zone)
unfolding txn_peer_edit
txn_peer_edit_lem p p' puts req h =
    let edited = overlay req.metadata p.metadata in
    let size = map_size-set_zone req.zone edited in
    let zone = lookup-insert (codes "_zone") (codes "_zone") req.zone edited in
    (
      ground arith,
      ground arith,
      ground arith,
      ground (arith, size),
      λ given. ground (arith, zone, bytes_beq_iff req.zone [], given),
    )
