-- ===== src/Peers/Handlers.antt =====
-- glusterd2/commands/peers: the handlers of addpeer.go and editpeer.go. `AddEnv` is the answers of the
-- store, of the network and of the other peer. A handler's answer is the list of the statuses that it
-- sends.
pub mod Addresses
use glusterd.Prelude.{
  ℕ, zero, suc, ◌+◌, ◌-◌, ◌/◌, String, Bool, true, false, not, ◌&&◌, ◌||◌, Option, none, some, List,
  [], ◌∷◌, ◌++◌, Bytes, codes, bytes_eq, string_eq, ◌==◌, contains, nat_beq, ltb, leb, length,
  get_elem?, Result, ok, err, ◌>>=◌, if◌then◌else◌,
}
use glusterd.GoMap.{GoMap, insert}
use glusterd.Brickmux.{Brickinfo, Volinfo, bricks_of}
use glusterd.Transaction.Nodes.{NodeId}
use glusterd.Peers.{Peer}
use glusterd.Peers.Address.{form_remote_peer_address}
use glusterd.Peers.Directory.{get_peer_by_addrs}
use glusterd.Peers.Service.{JoinError, no_error, another_req_in_progress}

abbrev pub max_metadata_size_limit : ℕ
max_metadata_size_limit = 4096

abbrev pub Metadata : Type 0
Metadata = GoMap Bytes Bytes

abbrev pub is_restricted : Bytes → Bool
is_restricted [] = false
is_restricted (c ∷ s) = nat_beq c b'_'

-- The size of the metadata of a request or a peer: keys of the program's own do not count.
unfoldable pub map_size : Metadata → ℕ
map_size [] = 0
map_size ((k, v) ∷ m) =
    let rest = map_size m in if is_restricted k then rest else length k + length v + rest

unfoldable pub has_restricted_key : Metadata → Bool
has_restricted_key [] = false
has_restricted_key ((k, v) ∷ m) = is_restricted k || has_restricted_key m

unfoldable pub overlay : Metadata → Metadata → Metadata
overlay [] metadata = metadata
overlay ((k, v) ∷ m) metadata = overlay m (insert k v metadata)

abbrev pub set_zone : Bytes → Metadata → Metadata
set_zone zone metadata = if zone == [] then metadata else insert (codes "_zone") zone metadata

-- `a <= b` of Go strings
unfoldable pub bytes_leb : Bytes → Bytes → Bool
bytes_leb [] b = true
bytes_leb (x ∷ a) [] = false
bytes_leb (x ∷ a) (y ∷ b) = let rest = bytes_leb a b in if nat_beq x y then rest else ltb x y

abbrev is_above : Bytes → Option Bytes → Bool
is_above x none = true
is_above x (some a) = bytes_leb x a

-- `sort.SearchStrings` between `i` and `j`, in as many rounds as there are strings.
unfoldable pub search_strings : ℕ → List Bytes → Bytes → ℕ → ℕ → ℕ
search_strings zero a x i j = i
search_strings (suc fuel) a x i j =
    let h = (i + j) / 2 in
    let left = search_strings fuel a x i h in
    let right = search_strings fuel a x (h + 1) j in
    if ltb i j then if is_above x (get_elem? a h) then left else right else i

replace_at : ℕ → Bytes → List Bytes → List Bytes
replace_at i x [] = []
replace_at zero x (a ∷ as') = x ∷ as'
replace_at (suc i) x (a ∷ as') = a ∷ replace_at i x as'

-- `Swap(0, index)`; `none` is a panic.
unfoldable pub swap_first : ℕ → List Bytes → Option (List Bytes)
unfolding replace_at
swap_first index [] = none
swap_first index (a ∷ addrs) = elim (get_elem? (a ∷ addrs) index) [
  | none ↦ none
  | some b ↦ some (replace_at 0 b (replace_at index a (a ∷ addrs)))
]

-- The address by which the peer was reached is meant to come first.
unfoldable pub order_addresses : Bytes → List Bytes → Option (List Bytes)
unfolding swap_first
order_addresses addr addrs =
    if contains addr addrs
    then swap_first (search_strings (length addrs) addrs addr 0 (length addrs)) addrs
    else some (addr ∷ addrs)

pub record PeerAddReq : Type 0 where
  pub addresses : List Bytes
  pub zone : Bytes
  pub metadata : Metadata

pub record AddEnv : Type 0 where
  pub default_port : Bytes
  pub parses : Bool
  -- the peers of the store (`none`: it cannot be read, which is not noticed)
  pub kvs : Option (List (Option Peer))
  pub is_reachable : Bytes → Bool
  pub dials : Bytes → Bool
  pub join : Bytes → Option (String × JoinError)
  pub get_peer : String → Option Peer
  pub puts : Bool

-- The statuses that are sent, whether the other peer was asked to join, and the peer that is put into
-- the store.
pub record AddOutcome : Type 0 where
  pub statuses : List ℕ
  pub asked : Option Bytes
  pub stored : Option Peer

abbrev refuse : ℕ → AddOutcome
refuse status = record { statuses = status ∷ []; asked = none; stored = none }

abbrev asked_in_vain : Bytes → ℕ → AddOutcome
asked_in_vain addr status = record { statuses = status ∷ []; asked = some addr; stored = none }

abbrev known_peer : AddEnv → List Bytes → Option Peer
known_peer env addrs = elim env.kvs [
  | none ↦ none
  | some kvs ↦ get_peer_by_addrs env.default_port addrs kvs
]

-- What follows when the peer has joined; a panic of the swap sends nothing.
unfoldable pub store_new_peer : AddEnv → PeerAddReq → Bytes → Peer → AddOutcome
store_new_peer env req addr p = elim (order_addresses addr p.peer_addresses) [
  | none ↦ record { statuses = []; asked = some addr; stored = none }
  | some addrs ↦
      let p' = record p {
        peer_addresses = addrs;
        metadata = overlay req.metadata (set_zone req.zone p.metadata);
      } in
      if env.puts
      then record { statuses = 201 ∷ []; asked = some addr; stored = some p' }
      else record { statuses = 500 ∷ 201 ∷ []; asked = some addr; stored = none }
]

unfoldable pub ask_to_join : AddEnv → PeerAddReq → Bytes → AddOutcome
unfolding store_new_peer
ask_to_join env req addr = elim (env.join addr) [
  | none ↦ asked_in_vain addr 500
  | some (id, e) ↦ elim e [
    | no_error ↦ elim (env.get_peer id) [
      | none ↦ asked_in_vain addr 500
      | some p ↦ store_new_peer env req addr p
    ]
    | another_req_in_progress ↦ asked_in_vain addr 409
    | _ ↦ asked_in_vain addr 500
  ]
]

-- `addPeerHandler`
unfoldable pub add_peer : AddEnv → PeerAddReq → AddOutcome
unfolding ask_to_join
add_peer env req =
    if not env.parses
    then refuse 400
    else if ltb max_metadata_size_limit (map_size req.metadata)
    then refuse 400
    else if has_restricted_key req.metadata
    then refuse 400
    else elim req.addresses [
      | [] ↦ refuse 400
      | first ∷ others ↦ elim (known_peer env (first ∷ others)) [
        | some p ↦ refuse 409
        | none ↦ elim (form_remote_peer_address env.default_port first) [
          | none ↦ refuse 400
          | some addr ↦
              if not (env.is_reachable addr)
              then refuse 500
              else if not (env.dials addr)
              then refuse 500
              else ask_to_join env req addr
        ]
      ]
    ]

pub record PeerEditReq : Type 0 where
  pub zone : Bytes
  pub metadata : Metadata

pub data EditError : Type 0 where
  peer_not_found metadata_size_out_of_bounds update_failed : EditError

-- `txnPeerEdit`: the peer of the store, and whether it can be written.
unfoldable pub txn_peer_edit : Option Peer → Bool → PeerEditReq → Result EditError Peer
txn_peer_edit none puts req = err peer_not_found
txn_peer_edit (some p) puts req =
    let edited = overlay req.metadata p.metadata in
    if ltb max_metadata_size_limit (map_size req.metadata)
    then err metadata_size_out_of_bounds
    else if ltb max_metadata_size_limit (map_size edited)
    then err metadata_size_out_of_bounds
    else if puts
    then ok (record p { metadata = set_zone req.zone edited })
    else err update_failed
