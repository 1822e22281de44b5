-- ===== src/Peers/Scenarios.antt =====
-- A node, its cluster and a new peer: tests, and the theorems at concrete inputs.
use glusterd.Prelude.{
  ◌≡◌, ◌≢◌, refl, true, false, none, some, List, [], ◌∷◌, Bytes, bytes_eq, string_eq, String, codes,
  ok, err,
}
use glusterd.GoMap.{insert}
use glusterd.Text.{has_code}
use glusterd.Brickmux.{Volinfo, started, bricks_of, add_bricks}
use glusterd.Peers.{Peer}
use glusterd.Peers.Address.{
  split_host_port, form_remote_peer_address, is_peer_address_same, too_many_colons,
}
use glusterd.Peers.Directory.{
  get_peers, selected, get_filter_type, with_value, get_peer_by_addrs, first_at, first_at_any,
}
use glusterd.Peers.Service.{
  Answers, Node, running, no_error, store_reconfig_failed, join, reconfigure_store,
  restart_default_store, update_cluster_id,
}
use glusterd.Peers.Service.Outcome.{IsMember, join-IsMember, join_fails}
use glusterd.Peers.Handlers.{
  AddEnv, PeerAddReq, PeerEditReq, add_peer, ask_to_join, order_addresses, search_strings,
  swap_first, bytes_leb, map_size, has_restricted_key, overlay, txn_peer_edit,
}
use glusterd.Peers.Removal.{DeleteEnv, delete_peer, any_on, bricks_exist}
use glusterd.Peers.Removal.Removable.{IsRemovable, delete_peer-IsRemovable}

abbrev port : Bytes
port = codes "24008"

abbrev peer_a : Peer
peer_a = record {
  id = "id-a";
  name = "a";
  peer_addresses = codes "10.0.0.1:24008" ∷ [];
  client_addresses = [];
  metadata = (codes "rack", codes "r1") ∷ (codes "room", codes "r1") ∷ [];
}

abbrev peer_b : Peer
peer_b = record {
  id = "id-b";
  name = "b";
  peer_addresses = codes "10.0.0.2:24008" ∷ [];
  client_addresses = [];
  metadata = [];
}

default_port_added :
    form_remote_peer_address port (codes "10.0.0.1") ≡ some (codes "10.0.0.1:24008")
unfolding form_remote_peer_address split_host_port has_code
default_port_added = refl

two_colons : split_host_port (codes "::1") ≡ err too_many_colons
unfolding split_host_port has_code
two_colons = refl

in_brackets : split_host_port (codes "[::1]:80") ≡ ok (codes "::1", codes "80")
unfolding split_host_port has_code
in_brackets = refl

-- A peer with the value under two keys is listed twice.
listed_twice :
    get_peers (record { key = none; value = some (codes "r1") }) (some peer_a ∷ [])
    ≡ peer_a ∷ peer_a ∷ []
unfolding get_peers selected get_filter_type with_value
listed_twice = refl

-- The search takes the addresses to be sorted: where they are not, the swap may be out of range.
swap_panics : order_addresses (codes "c") (codes "c" ∷ codes "a" ∷ []) ≡ none
unfolding order_addresses search_strings swap_first bytes_leb
swap_panics = refl

-- Or the address stays where it is.
not_moved :
    order_addresses (codes "a") (codes "b" ∷ codes "a" ∷ []) ≡ some (codes "b" ∷ codes "a" ∷ [])
unfolding order_addresses search_strings swap_first bytes_leb
not_moved = refl

abbrev alone : Answers
alone = record {
  peers = some 1;
  volumes = some 0;
  knows_peer = true;
  updates_id = true;
  restores_id = true;
  peers_left = some 1;
  inits = true;
  saves = true;
  adds_self = true;
  inits_again = true;
}

abbrev node : Node
node = record {
  cluster_id = "old";
  store = some "old";
  endpoints = "http://a:2379" ∷ [];
  saved_endpoints = "http://a:2379" ∷ [];
  events = running;
  txn_engine = true;
  cleanup_leader = true;
  deleted = [];
}

abbrev endpoints : List String
endpoints = "http://b:2379" ∷ []

abbrev not_saved : Answers
not_saved = record alone { saves = false }

joined : (join alone false "new" endpoints node).1 ≡ no_error
unfolding join update_cluster_id reconfigure_store
joined = refl

join_broken : (join not_saved false "new" endpoints node).1 ≡ store_reconfig_failed
unfolding join update_cluster_id reconfigure_store restart_default_store
join_broken = refl

join-IsMember_example :
    (alone.peers ≡ some 1)
    × (alone.volumes ≡ some 0)
    × IsMember "new" endpoints (join alone false "new" endpoints node).0
join-IsMember_example = join-IsMember alone false "new" endpoints node joined

join_fails_example :
    let n' = (join not_saved false "new" endpoints node).0 in
    (n'.txn_engine ≡ false)
    × (n'.cleanup_leader ≡ false)
    × (n'.events ≢ running)
    × (not_saved.peers_left ≢ none → not_saved.inits_again ≡ true → n'.store ≡ some "new")
    × (not_saved.restores_id ≡ true → n'.cluster_id ≡ "old")
join_fails_example = join_fails not_saved false "new" endpoints node join_broken

abbrev in_cluster : Answers
in_cluster = record alone { peers = some 2 }

abbrev add_env : AddEnv
add_env = record {
  default_port = port;
  parses = true;
  kvs = some (some peer_a ∷ []);
  is_reachable = λ a. true;
  dials = λ a. true;
  join = λ a. some ("id-b", no_error);
  get_peer = λ id. some peer_b;
  puts = true;
}

abbrev add_req : PeerAddReq
add_req = record { addresses = codes "10.0.0.2" ∷ []; zone = codes "z1"; metadata = [] }

peer_asked : (add_peer add_env add_req).asked ≡ some (codes "10.0.0.2:24008")
unfolding add_peer map_size has_restricted_key get_peer_by_addrs get_peers selected get_filter_type
    first_at first_at_any is_peer_address_same form_remote_peer_address split_host_port has_code
    ask_to_join order_addresses search_strings swap_first bytes_leb overlay insert
peer_asked = refl

abbrev edit_req : PeerEditReq
edit_req = record { zone = codes "z2"; metadata = (codes "rack", codes "r2") ∷ [] }

abbrev edited_b : Peer
edited_b = record peer_b {
  metadata = (codes "rack", codes "r2") ∷ (codes "_zone", codes "z2") ∷ [];
}

peer_edited : txn_peer_edit (some peer_b) true edit_req ≡ ok edited_b
unfolding txn_peer_edit map_size overlay insert
peer_edited = refl

abbrev volume : Volinfo
volume = record {
  name = "v";
  state = started;
  options = [];
  subvols = (record { id = "1"; peer_id = "id-a"; path = "/b1" } ∷ []) ∷ [];
}

abbrev delete_env : DeleteEnv
delete_env = record {
  default_port = port;
  is_uuid = λ id. true;
  get_peer = λ id. ok peer_b;
  my_uuid = "id-a";
  is_node_alive = λ id. true;
  volumes = some (volume ∷ []);
  dials = λ a. true;
  leave = λ a. some no_error;
  deletes = true;
}

peer_left : (delete_peer delete_env "id-b").left ≡ true
unfolding delete_peer bricks_exist any_on bricks_of add_bricks form_remote_peer_address
    split_host_port has_code
peer_left = refl

delete_peer-IsRemovable_example : IsRemovable delete_env "id-b"
delete_peer-IsRemovable_example = delete_peer-IsRemovable delete_env "id-b" peer_left
