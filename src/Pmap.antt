-- ===== src/Pmap.antt =====
-- glusterd2/pmap: the port map of the bricks of this node (registry.go, utils.go). A method that
-- mutates the registry returns the new one. The mutex makes each of them one step.
pub mod Rpc
pub mod Index
pub mod Firewall
pub mod Answers
mod Scenarios
use glusterd.Prelude.{
  ℕ, String, Bool, true, false, not, ◌&&◌, ◌||◌, Option, none, some, List, [], ◌∷◌, map, ltb, ◌==◌,
  Result, ok, err, length, if◌then◌else◌, nat_eq, string_eq, option_nat_eq,
}
use glusterd.GoMap
use glusterd.GoMap.{GoMap, lookup, insert, delete, has}

abbrev pub port_min : ℕ
port_min = 1024

abbrev pub port_max : ℕ
port_max = 65535

-- A connection is known by its identity; `nil` is `none`.
abbrev pub Conn : Type 0
Conn = Option ℕ

-- From brick path to its PID.
abbrev pub BrickSet : Type 0
BrickSet = GoMap String ℕ

-- What the registry asks of firewalld, and the reload that firewalld announces.
pub data FirewallCall : Type 0 where
  add_port : ℕ → FirewallCall
  remove_port : ℕ → FirewallCall
  reloaded : FirewallCall

pub data PmapError : Type 0 where
  invalid_port : ℕ → PmapError
  empty_path : PmapError
  brick_not_found : String → PmapError
  port_not_found : ℕ → PmapError
  nil_conn : PmapError

-- `calls` are the requests to firewalld so far, the latest first.
pub record Registry : Type 0 where
  pub bricks : GoMap String ℕ
  pub conns : GoMap Conn ℕ
  pub ports : GoMap ℕ BrickSet
  pub notify_firewalld : Bool
  pub calls : List FirewallCall

abbrev pub init : Registry
init = record { bricks = []; conns = []; ports = []; notify_firewalld = true; calls = [] }

abbrev pub is_invalid_port : ℕ → Bool
is_invalid_port port = ltb port port_min || ltb port_max port

-- `r.Ports[port]`: a missing entry reads as a nil map, which has no brick.
unfoldable pub brick_set : ℕ → GoMap ℕ BrickSet → BrickSet
brick_set port ports = elim (lookup port ports) [ none ↦ [] | some s ↦ s ]

-- `if conn != nil { r.conns[conn] = port }`
record_conn : Conn → ℕ → GoMap Conn ℕ → GoMap Conn ℕ
record_conn none port conns = conns
record_conn (some c) port conns = insert (some c) port conns

unfoldable pub update : Registry → ℕ → String → Conn → ℕ → Registry × Option PmapError
unfolding record_conn
update r port brickpath conn pid = if is_invalid_port port then (r, some (invalid_port port)) else (
  record r {
    bricks = insert brickpath port r.bricks;
    conns = record_conn conn port r.conns;
    ports = insert port (insert brickpath pid (brick_set port r.ports)) r.ports;
    calls =
        if not (has port r.ports) && r.notify_firewalld then add_port port ∷ r.calls else r.calls;
  },
  none,
)

unfoldable pub search_by_brick_path : Registry → String → Result PmapError ℕ
search_by_brick_path r brickpath =
    if brickpath == "" then err empty_path else elim (lookup brickpath r.bricks) [
      | some port ↦ ok port
      | none ↦ err (brick_not_found brickpath)
    ]

unfoldable pub num_of_bricks_on_port : Registry → ℕ → Result PmapError ℕ
num_of_bricks_on_port r port =
    if is_invalid_port port then err (invalid_port port) else elim (lookup port r.ports) [
      | some bricks ↦ ok (length bricks)
      | none ↦ err (port_not_found port)
    ]

-- `for brick := range r.Ports[port] { delete(r.bricks, brick) }`
pub delete_bricks : BrickSet → GoMap String ℕ → GoMap String ℕ
delete_bricks [] m = m
delete_bricks ((brick, pid) ∷ s) m = delete_bricks s (delete brick m)

-- The part of `RemovePortByConn` that runs for a connection of a brick.
drop_port : Bool → Conn → ℕ → Registry → Registry
drop_port is_terminating conn port r = record r {
  conns = delete conn r.conns;
  bricks = delete_bricks (brick_set port r.ports) r.bricks;
  ports = delete port r.ports;
  calls = if r.notify_firewalld && not is_terminating then remove_port port ∷ r.calls else r.calls;
}

-- `is_terminating` is `gdctx.IsTerminating`.
pub remove_port_by_conn : Bool → Registry → Conn → Registry × Option PmapError
unfolding drop_port
remove_port_by_conn is_terminating r none = (r, some nil_conn)
remove_port_by_conn is_terminating r (some c) = elim (lookup (some c) r.conns) [
  | none ↦ (r, none)
  | some port ↦ (drop_port is_terminating (some c) port r, none)
]

-- `delete(r.Ports[port], brickpath)`: nothing, if the port has no entry.
delete_brick_on : ℕ → String → GoMap ℕ BrickSet → GoMap ℕ BrickSet
delete_brick_on port brickpath ports = elim (lookup port ports) [
  | none ↦ ports
  | some s ↦ insert port (delete brickpath s) ports
]

pub remove : Registry → ℕ → String → Conn → Registry × Option PmapError
unfolding delete_brick_on
remove r port brickpath conn = if is_invalid_port port then (r, some (invalid_port port)) else (
  record r {
    bricks = delete brickpath r.bricks;
    ports = delete_brick_on port brickpath r.ports;
    conns = insert conn port r.conns;
  },
  none,
)

add_ports : GoMap ℕ BrickSet → List FirewallCall → List FirewallCall
add_ports [] calls = calls
add_ports ((port, _) ∷ ports) calls = add_ports ports (add_port port ∷ calls)

-- One round of the loop of `reconcileFirewalld`, which `Init` starts if `notifyFirewalld` is set.
pub reconcile_firewalld : Registry → Registry
unfolding add_ports
reconcile_firewalld r =
    if r.notify_firewalld then record r { calls = add_ports r.ports (reloaded ∷ r.calls) } else r

-- RegistryExtend: a multiplexed brick has no connection of its own, and the error is dropped.
pub registry_extend : Registry → String → ℕ → ℕ → Registry
unfolding update
registry_extend r brickpath port pid = (update r port brickpath none pid).0

unfoldable pub get_bricks_on_port : Registry → ℕ → List String
get_bricks_on_port r port = map (λ e. e.0) (brick_set port r.ports)
