-- ===== src/Pmap/Rpc.antt =====
-- glusterd2/pmap/rpc_prog.go: the procedures of the portmap program, and the events that reach the
-- registry in the order in which they take its lock.
use glusterd.Prelude.{ℕ, String, Bool, List, [], ◌∷◌, ok, err}
use glusterd.Pmap.{
  Conn, Registry, update, search_by_brick_path, remove, remove_port_by_conn, reconcile_firewalld,
  registry_extend,
}

-- OpRet: 0, or -1.
pub data OpRet : Type 0 where
  success failure : OpRet

pub record PortByBrickRsp : Type 0 where
  pub op_ret : OpRet
  pub port : ℕ

-- The reply that the codec hands in is zero.
abbrev pub zero_reply : PortByBrickRsp
zero_reply = record { op_ret = success; port = 0 }

unfoldable pub port_by_brick : Registry → String → PortByBrickRsp → PortByBrickRsp
unfolding search_by_brick_path
port_by_brick r brick reply = elim (search_by_brick_path r brick) [
  | err _ ↦ record reply { op_ret = failure }
  | ok port ↦ record reply { port = port }
]

pub record SignInReq : Type 0 where
  pub brick : String
  pub port : ℕ
  pub pid : ℕ

-- The error of `Update` is dropped: the brick is answered with success.
pub sign_in : Registry → Conn → SignInReq → Registry
unfolding update
sign_in r conn args = (update r args.port args.brick conn args.pid).0

pub record SignOutReq : Type 0 where
  pub brick : String
  pub port : ℕ
  pub rdma_port : ℕ

pub sign_out : Registry → Conn → SignOutReq → Registry
unfolding remove
sign_out r conn args = (remove r args.port args.brick conn).0

-- What can happen to the registry. A sign-in or a sign-out carries the connection that it came on.
pub data Event : Type 0 where
  signed_in : Conn → SignInReq → Event
  signed_out : Conn → SignOutReq → Event
  extended : String → ℕ → ℕ → Event
  disconnected : Bool → Conn → Event
  firewalld_reloaded : Event

unfoldable pub handle : Registry → Event → Registry
unfolding sign_in sign_out registry_extend remove_port_by_conn reconcile_firewalld
handle r (signed_in conn args) = sign_in r conn args
handle r (signed_out conn args) = sign_out r conn args
handle r (extended brick port pid) = registry_extend r brick port pid
handle r (disconnected is_terminating conn) = (remove_port_by_conn is_terminating r conn).0
handle r firewalld_reloaded = reconcile_firewalld r

unfoldable pub run : Registry → List Event → Registry
run r [] = r
run r (e ∷ es) = run (handle r e) es
