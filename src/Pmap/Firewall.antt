-- ===== src/Pmap/Firewall.antt =====
-- What firewalld has been asked to keep open, against the ports of the registry.
use glusterd.Prelude.{
  ℕ, String, ◌≡◌, refl, Bool, true, false, Option-cases, inl, inr, none, some, List, [], ◌∷◌, arith,
  ◌==◌, nat_eq, string_eq, option_nat_eq, All, if◌then◌else◌,
}
use glusterd.GoMap.{GoMap, lookup, insert, delete, has, lookup-insert, has-insert, has-delete}
use glusterd.Pmap.{
  Conn, BrickSet, FirewallCall, add_port, remove_port, reloaded, Registry, init, brick_set, update,
  remove_port_by_conn, remove, add_ports, reconcile_firewalld,
}
use glusterd.Pmap.Rpc.{
  Event, signed_in, signed_out, extended, disconnected, firewalld_reloaded, handle, run,
}

-- Whether the port is open after the calls: a reload of firewalld forgets what was asked before it.
pub is_open : List FirewallCall → ℕ → Bool
is_open [] q = false
is_open (add_port p ∷ calls) q = if p == q then true else is_open calls q
is_open (remove_port p ∷ calls) q = if p == q then false else is_open calls q
is_open (reloaded ∷ calls) q = false

-- The open ports are those that have a list of bricks.
pub record IsMirrored (r : Registry) : Type 0 where
  pub notified : r.notify_firewalld ≡ true
  pub mirrored : (q : ℕ) → is_open r.calls q ≡ has q r.ports

-- While the daemon terminates it leaves the ports of its bricks open.
abbrev pub IsRunning : Event → Type 0
IsRunning (disconnected t conn) = t ≡ false
IsRunning _ = Unit

pub init-IsMirrored : IsMirrored init
unfolding is_open has lookup
init-IsMirrored = record { notified = refl; mirrored = λ q. refl }

is_open-add_ports :
    (ports : GoMap ℕ BrickSet) (calls : List FirewallCall) (q : ℕ)
    → is_open (add_ports ports calls) q ≡ (if has q ports then true else is_open calls q)
unfolding add_ports is_open has lookup
is_open-add_ports [] calls q = refl
is_open-add_ports ((p, s) ∷ ports) calls q =
    ground (arith, is_open-add_ports ports (add_port p ∷ calls) q)

module _ (r : Registry) (h : IsMirrored r) where
  update-IsMirrored :
      (port : ℕ) (brick : String) (conn : Conn) (pid : ℕ)
      → IsMirrored (update r port brick conn pid).0
  unfolding update is_open
  update-IsMirrored port brick conn pid = record {
    notified = ground (arith, h.notified);
    mirrored = λ q. ground (
      arith,
      h.notified,
      h.mirrored q,
      has-insert port q (insert brick pid (brick_set port r.ports)) r.ports,
    );
  }

  remove-IsMirrored :
      (port : ℕ) (brick : String) (conn : Conn) → IsMirrored (remove r port brick conn).0
  unfolding remove has brick_set
  remove-IsMirrored port brick conn = record {
    notified = ground (arith, h.notified);
    mirrored = λ q.
        ground (
          arith,
          h.mirrored q,
          lookup-insert port q (delete brick (brick_set port r.ports)) r.ports,
        );
  }

  remove_port_by_conn-IsMirrored : (conn : Conn) → IsMirrored (remove_port_by_conn false r conn).0
  unfolding remove_port_by_conn is_open
  remove_port_by_conn-IsMirrored none = h
  remove_port_by_conn-IsMirrored (some c) = elim (Option-cases (lookup (some c) r.conns)) [
    | inl unknown ↦ rw (unknown, remove_port_by_conn) h
    | inr (port, found) ↦
        rw (found, remove_port_by_conn)
          (record {
            notified = h.notified;
            mirrored = λ q. ground (arith, h.notified, h.mirrored q, has-delete port q r.ports);
          })
  ]

  reconcile_firewalld-IsMirrored : IsMirrored (reconcile_firewalld r)
  unfolding reconcile_firewalld is_open
  reconcile_firewalld-IsMirrored = record {
    notified = ground (arith, h.notified);
    mirrored = λ q. ground (arith, h.notified, is_open-add_ports r.ports (reloaded ∷ r.calls) q);
  }

handle-IsMirrored :
    (r : Registry) (e : Event) → IsRunning e → IsMirrored r → IsMirrored (handle r e)
unfolding handle
handle-IsMirrored r (signed_in conn a) _ h = update-IsMirrored r h a.port a.brick conn a.pid
handle-IsMirrored r (signed_out conn a) _ h = remove-IsMirrored r h a.port a.brick conn
handle-IsMirrored r (extended brick port pid) _ h = update-IsMirrored r h port brick none pid
handle-IsMirrored r (disconnected t conn) running h =
    rw running (remove_port_by_conn-IsMirrored r h conn)
handle-IsMirrored r firewalld_reloaded _ h = reconcile_firewalld-IsMirrored r h

-- Until the daemon terminates, and through every reload of firewalld, the ports that firewalld was
-- asked to keep open are exactly those for which the registry has a list of bricks.
pub run-IsMirrored :
    (es : List Event) (r : Registry) → All IsRunning es → IsMirrored r → IsMirrored (run r es)
unfolding run
run-IsMirrored [] r _ h = h
run-IsMirrored (e ∷ es) r running h =
    run-IsMirrored es (handle r e) running.1 (handle-IsMirrored r e running.0 h)
