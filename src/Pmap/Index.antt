-- ===== src/Pmap/Index.antt =====
-- What the three maps of the registry have to do with one another.
use glusterd.Prelude.{
  ℕ, String, eq_iff, Option-cases, inl, inr, ◌≡◌, refl, Bool, true, false, none, some, List, [],
  ◌∷◌, arith, ◌==◌, nat_eq, string_eq, option_nat_eq, if◌then◌else◌,
}
use glusterd.GoMap.{
  GoMap, lookup, insert, delete, has, lookup-insert, lookup-delete, has-insert, has-delete,
  map_laws,
}
use glusterd.Pmap.{
  Conn, BrickSet, Registry, init, is_invalid_port, brick_set, update, delete_bricks,
  remove_port_by_conn, remove,
}
use glusterd.Pmap.Rpc.{
  Event, signed_in, signed_out, extended, disconnected, firewalld_reloaded, handle, run,
}

-- Every brick that a lookup finds is on the list of the port that it gives, and every port with a
-- list is one that bricks may use.
pub record IsIndexed (r : Registry) : Type 0 where
  pub indexed :
      (b : String) (p : ℕ) → lookup b r.bricks ≡ some p → has b (brick_set p r.ports) ≡ true
  pub in_range : (p : ℕ) → has p r.ports ≡ true → is_invalid_port p ≡ false

pub brick_set-insert :
    (p q : ℕ) (s : BrickSet) (m : GoMap ℕ BrickSet)
    → brick_set q (insert p s m) ≡ (if p == q then s else brick_set q m)
unfolding brick_set
brick_set-insert p q s m = ground (arith, lookup-insert p q s m)

pub brick_set-delete :
    (p q : ℕ) (m : GoMap ℕ BrickSet)
    → brick_set q (delete p m) ≡ (if p == q then [] else brick_set q m)
unfolding brick_set
brick_set-delete p q m = ground (arith, lookup-delete p q m)

pub lookup-delete_bricks :
    (b : String) (s : BrickSet) (m : GoMap String ℕ)
    → lookup b (delete_bricks s m) ≡ (if has b s then none else lookup b m)
unfolding delete_bricks has lookup
lookup-delete_bricks b [] m = refl
lookup-delete_bricks b ((c, pid) ∷ s) m =
    ground (arith, lookup-delete_bricks b s (delete c m), lookup-delete c b m)

ruleset index_laws = (map_laws, brick_set-insert, brick_set-delete, lookup-delete_bricks)

pub init-IsIndexed : IsIndexed init
unfolding lookup has
init-IsIndexed = record { indexed = λ b p h. cc; in_range = λ p h. cc }

update-IsIndexed :
    (r : Registry) (port : ℕ) (brick : String) (conn : Conn) (pid : ℕ)
    → IsIndexed r
    → IsIndexed (update r port brick conn pid).0
unfolding update
update-IsIndexed r port brick conn pid h = record {
  indexed = λ b p e. ground (
    arith,
    h.indexed b p,
    lookup-insert brick b port r.bricks,
    brick_set-insert port p (insert brick pid (brick_set port r.ports)) r.ports,
    has-insert brick b pid (brick_set port r.ports),
    eq_iff brick b,
  );
  in_range = λ p e.
      ground (
        arith,
        h.in_range p,
        has-insert port p (insert brick pid (brick_set port r.ports)) r.ports,
      );
}

remove-IsIndexed :
    (r : Registry) (port : ℕ) (brick : String) (conn : Conn)
    → IsIndexed r
    → IsIndexed (remove r port brick conn).0
unfolding remove brick_set
remove-IsIndexed r port brick conn h = record {
  indexed = λ b p e. ground (
    arith,
    h.indexed b p,
    lookup-delete brick b r.bricks,
    lookup-insert port p (delete brick (brick_set port r.ports)) r.ports,
    has-delete brick b (brick_set port r.ports),
    eq_iff brick b,
  );
  in_range = λ p e.
      ground
        (arith, h.in_range p, has-insert port p (delete brick (brick_set port r.ports)) r.ports);
}

remove_port_by_conn-IsIndexed :
    (t : Bool) (r : Registry) (conn : Conn)
    → IsIndexed r
    → IsIndexed (remove_port_by_conn t r conn).0
unfolding remove_port_by_conn
remove_port_by_conn-IsIndexed t r none h = h
remove_port_by_conn-IsIndexed t r (some c) h = elim (Option-cases (lookup (some c) r.conns)) [
  | inl unknown ↦ rw (unknown, remove_port_by_conn) h
  | inr (port, found) ↦
      rw (found, remove_port_by_conn)
        (record {
          indexed = λ b p e. ground (
            arith,
            h.indexed b p,
            lookup-delete_bricks b (brick_set port r.ports) r.bricks,
            brick_set-delete port p r.ports,
          );
          in_range = λ p e. ground (arith, h.in_range p, has-delete port p r.ports);
        })
]

handle-IsIndexed : (r : Registry) (e : Event) → IsIndexed r → IsIndexed (handle r e)
unfolding handle
handle-IsIndexed r (signed_in conn a) h = update-IsIndexed r a.port a.brick conn a.pid h
handle-IsIndexed r (signed_out conn a) h = remove-IsIndexed r a.port a.brick conn h
handle-IsIndexed r (extended brick port pid) h = update-IsIndexed r port brick none pid h
handle-IsIndexed r (disconnected t conn) h = remove_port_by_conn-IsIndexed t r conn h
handle-IsIndexed r firewalld_reloaded h = record {
  indexed = λ b p e. ground (arith, h.indexed b p);
  in_range = λ p e. ground (arith, h.in_range p);
}

-- Whatever events reach the registry, every brick that a lookup finds stays on the list of the
-- port that the lookup gives, and every port with a list lies within the range that is allowed.
pub run-IsIndexed : (r : Registry) (es : List Event) → IsIndexed r → IsIndexed (run r es)
unfolding run
run-IsIndexed r [] h = h
run-IsIndexed r (e ∷ es) h = run-IsIndexed (handle r e) es (handle-IsIndexed r e h)
