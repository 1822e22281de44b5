-- ===== src/Pmap/Answers.antt =====
-- What the registry answers after a sign-in, a sign-out and a disconnection.
use glusterd.Prelude.{
  ℕ, suc, String, ◌≡◌, ◌≢◌, Bool, true, false, inl, inr, none, some, arith, ok, err, nat_eq,
  string_eq, option_nat_eq, eq_iff, length, if◌then◌else◌, Bool-cases, ◌⊎◌,
}
use glusterd.GoMap.{
  lookup, insert, delete, has, lookup-insert, lookup-delete, has-insert, length-insert,
}
use glusterd.Pmap.{
  Conn, Registry, brick_not_found, port_not_found, is_invalid_port, brick_set, update,
  search_by_brick_path, num_of_bricks_on_port, remove_port_by_conn, remove,
}
use glusterd.Pmap.Index.{IsIndexed, brick_set-insert, brick_set-delete, lookup-delete_bricks}

-- A sign-in on a port outside 1024 to 65535 changes nothing and is reported; any other one is
-- accepted, the brick is then found at its port, and every other brick where it was.
search-update :
    (r : Registry) (port pid : ℕ) (brick other : String) (conn : Conn)
    → brick ≢ ""
    → let (r', e) = update r port brick conn pid in
      ((is_invalid_port port ≡ true) × (r' ≡ r) × (e ≢ none))
      ⊎ ((is_invalid_port port ≡ false)
          × (e ≡ none)
          × (search_by_brick_path r' brick ≡ ok port)
          × (other ≢ brick → search_by_brick_path r' other ≡ search_by_brick_path r other))
unfolding update search_by_brick_path
search-update r port pid brick other conn named = elim (Bool-cases (is_invalid_port port)) [
  | inl bad ↦ inl (bad, rw bad, rw bad (λ p. cc))
  | inr good ↦ inr (
    good,
    rw good,
    ground (
      arith,
      good,
      named,
      eq_iff brick "",
      lookup-insert brick brick port r.bricks,
      eq_iff brick brick,
    ),
    λ apart. ground (arith, good, lookup-insert brick other port r.bricks, eq_iff brick other),
  )
]

-- After a sign-out on a valid port the brick is found no more, every other brick is found where it
-- was, and a port that had a list of bricks still has one, without the brick.
search-remove :
    (r : Registry) (port : ℕ) (brick other : String) (conn : Conn)
    → is_invalid_port port ≡ false
    → brick ≢ ""
    → let (r', e) = remove r port brick conn in
      (e ≡ none)
      × (search_by_brick_path r' brick ≡ err (brick_not_found brick))
      × (other ≢ brick → search_by_brick_path r' other ≡ search_by_brick_path r other)
      × (has port r'.ports ≡ has port r.ports)
      × (has brick (brick_set port r'.ports) ≡ false)
unfolding remove search_by_brick_path has brick_set
search-remove r port brick other conn good named = (
  rw good,
  ground (arith, named, eq_iff brick "", lookup-delete brick brick r.bricks, eq_iff brick brick),
  λ apart. ground (arith, lookup-delete brick other r.bricks, eq_iff brick other),
  ground (arith, lookup-insert port port (delete brick (brick_set port r.ports)) r.ports),
  ground (
    arith,
    lookup-insert port port (delete brick (brick_set port r.ports)) r.ports,
    lookup-delete brick brick (brick_set port r.ports),
    eq_iff brick brick,
  ),
)

-- The number of bricks on the port of a sign-in grows by one if the brick was not on it, and stays
-- if it was; the first brick of a port makes it one.
num_of_bricks_on_port-update :
    (r : Registry) (port pid : ℕ) (brick : String) (conn : Conn)
    → is_invalid_port port ≡ false
    → num_of_bricks_on_port (update r port brick conn pid).0 port
      ≡ ok (
          if has brick (brick_set port r.ports)
          then length (brick_set port r.ports)
          else suc (length (brick_set port r.ports)))
unfolding num_of_bricks_on_port update
num_of_bricks_on_port-update r port pid brick conn good = ground (
  arith,
  good,
  lookup-insert port port (insert brick pid (brick_set port r.ports)) r.ports,
  length-insert brick pid (brick_set port r.ports),
)

-- When the connection of a brick process goes, its port is unknown afterwards, no brick is found at
-- that port any more, and a brick that was found at another port and is not on the list of this one
-- is found as before.
disconnect_clears :
    (t : Bool) (r : Registry) (c port : ℕ) (brick : String)
    → IsIndexed r
    → is_invalid_port port ≡ false
    → lookup (some c) r.conns ≡ some port
    → let r' = (remove_port_by_conn t r (some c)).0 in
      (num_of_bricks_on_port r' port ≡ err (port_not_found port))
      × (search_by_brick_path r' brick ≢ ok port)
      × (has brick (brick_set port r.ports) ≡ false
          → search_by_brick_path r' brick ≡ search_by_brick_path r brick)
unfolding num_of_bricks_on_port search_by_brick_path remove_port_by_conn
disconnect_clears t r c port brick h good found = (
  rw (found, remove_port_by_conn) (ground (arith, good, lookup-delete port port r.ports)),
  rw (found, remove_port_by_conn)
      (λ e. ground (
        arith,
        h.indexed brick port,
        lookup-delete_bricks brick (brick_set port r.ports) r.bricks,
      )),
  rw (found, remove_port_by_conn)
      (λ apart. ground (arith, lookup-delete_bricks brick (brick_set port r.ports) r.bricks)),
)

-- The registry after two sign-ins of one brick, on two ports by two connections.
abbrev pub moved : Registry → ℕ → ℕ → ℕ → ℕ → ℕ → ℕ → String → Registry
moved r c d p q pid pid' brick = (update (update r p brick (some c) pid).0 q brick (some d) pid').0

module _ (r : Registry) (c d p q pid pid' : ℕ) (brick : String) (other_conn : c ≢ d)
    (other_port : p ≢ q) (valid : is_invalid_port p ≡ false)
    (valid' : is_invalid_port q ≡ false) where
  moved-conn : lookup (some c) (moved r c d p q pid pid' brick).conns ≡ some p
  unfolding update
  moved-conn = ground (
    arith,
    other_conn,
    valid,
    valid',
    lookup-insert (some c) (some c) p r.conns,
    lookup-insert (some d) (some c) q (insert (some c) p r.conns),
  )

  moved-sets :
      let ports = (moved r c d p q pid pid' brick).ports in
      (has brick (brick_set p ports) ≡ true) × (has brick (brick_set q ports) ≡ true)
  unfolding update
  moved-sets =
      let first = insert brick pid (brick_set p r.ports) in
      let ports₁ = insert p first r.ports in
      let second = insert brick pid' (brick_set q ports₁) in
      (
        ground (
          arith,
          other_port,
          valid,
          valid',
          brick_set-insert q p second ports₁,
          brick_set-insert p p first r.ports,
          has-insert brick brick pid (brick_set p r.ports),
          eq_iff brick brick,
        ),
        ground (
          arith,
          other_port,
          valid,
          valid',
          brick_set-insert q q second ports₁,
          has-insert brick brick pid' (brick_set q ports₁),
          eq_iff brick brick,
        ),
      )

  moved-found : lookup brick (moved r c d p q pid pid' brick).bricks ≡ some q
  unfolding update
  moved-found = ground (
    arith,
    valid,
    valid',
    lookup-insert brick brick q (insert brick p r.bricks),
    lookup-insert brick brick q r.bricks,
    eq_iff brick brick,
  )

  -- A brick that signs in on a second port by another connection, before the first connection is
  -- seen to go, is found at the second port, and is lost when the first connection goes: it stays
  -- on the list of the second port and is not found.
  moved_brick_lost :
      brick ≢ ""
      → let r₂ = moved r c d p q pid pid' brick in
        let r₃ = (remove_port_by_conn false r₂ (some c)).0 in
        (search_by_brick_path r₂ brick ≡ ok q)
        × (has brick (brick_set q r₃.ports) ≡ true)
        × (search_by_brick_path r₃ brick ≡ err (brick_not_found brick))
  unfolding search_by_brick_path remove_port_by_conn
  moved_brick_lost named =
      let r₂ = moved r c d p q pid pid' brick in
      (
        ground (arith, named, eq_iff brick "", moved-found),
        rw (moved-conn, remove_port_by_conn)
            (ground (arith, other_port, moved-sets, brick_set-delete p q r₂.ports)),
        rw (moved-conn, remove_port_by_conn)
            (ground (
              arith,
              named,
              eq_iff brick "",
              moved-sets,
              lookup-delete_bricks brick (brick_set p r₂.ports) r₂.bricks,
            )),
      )
