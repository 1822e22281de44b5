-- ===== src/Pmap/Scenarios.antt =====
-- Two bricks on this node: tests, and the theorems at concrete inputs.
use glusterd.Prelude.{◌≡◌, refl, false, some, List, [], ◌∷◌, ok, nat_eq, string_eq, option_nat_eq}
use glusterd.GoMap.{lookup, insert, delete, has}
use glusterd.Pmap.{init, brick_set, search_by_brick_path, num_of_bricks_on_port, delete_bricks}
use glusterd.Pmap.Rpc.{
  Event, signed_in, signed_out, extended, disconnected, firewalld_reloaded, handle, run, failure,
  port_by_brick, zero_reply,
}
use glusterd.Pmap.Index.{IsIndexed, init-IsIndexed, run-IsIndexed}
use glusterd.Pmap.Firewall.{IsMirrored, init-IsMirrored, run-IsMirrored}

abbrev life : List Event
life =
    signed_in (some 7) (record { brick = "/b1"; port = 49152; pid = 100 })
    ∷ extended "/b2" 49152 100
    ∷ firewalld_reloaded
    ∷ signed_out (some 7) (record { brick = "/b1"; port = 49152; rdma_port = 0 })
    ∷ disconnected false (some 7)
    ∷ []

abbrev two_bricks : List Event
two_bricks =
    signed_in (some 7) (record { brick = "/b1"; port = 49152; pid = 100 })
    ∷ extended "/b2" 49152 100
    ∷ []

two_bricks_answers :
    (search_by_brick_path (run init two_bricks) "/b2" ≡ ok 49152)
    × (num_of_bricks_on_port (run init two_bricks) 49152 ≡ ok 2)
unfolding run handle lookup insert has brick_set search_by_brick_path num_of_bricks_on_port
two_bricks_answers = (refl, refl)

unknown_brick : (port_by_brick (run init life) "/b2" zero_reply).op_ret ≡ failure
unfolding run handle lookup insert delete has brick_set delete_bricks port_by_brick
unknown_brick = refl

run-IsIndexed_example : IsIndexed (run init life)
run-IsIndexed_example = run-IsIndexed init life init-IsIndexed

run-IsMirrored_example : IsMirrored (run init life)
run-IsMirrored_example = run-IsMirrored life init (tt, (tt, (tt, (tt, (refl, tt))))) init-IsMirrored
