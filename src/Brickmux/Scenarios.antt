-- ===== src/Brickmux/Scenarios.antt =====
-- A brick about to start beside a running brick of another volume: tests, and the theorems at
-- concrete inputs.
use mathlib.Core.List.{Memᴰ}
use glusterd.Prelude.{◌≡◌, refl, inr, some, [], ◌∷◌, ok, err, ◌==◌, string_eq}
use glusterd.GoMap.{lookup, insert}
use glusterd.Pmap.{init, update, brick_set, search_by_brick_path, num_of_bricks_on_port}
use glusterd.Brickmux.{
  Brickinfo, Volinfo, Host, created, started, no_compat, find_compatible_brick, get_local_bricks,
  bricks_of, add_bricks, any_started, is_started, scan, settle, is_compatible, same_options,
  is_sub_map, is_target, has_room, first_target, validate_bmux_target,
}
use glusterd.Brickmux.Target.{IsCandidate, IsChosen, find_compatible_brick-IsChosen}

abbrev running_brick : Brickinfo
running_brick = record { id = "1"; peer_id = "node-a"; path = "/b1" }

abbrev new_brick : Brickinfo
new_brick = record { id = "2"; peer_id = "node-a"; path = "/b2" }

abbrev remote_brick : Brickinfo
remote_brick = record { id = "3"; peer_id = "node-b"; path = "/b1" }

abbrev old_volume : Volinfo
old_volume = record {
  name = "old";
  state = started;
  options = ("afr.x", "on") ∷ [];
  subvols = (remote_brick ∷ running_brick ∷ []) ∷ [];
}

abbrev new_volume : Volinfo
new_volume = record {
  name = "new";
  state = created;
  options = ("afr.x", "on") ∷ [];
  subvols = (new_brick ∷ []) ∷ [];
}

abbrev node_a : Host
node_a = record {
  my_uuid = "node-a";
  is_running = λ b. b.path == "/b1";
  registry = (update init 49152 "/b1" (some 7) 100).0;
}

attached : find_compatible_brick node_a new_brick new_volume (old_volume ∷ []) 3 ≡ ok running_brick
unfolding find_compatible_brick get_local_bricks bricks_of add_bricks any_started is_started scan
    settle is_compatible same_options is_sub_map is_target has_room first_target
    validate_bmux_target search_by_brick_path num_of_bricks_on_port update lookup insert brick_set
attached = refl

full : find_compatible_brick node_a new_brick new_volume (old_volume ∷ []) 1 ≡ err no_compat
unfolding find_compatible_brick get_local_bricks bricks_of add_bricks any_started is_started scan
    settle is_compatible same_options is_sub_map is_target has_room first_target
    validate_bmux_target search_by_brick_path num_of_bricks_on_port update lookup insert brick_set
full = refl

find_compatible_brick-IsChosen_example :
    IsChosen node_a new_brick new_volume (old_volume ∷ []) 3 running_brick
find_compatible_brick-IsChosen_example =
    find_compatible_brick-IsChosen node_a new_brick new_volume (old_volume ∷ []) 3 running_brick
      attached

old_volume-IsCandidate : IsCandidate new_volume (old_volume ∷ []) old_volume
unfolding IsCandidate is_started same_options is_sub_map lookup
old_volume-IsCandidate = inr (Memᴰ.head refl, refl, refl)
