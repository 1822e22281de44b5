-- ===== src/BricksPlanner/Scenarios.antt =====
-- Two peers with a device each: tests, and the theorems at concrete inputs.
use glusterd.Prelude.{
  ℕ, ◌+◌, ◌^◌, ◌*◌, ◌≤◌, ◌<◌, String, ◌≡◌, ◌⊎◌, refl, List, [], ◌∷◌, arith, ok, err, map, nat_eq,
  string_eq,
}
use glusterd.GoMap.{lookup}
use glusterd.BricksPlanner.Request.{
  gib, distribute, disperse, BrickReq, SubvolReq, VolCreateReq, itoa, itoa_from,
  get_pool_metadata_size,
}
use glusterd.BricksPlanner.Redundancy.{shift_rounds, get_redundancy, get_redundancy_lem}
use glusterd.BricksPlanner.Layout.{
  layout_bricks, layout_subvols, subvol_planner, handle_replica_subvol_req,
  handle_disperse_subvol_req, check_max_brick_size, decide_distribute_count, new_brick,
  complete_request, complete_counts, arbiter_brick_size, get_bricks_layout, distribute_planner,
  replica_planner,
}
use glusterd.BricksPlanner.Devices.{
  Vg, vg_name, peer_zone, is_eligible, same_provisioner, add_devices, collect_vgs, insert_vg,
  sort_vgs, get_available_vgs,
}
use glusterd.BricksPlanner.Allocate.{
  choose, device_path, assign, pass, allocate_bricks, allocate_subvols, plan_bricks,
}
use glusterd.BricksPlanner.Allocate.Placed.{PlacedAll}
use glusterd.BricksPlanner.Allocate.Plan.{plan_bricks_lem}
use glusterd.BricksPlanner.Fixtures.{floats, replica_two, disperse_six, limited, cluster, vg_a, vgs}

-- The plan for `replica_two`.
planned : VolCreateReq
unfolding plan_bricks get_bricks_layout complete_request handle_replica_subvol_req
    handle_disperse_subvol_req check_max_brick_size decide_distribute_count layout_subvols
    layout_bricks new_brick subvol_planner replica_planner itoa itoa_from allocate_subvols
    allocate_bricks pass choose assign device_path get_available_vgs sort_vgs insert_vg collect_vgs
    add_devices is_eligible same_provisioner vg_name peer_zone lookup get_pool_metadata_size
    arbiter_brick_size
planned = elim (plan_bricks floats "/run" cluster replica_two) [ ok r ↦ r | err e ↦ replica_two ]

planned_two : plan_bricks floats "/run" cluster replica_two ≡ ok planned
unfolding planned plan_bricks get_bricks_layout complete_request handle_replica_subvol_req
    handle_disperse_subvol_req check_max_brick_size decide_distribute_count layout_subvols
    layout_bricks new_brick subvol_planner replica_planner itoa itoa_from allocate_subvols
    allocate_bricks pass choose assign device_path get_available_vgs sort_vgs insert_vg collect_vgs
    add_devices is_eligible same_provisioner vg_name peer_zone lookup get_pool_metadata_size
    arbiter_brick_size
planned_two = refl

devices_of_planned :
    map {B = List (String × String)}
      (λ sv. map {B = String × String} (λ b. (b.peer_id, b.device_path)) sv.bricks)
      planned.subvols
    ≡ (("a", "/dev/gluster-dev-sdb/brick_vol_s1_b1")
        ∷ ("b", "/dev/gluster-dev-sdb/brick_vol_s1_b2")
        ∷ [])
      ∷ []
unfolding planned plan_bricks get_bricks_layout complete_request handle_replica_subvol_req
    handle_disperse_subvol_req check_max_brick_size decide_distribute_count layout_subvols
    layout_bricks new_brick subvol_planner replica_planner itoa itoa_from allocate_subvols
    allocate_bricks pass choose assign device_path get_available_vgs sort_vgs insert_vg collect_vgs
    add_devices is_eligible same_provisioner vg_name peer_zone lookup get_pool_metadata_size
    arbiter_brick_size
devices_of_planned = refl

abbrev brick_of : String → ℕ → BrickReq
brick_of lv size = record {
  brick_type = "brick";
  peer_id = "";
  path = "";
  tp_metadata_size = 0;
  tp_size = size;
  total_size = size;
  vg_name = "";
  root_device = "";
  tp_name = "tp";
  lv_name = lv;
  size = size;
  brick_dir_suffix = "/brick";
  device_path = "";
  mnt_opts = "";
  fs_type = "xfs";
}

abbrev one_brick : SubvolReq
one_brick = record {
  subvol_type = distribute;
  bricks = brick_of "l" (2 * gib) ∷ [];
  replica_count = 1;
  arbiter_count = 0;
  disperse_count = 0;
}

-- A brick that no device has the space for is passed over, and the one after it is placed twice.
brick_left_out :
    map {B = String × String}
      (λ b. (b.lv_name, b.peer_id))
      (elim (allocate_bricks replica_two vgs []
        (brick_of "big" (3 * gib) ∷ brick_of "small" gib ∷ [])) [ ok r ↦ r.0 | err e ↦ [] ])
    ≡ ("big", "") ∷ ("small", "b") ∷ []
unfolding allocate_bricks pass choose assign device_path
brick_left_out = refl

get_redundancy_lem_example :
    (1 ≤ get_redundancy 6)
    × (2 * get_redundancy 6 < 6)
    × ((l : ℕ) × ((6 ≡ get_redundancy 6 + 2 ^ l) ⊎ ((6 ≡ 2 ^ l) × (get_redundancy 6 ≡ 1))))
get_redundancy_lem_example = get_redundancy_lem 6 (omega arith) (omega arith)

layout_one : List SubvolReq
unfolding layout_subvols layout_bricks new_brick subvol_planner distribute_planner itoa itoa_from
    get_pool_metadata_size
layout_one =
    elim (layout_subvols floats "/run" replica_two
      (subvol_planner floats replica_two distribute gib) 0 2) [ ok svs ↦ svs | err e ↦ [] ]

layout_one_ok :
    layout_subvols floats "/run" replica_two (subvol_planner floats replica_two distribute gib) 0 2
    ≡ ok layout_one
unfolding layout_one layout_subvols layout_bricks new_brick subvol_planner distribute_planner itoa
    itoa_from get_pool_metadata_size
layout_one_ok = refl

abbrev completed_six : VolCreateReq
completed_six = record disperse_six {
  subvol_type = disperse;
  disperse_redundancy_count = 2;
  disperse_data_count = 4;
}

accepted_six : handle_disperse_subvol_req disperse_six ≡ ok completed_six
unfolding handle_disperse_subvol_req complete_counts get_redundancy shift_rounds
accepted_six = refl

abbrev four_subvols : VolCreateReq
four_subvols = record limited { distribute_count = 4 }

decided_four : decide_distribute_count limited ≡ ok four_subvols
unfolding decide_distribute_count
decided_four = refl

plan_bricks_lem_example :
    (available : List Vg) × (req' : VolCreateReq) × (svs : List SubvolReq) × (get_available_vgs
        cluster replica_two
      ≡ ok available)
    × (get_bricks_layout floats "/run" replica_two ≡ ok (req', svs))
    × PlacedAll req' available [] svs planned.subvols
plan_bricks_lem_example = plan_bricks_lem floats "/run" cluster replica_two planned refl planned_two

placed_once :
    allocate_bricks replica_two vgs [] one_brick.bricks
    ≡ ok (assign replica_two vg_a (brick_of "l" (2 * gib)) ∷ [], "a" ∷ [])
unfolding allocate_bricks pass choose
placed_once = refl
