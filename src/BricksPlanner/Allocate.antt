-- ===== src/BricksPlanner/Allocate.antt =====
-- glusterd2/bricksplanner/planner.go, `PlanBricks`: devices for the bricks of a layout. The loops
-- over the devices are `for _, vg := range availableVgs`, whose `vg` is a copy: what they store in
-- `vg.AvailableSize` and `vg.Used` is gone with the round, and `vgs` stays as it is.
pub mod Placed
pub mod Plan
use Prim.Native.String.{◌++◌}
use glusterd.Prelude.{
  ℕ, zero, suc, ◌+◌, String, Bool, true, false, not, ◌&&◌, ◌||◌, Option, none, some, List, [], ◌∷◌,
  leb, nat_beq, if◌then◌else◌, Result, ok, err, ◌>>=◌, contains, string_eq, take, drop, length,
}
use mathlib.Core.List.{◌++◌ as ◌+++◌}
use glusterd.BricksPlanner.Request.{
  ProvisionerType, lvm, loop, BrickReq, SubvolReq, VolCreateReq, PlanError, Floats, no_devices,
  no_space,
}
use glusterd.BricksPlanner.Devices.{Cluster, Vg, get_available_vgs}
use glusterd.BricksPlanner.Layout.{get_bricks_layout}

-- The loop over the devices: `fresh` when only unused ones are wanted.
unfoldable pub choose : Bool → List Vg → List String → BrickReq → Option Vg
choose fresh [] zones b = none
choose fresh (vg ∷ vgs) zones b =
    let rest = choose fresh vgs zones b in
    if leb b.total_size vg.available_size
      && not (contains vg.zone zones)
      && (not fresh || not vg.used)
    then some vg
    else rest

unfoldable pub device_path : ProvisionerType → Vg → BrickReq → String
device_path lvm vg b = "/dev/" ++ vg.name ++ "/" ++ b.lv_name
device_path loop vg b = vg.device ++ "/" ++ b.tp_name ++ "/" ++ b.lv_name ++ ".img"

unfoldable pub assign : VolCreateReq → Vg → BrickReq → BrickReq
unfolding device_path
assign req vg b = record b {
  peer_id = vg.peer_id;
  vg_name = vg.name;
  root_device = vg.device;
  device_path = device_path req.provisioner_type vg b;
}

-- What a loop over bricks leaves: the bricks, the zones in use, and how many bricks it placed.
pub record Pass : Type 0 where
  pub bricks : List BrickReq
  pub zones : List String
  pub count : ℕ

-- A loop over the bricks: those that no device is found for are left as they are.
unfoldable pub pass : VolCreateReq → List Vg → Bool → List String → List BrickReq → Pass
pass req vgs fresh zones [] = record { bricks = []; zones = zones; count = 0 }
pass req vgs fresh zones (b ∷ bs) = elim (choose fresh vgs zones b) [
  | none ↦
      let p = pass req vgs fresh zones bs in
      record { bricks = b ∷ p.bricks; zones = p.zones; count = p.count }
  | some vg ↦
      let p = pass req vgs fresh (vg.zone ∷ zones) bs in
      record { bricks = assign req vg b ∷ p.bricks; zones = p.zones; count = suc p.count }
]

-- The second loop starts at the brick whose index is the number of bricks the first one placed.
unfoldable pub allocate_bricks :
    VolCreateReq
    → List Vg
    → List String
    → List BrickReq
    → Result PlanError (List BrickReq × List String)
allocate_bricks req vgs zones bricks =
    let first = pass req vgs true zones bricks in
    let second = pass req vgs false first.zones (drop first.count first.bricks) in
    if nat_beq (length bricks) first.count
    then ok (first.bricks, first.zones)
    else if nat_beq (length bricks) (first.count + second.count)
    then ok (take first.count first.bricks +++ second.bricks, second.zones)
    else err no_space

-- The loop over the subvolumes.
unfoldable pub allocate_subvols :
    VolCreateReq → List Vg → List String → List SubvolReq → Result PlanError (List SubvolReq)
allocate_subvols req vgs zones [] = ok []
allocate_subvols req vgs zones (sv ∷ svs) =
    allocate_bricks req vgs (if req.subvol_zones_overlap then [] else zones) sv.bricks
    >>= λ (bricks, zones').
        allocate_subvols req vgs zones' svs >>= λ svs'. ok (record sv { bricks = bricks } ∷ svs')

unfoldable pub plan_bricks :
    Floats → String → Cluster → VolCreateReq → Result PlanError VolCreateReq
plan_bricks fl root c req = get_available_vgs c req >>= λ vgs.
    if nat_beq (length vgs) 0
    then err no_devices
    else (get_bricks_layout fl root req >>= λ (req', subvols).
        allocate_subvols req' vgs [] subvols >>= λ placed. ok (record req' { subvols = placed }))
