-- ===== src/BricksPlanner/Replace.antt =====
-- glusterd2/bricksplanner/utils.go, `GetNewBrick`: the brick that takes the place of another one, on
-- the first device that has room for its thin pool. The factor of `reserve` is that of the volume.
mod Scenarios
use mathlib.Core.List.{Memᴰ}
use Prim.Native.String.{◌++◌}
use glusterd.Prelude.{
  ℕ, ◌+◌, ◌≤◌, ◌<◌, ◌≡◌, ◌⊎◌, inl, inr, refl, String, Bool, true, false, List, [], ◌∷◌, leb,
  if◌then◌else◌, All, Bool-cases, arith,
}
use glusterd.BricksPlanner.Request.{
  uint64, normalize_size, Floats, get_pool_metadata_size, ProvisionerType, BrickReq, itoa,
}
use glusterd.BricksPlanner.Devices.{Vg}
use glusterd.BricksPlanner.Allocate.{device_path}

-- What is known of the brick that is replaced: its volume, its path and capacity, and its place.
pub record Replaced : Type 0 where
  pub vol_name : String
  pub provisioner_type : ProvisionerType
  pub path : String
  pub capacity : ℕ
  pub subvol_index : ℕ
  pub brick_index : ℕ

-- The zero value of a request.
abbrev pub no_brick : BrickReq
no_brick = record {
  brick_type = "";
  peer_id = "";
  path = "";
  tp_metadata_size = 0;
  tp_size = 0;
  total_size = 0;
  vg_name = "";
  root_device = "";
  tp_name = "";
  lv_name = "";
  size = 0;
  brick_dir_suffix = "";
  device_path = "";
  mnt_opts = "";
  fs_type = "";
}

abbrev pub pool_size : Floats → Replaced → ℕ
pool_size fl old = normalize_size (fl.reserve old.capacity)

abbrev place : Replaced → String
place old = old.vol_name ++ "_s" ++ itoa old.subvol_index ++ "_b" ++ itoa old.brick_index

unfoldable pub brick_on : Floats → Replaced → Vg → BrickReq
brick_on fl old vg =
    let size = pool_size fl old in
    let metadata = get_pool_metadata_size fl size in
    let b = record no_brick {
      brick_type = "brick";
      path = old.path;
      brick_dir_suffix = "/brick";
      tp_name = "tp_" ++ place old;
      lv_name = "brick_" ++ place old;
      size = old.capacity;
      tp_size = size;
      tp_metadata_size = metadata;
      fs_type = "xfs";
      mnt_opts = "rw,inode64,noatime,nouuid";
      peer_id = vg.peer_id;
      vg_name = vg.name;
      root_device = vg.device;
      total_size = uint64 (size + metadata);
    } in
    record b { device_path = device_path old.provisioner_type vg b }

unfoldable pub get_new_brick : Floats → Replaced → List Vg → BrickReq
get_new_brick fl old [] = no_brick
get_new_brick fl old (vg ∷ vgs) =
    let rest = get_new_brick fl old vgs in
    if leb (pool_size fl old) vg.available_size then brick_on fl old vg else rest

-- The new brick is on a device of the list that has room for its thin pool, or no device has, and
-- the request is empty.
get_new_brick_lem :
    (fl : Floats) (old : Replaced) (vgs : List Vg)
    → ((vg : Vg) × Memᴰ vg vgs
        × (pool_size fl old ≤ vg.available_size)
        × (get_new_brick fl old vgs ≡ brick_on fl old vg))
      ⊎ (All (λ vg. vg.available_size < pool_size fl old) vgs
          × (get_new_brick fl old vgs ≡ no_brick))
unfolding get_new_brick
get_new_brick_lem fl old [] = inr (tt, refl)
get_new_brick_lem fl old (vg ∷ vgs) = elim (Bool-cases (leb (pool_size fl old) vg.available_size)) [
  | inl room ↦ inl (vg, Memᴰ.head refl, ground (arith, room), rw room refl)
  | inr small ↦ elim (get_new_brick_lem fl old vgs) [
    | inl (w, m, room, e) ↦ inl (w, Memᴰ.tail m, room, rw small e)
    | inr (none_fits, e) ↦ inr ((ground (arith, small), none_fits), rw small e)
  ]
]
