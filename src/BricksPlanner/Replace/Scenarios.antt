-- ===== src/BricksPlanner/Replace/Scenarios.antt =====
-- A brick whose thin pool just fits on a device: tests.
use glusterd.Prelude.{◌*◌, ◌<◌, ◌≡◌, refl, false, [], ◌∷◌, arith}
use glusterd.BricksPlanner.Request.{mib, lvm, get_pool_metadata_size}
use glusterd.BricksPlanner.Devices.{Vg}
use glusterd.BricksPlanner.Fixtures.{floats}
use glusterd.BricksPlanner.Replace.{Replaced, brick_on, get_new_brick}

abbrev device : Vg
device = record {
  name = "vg";
  device = "/dev/vdb";
  peer_id = "peer-a";
  zone = "zone-1";
  state = "enabled";
  available_size = 100 * mib;
  used = false;
}

abbrev old_brick : Replaced
old_brick = record {
  vol_name = "vol";
  provisioner_type = lvm;
  path = "/bricks/vol/brick";
  capacity = 100 * mib;
  subvol_index = 0;
  brick_index = 1;
}

-- The pool and its metadata need more than the device has.
pool_without_metadata :
    (100 * mib < (get_new_brick floats old_brick (device ∷ [])).total_size)
    × ((get_new_brick floats old_brick (device ∷ [])).vg_name ≡ "vg")
unfolding get_new_brick brick_on get_pool_metadata_size
pool_without_metadata = (omega arith, refl)
