-- ===== src/BricksPlanner/Fixtures.antt =====
-- Two peers with a device each, and requests of volumes: the data of the tests.
use glusterd.Prelude.{ℕ, ◌*◌, ◌/◌, String, true, false, List, [], ◌∷◌, ok, nat_eq, string_eq}
use glusterd.BricksPlanner.Request.{gib, mib, Floats, distribute, lvm, BrickReq, VolCreateReq}
use glusterd.BricksPlanner.Devices.{Device, Peer, Cluster, Vg}

abbrev pub floats : Floats
floats = record {
  half_percent = λ n. n / 200;
  reserve = λ n. n;
  four_times_ratio = λ a b. 4 * a / b;
}

abbrev pub replica_two : VolCreateReq
replica_two = record {
  name = "vol";
  subvols = [];
  size = gib;
  max_brick_size = 0;
  distribute_count = 0;
  replica_count = 2;
  arbiter_count = 0;
  average_file_size = 0;
  disperse_count = 0;
  disperse_redundancy_count = 0;
  disperse_data_count = 0;
  limit_peers = [];
  limit_zones = [];
  exclude_peers = [];
  exclude_zones = [];
  subvol_zones_overlap = true;
  subvol_type = distribute;
  provisioner_type = lvm;
}

abbrev pub disperse_six : VolCreateReq
disperse_six = record replica_two { replica_count = 0; disperse_count = 6 }

abbrev pub limited : VolCreateReq
limited = record replica_two { max_brick_size = 300 * mib }

abbrev pub disk : String → ℕ → Device
disk name size = record {
  device = name;
  provisioner_type = lvm;
  state = "enabled";
  available_size = size;
  used = false;
}

abbrev pub peer_a : Peer
peer_a = record { id = "a"; metadata = ("_zone", " ") ∷ [] }

abbrev pub peer_b : Peer
peer_b = record { id = "b"; metadata = ("_zone", "z") ∷ [] }

abbrev pub cluster : Cluster
cluster = record {
  get_peers = ok (peer_a ∷ peer_b ∷ []);
  is_node_alive = λ id. true;
  get_devices = λ id. ok (disk "/dev/sdb" (2 * gib) ∷ []);
}

abbrev pub shape : BrickReq → ℕ × String × String
shape b = (b.size, b.vg_name, b.device_path)

abbrev pub vg_a : Vg
vg_a = record {
  name = "gluster-dev-sdb";
  device = "/dev/sdb";
  peer_id = "a";
  zone = "a";
  state = "enabled";
  available_size = 2 * gib;
  used = false;
}

abbrev pub vgs : List Vg
vgs =
    vg_a
    ∷ record {
      name = "gluster-dev-sdb";
      device = "/dev/sdb";
      peer_id = "b";
      zone = "z";
      state = "enabled";
      available_size = 2 * gib;
      used = false;
    }
    ∷ []
