-- ===== src/Volumes/Fixtures.antt =====
-- The volumes of the tests: a replicate one of two bricks and a disperse one of three.
use glusterd.Prelude.{String, List, [], ◌∷◌, string_eq, codes}
use glusterd.Brickmux.{started}
use glusterd.Volumes.{
  plain, Brickinfo, replicate, disperse, Subvol, replicate_vol, disperse_vol, Volinfo,
}

abbrev pub brick_at : String → Brickinfo
brick_at path = record {
  id = "id";
  peer_id = "p1";
  hostname = codes "host";
  path = path;
  brick_type = plain;
  volume_name = "v";
}

abbrev pub pair : Subvol
pair = record {
  name = "v-replicate-0";
  subvol_type = replicate;
  bricks = brick_at "/a" ∷ brick_at "/b" ∷ [];
  replica_count = 2;
  arbiter_count = 0;
  disperse_count = 0;
  redundancy_count = 0;
}

abbrev pub pair_volume : Volinfo
pair_volume = record {
  name = "v";
  vol_type = replicate_vol;
  state = started;
  dist_count = 1;
  transport = "tcp";
  options = ("write-behind", "off") ∷ [];
  metadata = [];
  subvols = pair ∷ [];
  snap_list = [];
  capacity = 0;
}

abbrev pub two_more : List Brickinfo
two_more = brick_at "/c" ∷ brick_at "/d" ∷ []

-- A disperse volume of three bricks.
abbrev pub triple : Subvol
triple = record {
  name = "d-disperse-0";
  subvol_type = disperse;
  bricks = brick_at "/a" ∷ brick_at "/b" ∷ brick_at "/c" ∷ [];
  replica_count = 1;
  arbiter_count = 0;
  disperse_count = 3;
  redundancy_count = 1;
}

abbrev pub triple_volume : Volinfo
triple_volume = record pair_volume { name = "d"; vol_type = disperse_vol; subvols = triple ∷ [] }
