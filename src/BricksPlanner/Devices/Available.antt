-- ===== src/BricksPlanner/Devices/Available.antt =====
-- The devices that are available: which they are.
use mathlib.Core.List.{Memᴰ}
use mathlib.Core.List.Memᴰ as MemD
use glusterd.Prelude.{◌≡◌, ◌≢◌, true, List, ok, string_eq}
use glusterd.BricksPlanner.Request.{VolCreateReq}
use glusterd.BricksPlanner.Devices.{Device, Peer, Cluster, Vg, is_eligible, to_vg}

-- Where a volume group comes from.
pub record IsOffered (c : Cluster) (req : VolCreateReq) (peers : List Peer) (v : Vg) : Type 0 where
  pub peer : Peer
  pub device : Device
  pub devices : List Device
  pub peer_in : Memᴰ peer peers
  pub eligible : is_eligible c req peer ≡ true
  pub listed : c.get_devices peer.id ≡ ok devices
  pub device_in : Memᴰ device devices
  pub enabled : device.state ≢ "disabled"
  pub provisioned : device.provisioner_type ≡ req.provisioner_type
  pub group : v ≡ to_vg peer device

-- The devices of a peer that are passed on.
abbrev IsPassed : VolCreateReq → Device → Type 0
IsPassed req d = (d.state ≢ "disabled") × (d.provisioner_type ≡ req.provisioner_type)
