-- ===== src/BricksPlanner/Devices.antt =====
-- glusterd2/bricksplanner/utils.go: the devices that bricks can be placed on. `Cluster` is what
-- the peer and device stores answer: the peers, which of them are alive, and their devices.
pub mod Order
pub mod Available
use Prim.Native.String.{[] as nothing, ◌∷◌ as ◌◂◌}
use Prim.Native.String.{◌++◌}
use Prim.Native.Char.{code}
use glusterd.Prelude.{
  ℕ, String, Bool, true, false, not, ◌&&◌, ◌||◌, Option, none, some, List, [], ◌∷◌, ltb, leb,
  nat_beq, if◌then◌else◌, Result, ok, err, ◌>>=◌, ◌==◌, contains, string_eq,
}
use mathlib.Core.List
use glusterd.Text.{is_space}
use glusterd.GoMap.{GoMap, lookup}
use glusterd.BricksPlanner.Request.{
  ProvisionerType, lvm, loop, BrickReq, VolCreateReq, PlanError, devices_failed,
}

-- `api.Info` of plugins/device/api, as far as it is used here.
pub record Device : Type 0 where
  pub device : String
  pub provisioner_type : ProvisionerType
  pub state : String
  pub available_size : ℕ
  pub used : Bool

pub record Peer : Type 0 where
  pub id : String
  pub metadata : GoMap String String

pub record Cluster : Type 0 where
  pub get_peers : Result PlanError (List Peer)
  pub is_node_alive : String → Bool
  pub get_devices : String → Result PlanError (List Device)

pub record Vg : Type 0 where
  pub name : String
  pub device : String
  pub peer_id : String
  pub zone : String
  pub state : String
  pub available_size : ℕ
  pub used : Bool

-- `strings.Replace(s, "/", "-", -1)`
slashes_to_dashes : String → String
slashes_to_dashes nothing = ""
slashes_to_dashes (c ◂ s) =
    let rest = slashes_to_dashes s in if nat_beq (code c) 47 then "-" ++ rest else c ◂ rest

unfoldable pub vg_name : Device → String
unfolding slashes_to_dashes
vg_name d = "gluster" ++ slashes_to_dashes d.device

-- `strings.TrimSpace(s) == ""`
is_blank : String → Bool
is_blank nothing = true
is_blank (c ◂ s) = let rest = is_blank s in is_space (code c) && rest

unfoldable pub peer_zone : Peer → String
unfolding is_blank
peer_zone p = elim (lookup "_zone" p.metadata) [
  | none ↦ p.id
  | some zone ↦ if is_blank zone then p.id else zone
]

abbrev is_empty : List String → Bool
is_empty [] = true
is_empty (x ∷ xs) = false

-- The tests on a peer that skip it, in their order.
unfoldable pub is_eligible : Cluster → VolCreateReq → Peer → Bool
is_eligible c req p =
    c.is_node_alive p.id
    && (is_empty req.limit_peers || contains p.id req.limit_peers)
    && (is_empty req.limit_zones || contains (peer_zone p) req.limit_zones)
    && not (contains p.id req.exclude_peers)
    && not (contains (peer_zone p) req.exclude_zones)

unfoldable pub same_provisioner : ProvisionerType → ProvisionerType → Bool
same_provisioner lvm lvm = true
same_provisioner loop loop = true
same_provisioner _ _ = false

abbrev pub to_vg : Peer → Device → Vg
to_vg p d = record {
  name = vg_name d;
  device = d.device;
  peer_id = p.id;
  zone = peer_zone p;
  state = d.state;
  available_size = d.available_size;
  used = d.used;
}

-- The loop over the devices of a peer, with `vgs` to follow.
unfoldable pub add_devices : VolCreateReq → Peer → List Device → List Vg → List Vg
add_devices req p [] vgs = vgs
add_devices req p (d ∷ ds) vgs =
    let rest = add_devices req p ds vgs in
    if (d.state == "disabled") || not (same_provisioner d.provisioner_type req.provisioner_type)
    then rest
    else to_vg p d ∷ rest

-- The loop over the peers.
unfoldable pub collect_vgs : Cluster → VolCreateReq → List Peer → Result PlanError (List Vg)
collect_vgs c req [] = ok []
collect_vgs c req (p ∷ ps) =
    let rest = collect_vgs c req ps in
    if is_eligible c req p
    then (c.get_devices p.id >>= λ ds. rest >>= λ vgs. ok (add_devices req p ds vgs))
    else rest

-- `sort.Slice` by free size, the largest first. It leaves open how equal sizes are ordered: here
-- they stay in order.
unfoldable pub insert_vg : Vg → List Vg → List Vg
insert_vg v [] = v ∷ []
insert_vg v (w ∷ ws) =
    let rest = insert_vg v ws in
    if leb w.available_size v.available_size then v ∷ w ∷ ws else w ∷ rest

unfoldable pub sort_vgs : List Vg → List Vg
sort_vgs [] = []
sort_vgs (v ∷ vs) = insert_vg v (sort_vgs vs)

unfoldable pub get_available_vgs : Cluster → VolCreateReq → Result PlanError (List Vg)
get_available_vgs c req =
    c.get_peers >>= λ peers. collect_vgs c req peers >>= λ vgs. ok (sort_vgs vgs)
