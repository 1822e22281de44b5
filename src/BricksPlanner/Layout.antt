-- ===== src/BricksPlanner/Layout.antt =====
-- glusterd2/bricksplanner/planner.go, `getBricksLayout` and what it calls, with the planners of
-- subvoltype_distribute.go, subvoltype_replicate.go and subvoltype_disperse.go: the shape of the
-- volume, before devices are chosen.
pub mod Shape
use Prim.Native.String.{◌++◌}
use glusterd.Prelude.{
  ℕ, zero, suc, ◌+◌, ◌-◌, ◌*◌, ◌/◌, ◌%◌, String, Bool, true, false, ◌&&◌, ◌||◌, List, [], ◌∷◌,
  Result, ok, err, ◌>>=◌, ltb, leb, nat_beq, if◌then◌else◌,
}
use glusterd.BricksPlanner.Request.{
  kib, mib, gib, uint64, normalize_size, Floats, get_pool_metadata_size, SubvolType, distribute,
  replicate_subvol, disperse, ProvisionerType, lvm, loop, BrickReq, SubvolReq, VolCreateReq,
  PlanError, invalid_replica_count, invalid_arbiter_count, redundancy_required, invalid_redundancy,
  max_brick_size_too_small, max_brick_size_too_large, brick_too_small, divide_by_zero, itoa,
}
use glusterd.BricksPlanner.Redundancy.{get_redundancy}

abbrev pub min_brick_size : ℕ
min_brick_size = 20 * mib

abbrev pub default_max_loop_brick_size : ℕ
default_max_loop_brick_size = 100 * gib

abbrev pub default_least_arbiter_size : ℕ
default_least_arbiter_size = 100 * mib

unfoldable pub handle_replica_subvol_req : VolCreateReq → Result PlanError VolCreateReq
handle_replica_subvol_req req =
    if ltb req.replica_count 2
    then ok req
    else if ltb 3 req.replica_count
    then err invalid_replica_count
    else if ltb 1 req.arbiter_count
    then err invalid_arbiter_count
    else ok (record req { subvol_type = replicate_subvol })

-- The three counts that are filled in, from those given.
pub record Counts : Type 0 where
  pub count : ℕ
  pub data_bricks : ℕ
  pub redundant : ℕ

unfoldable pub complete_counts : ℕ → ℕ → ℕ → Counts
complete_counts count data_bricks redundancy =
    let count' = if ltb 0 data_bricks then data_bricks + redundancy else count in
    let redundancy' = if nat_beq redundancy 0 then get_redundancy count' else redundancy in
    let data' = if nat_beq data_bricks 0 then count' - redundancy' else data_bricks in
    record { count = count'; data_bricks = data'; redundant = redundancy' }

unfoldable pub handle_disperse_subvol_req : VolCreateReq → Result PlanError VolCreateReq
unfolding complete_counts
handle_disperse_subvol_req req =
    if nat_beq req.disperse_count 0
      && nat_beq req.disperse_data_count 0
      && nat_beq req.disperse_redundancy_count 0
    then ok req
    else if ltb 0 req.disperse_data_count && nat_beq req.disperse_redundancy_count 0
    then err redundancy_required
    else let c =
        complete_counts req.disperse_count req.disperse_data_count req.disperse_redundancy_count in
      if leb c.count (2 * c.redundant)
      then err invalid_redundancy
      else ok (record req {
        subvol_type = disperse;
        disperse_count = c.count;
        disperse_data_count = c.data_bricks;
        disperse_redundancy_count = c.redundant;
      })

-- The largest brick for loop devices is also the default there.
unfoldable pub check_max_brick_size : VolCreateReq → Result PlanError VolCreateReq
check_max_brick_size req =
    if ltb 0 req.max_brick_size && ltb req.max_brick_size min_brick_size
    then err max_brick_size_too_small
    else elim req.provisioner_type [
      | lvm ↦ ok req
      | loop ↦
          if ltb default_max_loop_brick_size req.max_brick_size
          then err max_brick_size_too_large
          else if nat_beq req.max_brick_size 0
          then ok (record req { max_brick_size = default_max_loop_brick_size })
          else ok req
    ]

abbrev pub max_subvol_size : VolCreateReq → ℕ
max_subvol_size req =
    if ltb 0 req.disperse_data_count
    then uint64 (req.max_brick_size * req.disperse_data_count)
    else req.max_brick_size

-- As many subvolumes as the size needs. A division by zero is a panic.
unfoldable pub decide_distribute_count : VolCreateReq → Result PlanError VolCreateReq
decide_distribute_count req =
    let most = max_subvol_size req in
    if ltb 0 req.max_brick_size && ltb req.max_brick_size req.size
    then if nat_beq most 0
      then err divide_by_zero
      else ok (record req {
        distribute_count = if ltb 0 (req.size % most) then req.size / most + 1 else req.size / most;
      })
    else ok req

-- The planner of a type of subvolume, after `Init`.
pub record SubvolPlanner : Type 0 where
  pub bricks_count : ℕ
  pub brick_size : ℕ → ℕ
  pub brick_type : ℕ → String

unfoldable pub arbiter_brick_size : Floats → ℕ → ℕ → ℕ
arbiter_brick_size fl subvol_size average_file_size =
    let avg = if nat_beq average_file_size 0 then 64 * kib else average_file_size in
    let arbiter_size = fl.four_times_ratio subvol_size avg in
    if ltb arbiter_size default_least_arbiter_size
    then if ltb subvol_size default_least_arbiter_size
      then subvol_size
      else default_least_arbiter_size
    else arbiter_size

unfoldable pub distribute_planner : ℕ → SubvolPlanner
distribute_planner subvol_size = record {
  bricks_count = 1;
  brick_size = λ idx. subvol_size;
  brick_type = λ idx. "brick";
}

unfoldable pub replica_planner : Floats → VolCreateReq → ℕ → SubvolPlanner
unfolding arbiter_brick_size
replica_planner fl req subvol_size = record {
  bricks_count = req.replica_count + req.arbiter_count;
  brick_size = λ idx.
      if nat_beq idx req.replica_count && ltb 0 req.arbiter_count
      then arbiter_brick_size fl subvol_size req.average_file_size
      else subvol_size;
  brick_type = λ idx.
      if nat_beq idx req.replica_count && ltb 0 req.arbiter_count then "arbiter" else "brick";
}

pub disperse_planner : VolCreateReq → ℕ → SubvolPlanner
disperse_planner req subvol_size = record {
  bricks_count = req.disperse_count;
  brick_size = λ idx. subvol_size / req.disperse_data_count;
  brick_type = λ idx. "brick";
}

-- The three types have their planners registered, so the lookup does not fail.
unfoldable pub subvol_planner : Floats → VolCreateReq → SubvolType → ℕ → SubvolPlanner
unfolding distribute_planner replica_planner disperse_planner
subvol_planner fl req distribute subvol_size = distribute_planner subvol_size
subvol_planner fl req replicate_subvol subvol_size = replica_planner fl req subvol_size
subvol_planner fl req disperse subvol_size = disperse_planner req subvol_size

abbrev numbered : String → ℕ → ℕ → String
numbered name i j = name ++ "_s" ++ itoa (i + 1) ++ "_b" ++ itoa (j + 1)

abbrev mount_options : ProvisionerType → String
mount_options lvm = "rw,inode64,noatime,nouuid,discard"
mount_options loop = "rw,inode64,noatime,nouuid,discard,loop"

-- The brick `j` of the subvolume `i`; `root` is where bricks are mounted.
unfoldable pub new_brick : Floats → String → VolCreateReq → ℕ → ℕ → String → ℕ → BrickReq
new_brick fl root req i j brick_type each_brick_size =
    let each_brick_tp_size = fl.reserve each_brick_size in
    let tpsize = normalize_size each_brick_tp_size in
    let tpmsize = get_pool_metadata_size fl each_brick_tp_size in
    record {
      brick_type = brick_type;
      peer_id = "";
      path =
          root
          ++ "/"
          ++ req.name
          ++ "/subvol"
          ++ itoa (i + 1)
          ++ "/brick"
          ++ itoa (j + 1)
          ++ "/brick";
      tp_metadata_size = tpmsize;
      tp_size = tpsize;
      total_size = uint64 (tpsize + tpmsize);
      vg_name = "";
      root_device = "";
      tp_name = "tp_" ++ numbered req.name i j;
      lv_name = "brick_" ++ numbered req.name i j;
      size = normalize_size each_brick_size;
      brick_dir_suffix = "/brick";
      device_path = "";
      mnt_opts = mount_options req.provisioner_type;
      fs_type = "xfs";
    }

-- The loop over `j`; `left` are the rounds to come.
unfoldable pub layout_bricks :
    Floats → String → VolCreateReq → SubvolPlanner → ℕ → ℕ → ℕ → Result PlanError (List BrickReq)
layout_bricks fl root req p i j zero = ok []
layout_bricks fl root req p i j (suc left) =
    let rest = layout_bricks fl root req p i (j + 1) left in
    if ltb (p.brick_size j) min_brick_size
    then err brick_too_small
    else rest >>= λ bricks.
        ok (new_brick fl root req i j (p.brick_type j) (p.brick_size j) ∷ bricks)

-- The loop over `i`.
unfoldable pub layout_subvols :
    Floats → String → VolCreateReq → SubvolPlanner → ℕ → ℕ → Result PlanError (List SubvolReq)
layout_subvols fl root req p i zero = ok []
layout_subvols fl root req p i (suc left) =
    layout_bricks fl root req p i 0 p.bricks_count >>= λ bricks.
    layout_subvols fl root req p (i + 1) left >>= λ subvols. ok (
      record {
        subvol_type = req.subvol_type;
        bricks = bricks;
        replica_count = req.replica_count;
        arbiter_count = req.arbiter_count;
        disperse_count = req.disperse_count;
      }
      ∷ subvols)

abbrev pub num_subvols : VolCreateReq → ℕ
num_subvols req = if ltb 0 req.distribute_count then req.distribute_count else 1

abbrev pub subvol_size_of : VolCreateReq → ℕ
subvol_size_of req = if ltb 1 (num_subvols req) then req.size / num_subvols req else req.size

-- The request as it is filled in.
unfoldable pub complete_request : VolCreateReq → Result PlanError VolCreateReq
complete_request req =
    handle_replica_subvol_req (record req { subvol_type = distribute }) >>= λ req₁.
    handle_disperse_subvol_req req₁ >>= λ req₂.
    check_max_brick_size req₂ >>= λ req₃. decide_distribute_count req₃

unfoldable pub get_bricks_layout :
    Floats → String → VolCreateReq → Result PlanError (VolCreateReq × List SubvolReq)
get_bricks_layout fl root req = complete_request req >>= λ req'.
    layout_subvols fl root req' (subvol_planner fl req' req'.subvol_type (subvol_size_of req')) 0
      (num_subvols req')
    >>= λ subvols. ok (req', subvols)
