-- ===== src/BricksPlanner/Request.antt =====
-- The requests of pkg/api/volume_req.go that the planner reads and fills in, and the sizes of
-- pkg/utils and pkg/lvmutils. Counts are `int`s of a request: they are taken to be at least 0, and
-- small enough for `int` arithmetic not to wrap. Sizes are `uint64`.
use Prim.Native.String.{◌++◌}
use glusterd.Prelude.{
  ℕ, zero, suc, ◌-◌, ◌/◌, ◌%◌, ◌^◌, String, Bool, List, ltb, nat_beq, if◌then◌else◌,
}

abbrev pub kib : ℕ
kib = 1024

abbrev pub mib : ℕ
mib = 1048576

abbrev pub gib : ℕ
gib = 1073741824

abbrev pub uint64 : ℕ → ℕ
uint64 n = n % 2 ^ 64

-- `NormalizeSize`: down to a multiple of a sector.
abbrev pub normalize_size : ℕ → ℕ
normalize_size size = let rem = size % 512 in if ltb 0 rem then size - rem else size

abbrev pub max_metadata_size : ℕ
max_metadata_size = 17179869184

-- The products of a size and a float, rounded to `uint64`.
pub record Floats : Type 0 where
  -- the size times 0.005
  pub half_percent : ℕ → ℕ
  -- the size times the snapshot reserve factor of the request
  pub reserve : ℕ → ℕ
  -- 4.0 times the quotient of two sizes
  pub four_times_ratio : ℕ → ℕ → ℕ

unfoldable pub get_pool_metadata_size : Floats → ℕ → ℕ
get_pool_metadata_size fl poolsize =
    let metadata_size = fl.half_percent poolsize in
    normalize_size
      (if ltb max_metadata_size metadata_size then max_metadata_size else metadata_size)

pub data SubvolType : Type 0 where
  distribute replicate_subvol disperse : SubvolType

pub data ProvisionerType : Type 0 where
  lvm loop : ProvisionerType

pub record BrickReq : Type 0 where
  pub brick_type : String
  pub peer_id : String
  pub path : String
  pub tp_metadata_size : ℕ
  pub tp_size : ℕ
  pub total_size : ℕ
  pub vg_name : String
  pub root_device : String
  pub tp_name : String
  pub lv_name : String
  pub size : ℕ
  pub brick_dir_suffix : String
  pub device_path : String
  pub mnt_opts : String
  pub fs_type : String

pub record SubvolReq : Type 0 where
  pub subvol_type : SubvolType
  pub bricks : List BrickReq
  pub replica_count : ℕ
  pub arbiter_count : ℕ
  pub disperse_count : ℕ

-- The fields that the planner uses.
pub record VolCreateReq : Type 0 where
  pub name : String
  pub subvols : List SubvolReq
  pub size : ℕ
  pub max_brick_size : ℕ
  pub distribute_count : ℕ
  pub replica_count : ℕ
  pub arbiter_count : ℕ
  pub average_file_size : ℕ
  pub disperse_count : ℕ
  pub disperse_redundancy_count : ℕ
  pub disperse_data_count : ℕ
  pub limit_peers : List String
  pub limit_zones : List String
  pub exclude_peers : List String
  pub exclude_zones : List String
  pub subvol_zones_overlap : Bool
  pub subvol_type : SubvolType
  pub provisioner_type : ProvisionerType

pub data PlanError : Type 0 where
  invalid_replica_count : PlanError
  invalid_arbiter_count : PlanError
  redundancy_required : PlanError
  invalid_redundancy : PlanError
  max_brick_size_too_small : PlanError
  max_brick_size_too_large : PlanError
  brick_too_small : PlanError
  no_devices : PlanError
  no_space : PlanError
  devices_failed : String → PlanError
  divide_by_zero : PlanError

abbrev digit : ℕ → String
digit n =
    if nat_beq n 0
    then "0"
    else if nat_beq n 1
    then "1"
    else if nat_beq n 2
    then "2"
    else if nat_beq n 3
    then "3"
    else if nat_beq n 4
    then "4"
    else if nat_beq n 5
    then "5"
    else if nat_beq n 6
    then "6"
    else if nat_beq n 7
    then "7"
    else if nat_beq n 8
    then "8"
    else "9"

unfoldable pub itoa_from : ℕ → ℕ → String → String
itoa_from zero n s = s
itoa_from (suc fuel) n s =
    let s' = digit (n % 10) ++ s in
    let rest = itoa_from fuel (n / 10) s' in if ltb n 10 then s' else rest

-- `%d`: a number below 2^64 has at most 20 digits.
unfoldable pub itoa : ℕ → String
unfolding itoa_from
itoa n = itoa_from 20 n ""
