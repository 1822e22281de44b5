-- ===== src/Volumes/Create.antt =====
-- glusterd2/commands/volumes: the checks of volume-create.go, voltypeFromSubvols of
-- volume-create-txn.go and volume-create-disperse.go. Counts of a request are taken not to be negative.
pub mod Subvols
pub mod Shape
pub mod Duplicates
use Prim.Native.String.{◌++◌}
use glusterd.Prelude.{
  ℕ, zero, suc, ◌+◌, ◌-◌, ◌*◌, ◌^◌, String, Bool, true, false, not, ◌&&◌, ◌||◌, Option, none, some,
  List, [], ◌∷◌, Bytes, string_eq, ◌==◌, ltb, leb, nat_beq, length, Result, ok, err, ◌>>=◌,
  if◌then◌else◌, contains,
}
use glusterd.GoMap.{GoMap, insert}
use glusterd.Brickmux.{VolState, created}
use glusterd.BricksPlanner.Request.{itoa}
use glusterd.BricksPlanner.Redundancy.{get_redundancy}
use glusterd.Peers.Address.{split_host_port}
use glusterd.Volumes.{
  BrickType, plain, arbiter, Brickinfo, SubvolType, distribute, replicate, disperse, VolType,
  distribute_vol, replicate_vol, disperse_vol, dist_replicate, dist_disperse, Subvol, Volinfo,
}

pub record BrickReq : Type 0 where
  pub brick_type : String
  pub peer_id : String
  pub path : String

pub record SubvolReq : Type 0 where
  pub subvol_type : String
  pub bricks : List BrickReq
  pub replica_count : ℕ
  pub arbiter_count : ℕ
  pub disperse_count : ℕ
  pub disperse_data : ℕ
  pub disperse_redundancy : ℕ

pub record VolCreateReq : Type 0 where
  pub name : String
  pub transport : String
  pub size : ℕ
  pub subvols : List SubvolReq
  pub metadata_size : ℕ
  pub flags : List String
  pub options : GoMap String String
  pub metadata : GoMap String String

pub data VolError : Type 0 where
  invalid_name invalid_transport invalid_size empty_brick_list metadata_out_of_bounds : VolError
  invalid_flags duplicate_brick_path : VolError
  no_replica_count invalid_brick_count invalid_arbiter arbiter_mismatch : VolError
  disperse_sum redundancy_required too_few_bricks disperse_mismatch invalid_redundancy : VolError
  invalid_uuid no_peer no_abs_path unknown_brick_type : VolError
  panicked : VolError

-- `validateVolumeFlags`
all_known : List String → Bool
all_known [] = true
all_known (key ∷ flags) =
    contains key
      ("reuse-bricks" ∷ "allow-root-dir" ∷ "allow-mount-as-brick" ∷ "create-brick-dir" ∷ [])
    && all_known flags

unfoldable pub validate_volume_flags : List String → Option VolError
unfolding all_known
validate_volume_flags flags =
    if ltb 4 (length flags)
    then some invalid_flags
    else if all_known flags
    then none
    else some invalid_flags

unfoldable pub any_empty : List SubvolReq → Bool
any_empty [] = false
any_empty (subvol ∷ subvols) = nat_beq (length subvol.bricks) 0 || any_empty subvols

unfoldable pub validate_vol_create_req : (String → Bool) → VolCreateReq → Option VolError
validate_vol_create_req is_valid_name req =
    if not (is_valid_name req.name)
    then some invalid_name
    else if not (contains req.transport ("" ∷ "tcp" ∷ "rdma" ∷ []))
    then some invalid_transport
    else if ltb 0 req.size && ltb req.size (20 * 2 ^ 20)
    then some invalid_size
    else if nat_beq req.size 0 && nat_beq (length req.subvols) 0
    then some empty_brick_list
    else if any_empty req.subvols
    then some empty_brick_list
    else if ltb (4 * 2 ^ 10) req.metadata_size
    then some metadata_out_of_bounds
    else validate_volume_flags req.flags

-- The peer and the cleaned path of each brick, in one text as the code joins them.
unfoldable pub brick_keys : (String → String) → List BrickReq → List String
brick_keys clean [] = []
brick_keys clean (b ∷ bricks) = (b.peer_id ++ clean b.path) ∷ brick_keys clean bricks

-- The loop over the bricks, with the keys seen before.
unfoldable pub check_keys : List String → List String → Result VolError (List String)
check_keys seen [] = ok seen
check_keys seen (k ∷ keys) =
    let rest = check_keys (k ∷ seen) keys in
    if contains k seen then err duplicate_brick_path else rest

unfoldable pub check_dup_brick_entry :
    (String → String) → List String → List SubvolReq → Option VolError
check_dup_brick_entry clean seen [] = none
check_dup_brick_entry clean seen (subvol ∷ subvols) =
    elim (check_keys seen (brick_keys clean subvol.bricks)) [
      | err e ↦ some e
      | ok seen' ↦ check_dup_brick_entry clean seen' subvols
    ]

unfoldable pub voltype_from_subvols : List SubvolReq → VolType
voltype_from_subvols [] = distribute_vol
voltype_from_subvols (first ∷ others) =
    let several = ltb 1 (length (first ∷ others)) in
    if first.subvol_type == "replicate"
    then if several then dist_replicate else replicate_vol
    else if first.subvol_type == "disperse"
    then if several then dist_disperse else disperse_vol
    else distribute_vol

-- The three counts of a request, filled in; the number of bricks is `count`.
unfoldable pub with_data : ℕ → SubvolReq → Result VolError SubvolReq
with_data count req =
    if not (ltb 0 req.disperse_data)
    then ok req
    else if ltb 0 req.disperse_count && ltb 0 req.disperse_redundancy
    then if nat_beq req.disperse_count (req.disperse_data + req.disperse_redundancy)
      then ok req
      else err disperse_sum
    else if ltb 0 req.disperse_redundancy
    then ok (record req { disperse_count = req.disperse_data + req.disperse_redundancy })
    else if ltb 0 req.disperse_count
    then ok (record req { disperse_redundancy = req.disperse_count - req.disperse_data })
    else if leb req.disperse_data (count - req.disperse_data)
    then err redundancy_required
    else ok (record req { disperse_redundancy = count - req.disperse_data; disperse_count = count })

unfoldable pub with_count : ℕ → SubvolReq → Result VolError SubvolReq
with_count count req =
    if not (nat_beq req.disperse_count 0)
    then ok req
    else if ltb count 3
    then err too_few_bricks
    else ok (record req { disperse_count = count })

abbrev pub with_redundancy : SubvolReq → SubvolReq
with_redundancy req =
    if nat_beq req.disperse_redundancy 0
    then record req { disperse_redundancy = get_redundancy req.disperse_count }
    else req

unfoldable pub check_counts : ℕ → SubvolReq → Result VolError (ℕ × ℕ)
check_counts count req =
    if not (nat_beq req.disperse_count count)
    then err disperse_mismatch
    else if leb req.disperse_count (2 * req.disperse_redundancy)
    then err invalid_redundancy
    else ok (req.disperse_count, req.disperse_redundancy)

-- `checkDisperseParams`: the disperse count and the redundancy of the subvolume. A difference that is
-- negative is 0 here; the code treats both alike.
unfoldable pub check_disperse_params : SubvolReq → Result VolError (ℕ × ℕ)
unfolding with_count check_counts
check_disperse_params req = do
  let count = length req.bricks
  r ← with_data count req
  r' ← with_count count r
  check_counts count (with_redundancy r')
