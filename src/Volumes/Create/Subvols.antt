-- ===== src/Volumes/Create/Subvols.antt =====
-- `populateSubvols` and `newVolinfo` of glusterd2/commands/volumes/volume-create-txn.go, with
-- NewBrickEntries of glusterd2/volume/struct.go. `BrickEnv` is the peers of the store, the file system's
-- absolute paths and the random ids.
use Prim.Native.String.{◌++◌}
use glusterd.Prelude.{
  ℕ, ◌+◌, String, Bool, not, ◌&&◌, ◌||◌, Option, none, some, List, [], ◌∷◌, Bytes, string_eq, ◌==◌,
  ltb, nat_beq, length, Result, ok, err, ◌>>=◌, if◌then◌else◌,
}
use glusterd.GoMap.{insert}
use glusterd.Brickmux.{created}
use glusterd.BricksPlanner.Request.{itoa}
use glusterd.Peers.Address.{split_host_port}
use glusterd.Volumes.{
  BrickType, plain, arbiter, Brickinfo, SubvolType, distribute, replicate, disperse, Subvol,
  Volinfo,
}
use glusterd.Volumes.Create.{
  BrickReq, SubvolReq, VolCreateReq, VolError, voltype_from_subvols, check_disperse_params,
  no_replica_count, invalid_brick_count, invalid_arbiter, arbiter_mismatch, invalid_uuid, no_peer,
  no_abs_path, unknown_brick_type, panicked,
}

pub record BrickEnv : Type 0 where
  pub is_uuid : String → Bool
  -- the addresses of a peer of the store
  pub peer_addresses : String → Option (List Bytes)
  pub abs_path : String → Option String
  pub fresh : ℕ → String

abbrev host_of : Bytes → Bytes
host_of addr = elim (split_host_port addr) [ ok (host, port) ↦ host | err e ↦ [] ]

abbrev brick_type_of : String → Result VolError BrickType
brick_type_of name =
    if name == "arbiter"
    then ok arbiter
    else if name == "" || name == "brick"
    then ok plain
    else err unknown_brick_type

unfoldable pub new_brick_entry : BrickEnv → String → ℕ → BrickReq → Result VolError Brickinfo
new_brick_entry env vol_name n b =
    if not (env.is_uuid b.peer_id) then err invalid_uuid else elim (env.peer_addresses b.peer_id) [
      | none ↦ err no_peer
      | some addrs ↦ elim addrs [
        | [] ↦ err panicked
        | first ∷ others ↦ elim (env.abs_path b.path) [
          | none ↦ err no_abs_path
          | some path ↦ brick_type_of b.brick_type >>= λ ty. ok (record {
            id = env.fresh n;
            peer_id = b.peer_id;
            hostname = host_of first;
            path = path;
            brick_type = ty;
            volume_name = vol_name;
          })
        ]
      ]
    ]

-- `NewBrickEntries`; `n` counts the random ids drawn before.
unfoldable pub new_brick_entries :
    BrickEnv → String → ℕ → List BrickReq → Result VolError (List Brickinfo)
new_brick_entries env vol_name n [] = ok []
new_brick_entries env vol_name n (b ∷ bricks) = do
  info ← new_brick_entry env vol_name n b
  rest ← new_brick_entries env vol_name (n + 1) bricks
  ok (info ∷ rest)

count_arbiters : List BrickReq → ℕ
count_arbiters [] = 0
count_arbiters (b ∷ bricks) = (if b.brick_type == "arbiter" then 1 else 0) + count_arbiters bricks

unfoldable pub check_arbiter : SubvolReq → Result VolError ℕ
unfolding count_arbiters
check_arbiter req =
    if nat_beq req.arbiter_count 0
    then ok 0
    else if not (nat_beq req.replica_count 2) || not (nat_beq req.arbiter_count 1)
    then err invalid_arbiter
    else if nat_beq (count_arbiters req.bricks) req.arbiter_count
    then ok req.arbiter_count
    else err arbiter_mismatch

abbrev pub has_disperse : SubvolReq → Bool
has_disperse req = not (
    nat_beq req.disperse_count 0
    && nat_beq req.disperse_data 0
    && nat_beq req.disperse_redundancy 0)

unfoldable pub disperse_counts : SubvolReq → Result VolError (ℕ × ℕ)
disperse_counts req = if has_disperse req then check_disperse_params req else ok (0, 0)

abbrev type_of : String → SubvolType
type_of name =
    if name == "replicate" then replicate else if name == "disperse" then disperse else distribute

abbrev pub check_replica : SubvolReq → Option VolError
check_replica req =
    if nat_beq req.replica_count 0 && req.subvol_type == "replicate"
    then some no_replica_count
    else if ltb 0 req.replica_count
        && not (nat_beq (req.replica_count + req.arbiter_count) (length req.bricks))
    then some invalid_brick_count
    else none

-- The subvolume with the parts found for it; `lower` is strings.ToLower.
abbrev pub made_subvol :
    (String → String) → String → ℕ → SubvolReq → ℕ → ℕ × ℕ → List Brickinfo → Subvol
made_subvol lower vol_name idx req arbiters counts bricks = record {
  name = vol_name ++ "-" ++ lower req.subvol_type ++ "-" ++ itoa idx;
  subvol_type = type_of req.subvol_type;
  bricks = bricks;
  replica_count = if nat_beq req.replica_count 0 then 1 else req.replica_count;
  arbiter_count = arbiters;
  disperse_count = counts.0;
  redundancy_count = counts.1;
}

-- The body of the loop of `populateSubvols`.
unfoldable pub new_subvol :
    BrickEnv → (String → String) → String → ℕ → ℕ → SubvolReq → Result VolError Subvol
new_subvol env lower vol_name idx n req = elim (check_replica req) [
  | some e ↦ err e
  | none ↦ check_arbiter req >>= λ arbiters. disperse_counts req >>= λ counts.
      new_brick_entries env vol_name n req.bricks >>= λ bricks.
      ok (made_subvol lower vol_name idx req arbiters counts bricks)
]

unfoldable pub populate_subvols :
    BrickEnv → (String → String) → String → ℕ → ℕ → List SubvolReq → Result VolError (List Subvol)
populate_subvols env lower vol_name idx n [] = ok []
populate_subvols env lower vol_name idx n (req ∷ reqs) = do
  s ← new_subvol env lower vol_name idx n req
  rest ← populate_subvols env lower vol_name (idx + 1) (n + length req.bricks) reqs
  ok (s ∷ rest)

-- `newVolinfo`
unfoldable pub new_volinfo : BrickEnv → (String → String) → VolCreateReq → Result VolError Volinfo
new_volinfo env lower req = populate_subvols env lower req.name 0 0 req.subvols >>= λ subvols.
    ok (record {
      name = req.name;
      vol_type = voltype_from_subvols req.subvols;
      state = created;
      dist_count = length req.subvols;
      transport = if req.transport == "" then "tcp" else req.transport;
      options = req.options;
      metadata =
          insert "_brick-provision-type" (if ltb 0 req.size then "auto" else "") req.metadata;
      subvols = subvols;
      snap_list = [];
      capacity = req.size;
    })
