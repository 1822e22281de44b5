-- ===== src/Snapshots/Info/Restored.antt =====
-- A volume that is restored from a snapshot of it.
use mathlib.Core.Path.{subst}
use Prim.Native.String.{◌++◌}
use glusterd.BricksPlanner.Request.{itoa}
use glusterd.Prelude.{
  ℕ, ◌+◌, ◌≡◌, refl, ap, ◌∙◌, String, Option, List, [], ◌∷◌, string_eq, length, Result, ok, ◌>>=◌,
  >>=-eq-ok, ok-injective, arith,
}
use glusterd.GoMap.{GoMap, lookup}
use glusterd.Volumes.{Brickinfo, SubvolType, Subvol, Volinfo}
use glusterd.Volumes.Create.{BrickReq, VolError}
use glusterd.Volumes.Create.Subvols.{BrickEnv, new_brick_entry, new_brick_entries}
use glusterd.Volumes.Expand.{type_name}
use glusterd.Snapshots.{Snapinfo}
use glusterd.Snapshots.Info.{
  BrickMountData, SnapCreateReq, peers_of, brick_type_to_string, mount_path, ignore_ops,
  change_options, brick_reqs, create_snap_subvols, snap_volinfo_of, create_snapinfo,
  create_volume_brick_from_snap, restore_subvols, create_restore_volinfo,
}
use glusterd.Snapshots.Info.Changes.{restored_option, insert_all-change_options}

-- The counts of a subvolume and the nodes of its bricks.
pub record Shape : Type 0 where
  pub subvol_type : SubvolType
  pub replica_count : ℕ
  pub arbiter_count : ℕ
  pub disperse_count : ℕ
  pub redundancy_count : ℕ
  pub peers : List String

abbrev pub shape : Subvol → Shape
shape s = record {
  subvol_type = s.subvol_type;
  replica_count = s.replica_count;
  arbiter_count = s.arbiter_count;
  disperse_count = s.disperse_count;
  redundancy_count = s.redundancy_count;
  peers = peers_of s.bricks;
}

abbrev pub shapes : List Subvol → List Shape
shapes [] = []
shapes (s ∷ subvols) = shape s ∷ shapes subvols

-- The shapes with the arbiter count in the place of the disperse count.
abbrev pub lost_shapes : List Subvol → List Shape
lost_shapes [] = []
lost_shapes (s ∷ subvols) =
    record (shape s) { disperse_count = s.arbiter_count } ∷ lost_shapes subvols

new_brick_entry_peer :
    (env : BrickEnv) (name : String) (n : ℕ) (req : BrickReq) (info : Brickinfo)
    → new_brick_entry env name n req ≡ ok info
    → info.peer_id ≡ req.peer_id
unfolding new_brick_entry
new_brick_entry_peer env name n req info h = ground (arith, h)

peers_of-new_brick_entries :
    (env : BrickEnv) (node_data : GoMap String BrickMountData) (name : String) (n : ℕ)
    (bricks infos : List Brickinfo)
    → new_brick_entries env name n (brick_reqs node_data bricks) ≡ ok infos
    → peers_of infos ≡ peers_of bricks
unfolding new_brick_entries brick_reqs
peers_of-new_brick_entries env node_data name n [] infos h = ground (arith, h)
peers_of-new_brick_entries env node_data name n (b ∷ bricks) infos h =
    let req : BrickReq = record {
      brick_type = brick_type_to_string b.brick_type;
      peer_id = b.peer_id;
      path = mount_path node_data b;
    } in
    let reqs = brick_reqs node_data bricks in
    let next : Brickinfo → Result VolError (List Brickinfo) =
      λ i. new_brick_entries env name (n + 1) reqs >>= λ rest. ok (i ∷ rest) in
    let (info, first, later) = >>=-eq-ok (new_brick_entry env name n req) next h in
    let (rest, others, last) =
      >>=-eq-ok (new_brick_entries env name (n + 1) reqs) (λ rest. ok (info ∷ rest)) later in
    let peers = peers_of-new_brick_entries env node_data name (n + 1) bricks rest others in
    ground (arith, new_brick_entry_peer env name n req info first, peers, last)

shapes-create_snap_subvols :
    (env : BrickEnv) (node_data : GoMap String BrickMountData) (name : String) (idx n : ℕ)
    (subvols made : List Subvol)
    → create_snap_subvols env node_data name idx n subvols ≡ ok made
    → shapes made ≡ shapes subvols
unfolding create_snap_subvols
shapes-create_snap_subvols env node_data name idx n [] made h = ground (arith, h)
shapes-create_snap_subvols env node_data name idx n (s ∷ subvols) made h =
    let with_bricks : List Brickinfo → Subvol = λ bricks. record s {
      name = name ++ "-" ++ type_name s.subvol_type ++ "-" ++ itoa idx;
      bricks = bricks;
    } in
    let more = create_snap_subvols env node_data name (idx + 1) (n + length s.bricks) subvols in
    let next : List Brickinfo → Result VolError (List Subvol) =
      λ bricks. more >>= λ rest. ok (with_bricks bricks ∷ rest) in
    let (bricks, first, later) =
      >>=-eq-ok (new_brick_entries env name n (brick_reqs node_data s.bricks)) next h in
    let (rest, others, last) = >>=-eq-ok more (λ rest. ok (with_bricks bricks ∷ rest)) later in
    let same =
      shapes-create_snap_subvols env node_data name (idx + 1) (n + length s.bricks) subvols rest
        others in
    ground
      (arith, peers_of-new_brick_entries env node_data name n s.bricks bricks first, same, last)

peers_of-create_volume_brick_from_snap :
    (name : String) (bricks : List Brickinfo)
    → peers_of (create_volume_brick_from_snap name bricks) ≡ peers_of bricks
unfolding create_volume_brick_from_snap
peers_of-create_volume_brick_from_snap name [] = refl
peers_of-create_volume_brick_from_snap name (b ∷ bricks) =
    ap (◌∷◌ b.peer_id) (peers_of-create_volume_brick_from_snap name bricks)

shapes-restore_subvols :
    (name : String) (idx : ℕ) (subvols : List Subvol)
    → shapes (restore_subvols name idx subvols) ≡ lost_shapes subvols
unfolding restore_subvols
shapes-restore_subvols name idx [] = refl
shapes-restore_subvols name idx (s ∷ subvols) = ground (
  arith,
  shapes-restore_subvols name (idx + 1) subvols,
  peers_of-create_volume_brick_from_snap name s.bricks,
)

lost_shapes_of_same :
    (ss ts : List Subvol) → shapes ss ≡ shapes ts → lost_shapes ss ≡ lost_shapes ts
lost_shapes_of_same [] [] h = refl
lost_shapes_of_same [] (t ∷ ts) h = cc
lost_shapes_of_same (s ∷ ss) [] h = cc
lost_shapes_of_same (s ∷ ss) (t ∷ ts) h =
    let later = lost_shapes_of_same ss ts (ground (arith, h)) in
    let here : shape s ≡ shape t = ground (arith, h) in ground (arith, later, here)

-- What a restored volume has of the volume that the snapshot was taken of, and of the one it replaces.
pub record IsRestored (find_option : String → Option String) (before now new : Volinfo)
    : Type 0 where
  pub kept :
      (new.vol_type ≡ before.vol_type)
      × (new.transport ≡ before.transport)
      × (new.dist_count ≡ before.dist_count)
  pub subvols : shapes new.subvols ≡ lost_shapes before.subvols
  pub options : (k : String) → lookup k new.options ≡ restored_option find_option before.options k
  pub taken : (new.state ≡ now.state) × (new.snap_list ≡ now.snap_list)
  pub capacity : new.capacity ≡ 0

-- A volume that is restored from a snapshot has the type, the counts and the nodes of the bricks, and the
-- options that it had when the snapshot was taken, with its present state and list of snapshots. The
-- disperse count of a subvolume is its arbiter count, the capacity is 0, and the options of the
-- features that a snapshot switches off are written out with their defaults.
pub create_restore_volinfo-create_snapinfo :
    (env : BrickEnv) (find_option : String → Option String)
    (node_data : GoMap String BrickMountData) (created_at : String) (req : SnapCreateReq)
    (before now : Volinfo) (s : Snapinfo)
    → create_snapinfo env find_option node_data created_at req before ≡ ok s
    → IsRestored find_option before now (create_restore_volinfo s now)
unfolding create_snapinfo create_restore_volinfo
create_restore_volinfo-create_snapinfo env find_option node_data created_at req before now s h =
    let options = (change_options find_option ignore_ops before.options []).0 in
    let changes = (change_options find_option ignore_ops before.options []).1 in
    let next : List Subvol → Result VolError Snapinfo = λ subvols. ok (record {
      snap_volinfo = snap_volinfo_of req before options subvols;
      parent_volume = req.vol_name;
      description = req.description;
      option_change = changes;
      created_at = created_at;
    }) in
    let (subvols, made, last) =
      >>=-eq-ok (create_snap_subvols env node_data req.snap_name 0 0 before.subvols) next h in
    let same =
      shapes-create_snap_subvols env node_data req.snap_name 0 0 before.subvols subvols made in
    subst (λ (x : Snapinfo). IsRestored find_option before now (create_restore_volinfo x now))
      (ok-injective last)
      (record {
        kept = (refl, refl, refl);
        subvols =
            shapes-restore_subvols now.name 0 subvols
            ∙ lost_shapes_of_same subvols before.subvols same;
        options = insert_all-change_options find_option before.options;
        taken = (refl, refl);
        capacity = refl;
      })
