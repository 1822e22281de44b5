-- ===== src/Volumes/Scenarios.antt =====
-- Tests and worked cases of the creation and the expansion of volumes.
use glusterd.Volumes.Fixtures.{brick_at, pair_volume, triple, triple_volume}
use glusterd.Prelude.{
  ◌≡◌, refl, String, true, none, some, List, [], ◌∷◌, string_eq, codes, IsUnique, ok,
}
use mathlib.Core.List.{◌++◌ as append}
use glusterd.Volumes.{Brickinfo, Volinfo}
use glusterd.Volumes.Create.{BrickReq, SubvolReq, brick_keys, check_dup_brick_entry, check_keys}
use glusterd.Volumes.Create.Subvols.{BrickEnv}
use glusterd.Volumes.Create.Duplicates.{all_keys, check_dup_brick_entry-IsUnique}
use glusterd.Volumes.Expand.{
  adds_subvolumes, expand_check, new_subvols, total_bricks, update_volinfo_on_expand,
}

-- A replicate volume of two bricks.
abbrev brick_req : String → BrickReq
brick_req path = record { brick_type = ""; peer_id = "p1"; path = path }

abbrev pair_req : SubvolReq
pair_req = record {
  subvol_type = "replicate";
  bricks = brick_req "/a" ∷ brick_req "/b" ∷ [];
  replica_count = 2;
  arbiter_count = 0;
  disperse_count = 0;
  disperse_data = 0;
  disperse_redundancy = 0;
}

abbrev env : BrickEnv
env = record {
  is_uuid = λ _. true;
  peer_addresses = λ _. some (codes "host:24007" ∷ []);
  abs_path = λ path. some path;
  fresh = λ _. "id";
}

no_duplicates : check_dup_brick_entry (λ p. p) [] (pair_req ∷ []) ≡ none
unfolding check_dup_brick_entry check_keys brick_keys
no_duplicates = refl

check_dup_brick_entry-IsUnique_example : IsUnique (all_keys (λ p. p) (pair_req ∷ []))
check_dup_brick_entry-IsUnique_example =
    check_dup_brick_entry-IsUnique (λ p. p) (pair_req ∷ []) no_duplicates

-- One brick more with a replica count of two passes the check, and no subvolume gets it.
abbrev lone : List Brickinfo
lone = brick_at "/d" ∷ []

lone_passes : expand_check 1 2 triple_volume ≡ ok 2
unfolding expand_check total_bricks
lone_passes = refl

abbrev triple_after : Volinfo
triple_after = record triple_volume { subvols = record triple { replica_count = 2 } ∷ [] }

lone_lost : update_volinfo_on_expand lone 2 triple_volume ≡ some triple_after
unfolding update_volinfo_on_expand adds_subvolumes new_subvols
lone_lost = refl

-- Four bricks that raise the replica count from two to three give a subvolume of six bricks.
four_pass : expand_check 4 3 pair_volume ≡ ok 3
unfolding expand_check total_bricks
four_pass = refl
