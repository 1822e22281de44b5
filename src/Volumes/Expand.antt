-- ===== src/Volumes/Expand.antt =====
-- glusterd2/commands/volumes/volume-expand-txn.go: the check of the number of bricks and the update of
-- the volume. A volume without subvolumes makes both panic, and so does a division by no bricks.
pub mod Totals
pub mod Uniform
use Prim.Native.String.{◌++◌}
use glusterd.Prelude.{
  ℕ, zero, suc, ◌+◌, ◌*◌, ◌/◌, ◌%◌, String, Bool, true, false, not, ◌&&◌, ◌||◌, Option, none, some,
  List, [], ◌∷◌, map, ltb, leb, nat_beq, length, take, drop, Result, ok, err, if◌then◌else◌,
}
use mathlib.Core.List.{◌++◌ as append}
use glusterd.BricksPlanner.Request.{itoa}
use glusterd.Volumes.{
  BrickType, plain, arbiter, thin_arbiter, Brickinfo, SubvolType, distribute, replicate, disperse,
  VolType, distribute_vol, replicate_vol, disperse_vol, dist_replicate, dist_disperse, Subvol,
  Volinfo,
}

pub data ExpandError : Type 0 where
  invalid_number_of_bricks replica_count_is_same panicked : ExpandError

unfoldable pub total_bricks : List Subvol → ℕ
total_bricks [] = 0
total_bricks (s ∷ subvols) = length s.bricks + total_bricks subvols

abbrev is_replicated : VolType → Bool
is_replicated replicate_vol = true
is_replicated dist_replicate = true
is_replicated distribute_vol = false
is_replicated disperse_vol = false
is_replicated dist_disperse = false

-- The checks of `expandValidatePrepare` on a request with `added` bricks: the new replica count.
unfoldable pub expand_check : (added replica_count : ℕ) → Volinfo → Result ExpandError ℕ
expand_check added replica_count vol = elim vol.subvols [
  | [] ↦ err panicked
  | first ∷ others ↦
      let new_count = if nat_beq replica_count 0 then first.replica_count else replica_count in
      let all = total_bricks (first ∷ others) in
      if nat_beq (new_count + first.arbiter_count) 0
      then err panicked
      else if not (nat_beq ((added + all) % (new_count + first.arbiter_count)) 0)
      then err invalid_number_of_bricks
      else if is_replicated vol.vol_type && not (nat_beq replica_count 0)
      then if ltb replica_count first.replica_count
        then err invalid_number_of_bricks
        else if nat_beq replica_count first.replica_count
        then err replica_count_is_same
        else ok new_count
      else ok new_count
]

-- Subvols[idx].Bricks = append(Subvols[idx].Bricks, b)
unfoldable pub append_at : ℕ → Brickinfo → List Subvol → List Subvol
append_at idx b [] = []
append_at zero b (s ∷ subvols) = record s { bricks = append s.bricks (b ∷ []) } ∷ subvols
append_at (suc idx) b (s ∷ subvols) = s ∷ append_at idx b subvols

-- The loop that deals the bricks out, one to each subvolume in turn.
unfoldable pub deal : ℕ → List Brickinfo → List Subvol → List Subvol
deal idx [] subvols = subvols
deal idx (b ∷ bricks) subvols =
    let i = if leb (length subvols) idx then 0 else idx in
    deal (i + 1) bricks (append_at i b subvols)

unfoldable pub has_arbiter : List Brickinfo → Bool
has_arbiter [] = false
has_arbiter (b ∷ bricks) = elim b.brick_type [
  | arbiter ↦ true
  | plain ↦ has_arbiter bricks
  | thin_arbiter ↦ has_arbiter bricks
]

unfoldable pub last_is_arbiter : List Brickinfo → List Brickinfo
last_is_arbiter [] = []
last_is_arbiter (b ∷ bricks) = elim bricks [
  | [] ↦ record b { brick_type = arbiter } ∷ []
  | next ∷ others ↦ b ∷ last_is_arbiter bricks
]

abbrev pub type_name : SubvolType → String
type_name distribute = "distribute"
type_name replicate = "replicate"
type_name disperse = "disperse"

abbrev pub next_subvol : String → ℕ → Subvol → List Brickinfo → Subvol
next_subvol vol_name idx first bricks = record {
  name = vol_name ++ "-" ++ type_name first.subvol_type ++ "-" ++ itoa idx;
  subvol_type = first.subvol_type;
  bricks =
      if ltb 0 first.arbiter_count && not (has_arbiter bricks)
      then last_is_arbiter bricks
      else bricks;
  replica_count = 0;
  arbiter_count = 0;
  disperse_count = 0;
  redundancy_count = 0;
}

-- The loop that makes `num` subvolumes of `count` bricks.
unfoldable pub new_subvols : (num count : ℕ) → String → ℕ → Subvol → List Brickinfo → List Subvol
new_subvols zero count vol_name idx first bricks = []
new_subvols (suc num) count vol_name idx first bricks =
    next_subvol vol_name idx first (take count bricks)
    ∷ new_subvols num count vol_name (idx + 1) first (drop count bricks)

-- The switch on the type of the first subvolume.
unfoldable pub adds_subvolumes : ℕ → Subvol → Bool
adds_subvolumes new_count first = elim first.subvol_type [
  | distribute ↦ false
  | replicate ↦ nat_beq new_count first.replica_count
  | disperse ↦ true
]

abbrev pub with_replica_count : ℕ → Subvol → Subvol
with_replica_count n s = record s { replica_count = n }

abbrev pub with_subvols : Volinfo → ℕ → List Subvol → Volinfo
with_subvols vol new_count subvols = record vol {
  subvols = map (with_replica_count new_count) subvols;
  dist_count = length subvols;
}

-- `updateVolinfoOnExpand`, up to the write to the store.
unfoldable pub update_volinfo_on_expand : List Brickinfo → ℕ → Volinfo → Option Volinfo
update_volinfo_on_expand bricks new_count vol = elim vol.subvols [
  | [] ↦ none
  | first ∷ others ↦
      let subvols = first ∷ others in
      let count = new_count + first.arbiter_count in
      if not (adds_subvolumes new_count first)
      then some (with_subvols vol new_count (deal 0 bricks subvols))
      else if nat_beq count 0
      then none
      else some (
          with_subvols vol new_count (
            append subvols
              (new_subvols (length bricks / count) count vol.name (length subvols) first bricks)))
]
