-- ===== src/Volumes/Expand/Uniform.antt =====
-- What an expansion does to the subvolumes and to the number of bricks.
use mathlib.Core.List.{◌++◌ as append}
use glusterd.Prelude.{ℕ, suc, ◌+◌, ◌%◌, ◌≡◌, refl, ap, List, [], ◌∷◌, map, length, if◌then◌else◌}
use glusterd.Volumes.{Brickinfo, Subvol}
use glusterd.Volumes.Expand.{adds_subvolumes, with_replica_count}

-- A subvolume that an expansion made of so many bricks: all its counts are zero.
pub record IsAdded (count : ℕ) (s : Subvol) : Type 0 where
  pub size : length s.bricks ≡ count
  pub no_arbiter : s.arbiter_count ≡ 0
  pub no_disperse : s.disperse_count ≡ 0
  pub no_redundancy : s.redundancy_count ≡ 0

-- The bricks that the division of the new ones into subvolumes leaves over.
pub left_over : List Brickinfo → ℕ → Subvol → ℕ
left_over bricks new_count first =
    if adds_subvolumes new_count first then length bricks % (new_count + first.arbiter_count) else 0

length-with_subvols :
    (n : ℕ) (xs : List Subvol) → length (map (with_replica_count n) xs) ≡ length xs
length-with_subvols n [] = refl
length-with_subvols n (x ∷ xs) = ap suc (length-with_subvols n xs)
