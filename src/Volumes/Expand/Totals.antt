-- ===== src/Volumes/Expand/Totals.antt =====
-- How many bricks the loops of an expansion put in the subvolumes.
use mathlib.Core.List.{◌++◌ as append}
use glusterd.Prelude.{
  ℕ, zero, suc, ◌+◌, ◌<◌, ◌≡◌, refl, ap, List, [], ◌∷◌, map, leb, length, length-append,
  if◌then◌else◌, arith,
}
use glusterd.Volumes.{Brickinfo, Subvol}
use glusterd.Volumes.Expand.{total_bricks, append_at, deal, last_is_arbiter, with_replica_count}

pub append_at-total :
    (idx : ℕ) (b : Brickinfo) (subvols : List Subvol)
    → idx < length subvols
    → (total_bricks (append_at idx b subvols) ≡ total_bricks subvols + 1)
      × (length (append_at idx b subvols) ≡ length subvols)
unfolding append_at total_bricks
append_at-total idx b [] small = ground arith
append_at-total zero b (s ∷ subvols) small = ground (arith, length-append s.bricks (b ∷ []))
append_at-total (suc idx) b (s ∷ subvols) small =
    let later = append_at-total idx b subvols (ground arith) in ground (arith, later)

pub deal-total :
    (idx : ℕ) (bricks : List Brickinfo) (subvols : List Subvol)
    → 0 < length subvols
    → total_bricks (deal idx bricks subvols) ≡ total_bricks subvols + length bricks
unfolding deal
deal-total idx [] subvols nonempty = ground arith
deal-total idx (b ∷ bricks) subvols nonempty =
    let i = if leb (length subvols) idx then 0 else idx in
    let (one, same) = append_at-total i b subvols (ground arith) in
    let later = deal-total (i + 1) bricks (append_at i b subvols) (ground (arith, same)) in
    ground (arith, one, later)

pub length-last_is_arbiter :
    (bricks : List Brickinfo) → length (last_is_arbiter bricks) ≡ length bricks
unfolding last_is_arbiter
length-last_is_arbiter [] = refl
length-last_is_arbiter (b ∷ []) = refl
length-last_is_arbiter (b ∷ (c ∷ bricks)) = ap suc (length-last_is_arbiter (c ∷ bricks))

pub total_bricks-append :
    (xs ys : List Subvol) → total_bricks (append xs ys) ≡ total_bricks xs + total_bricks ys
unfolding total_bricks
total_bricks-append [] ys = ground arith
total_bricks-append (s ∷ xs) ys = ground (arith, total_bricks-append xs ys)

pub total_bricks-map :
    (n : ℕ) (xs : List Subvol) → total_bricks (map (with_replica_count n) xs) ≡ total_bricks xs
unfolding total_bricks
total_bricks-map n [] = refl
total_bricks-map n (s ∷ xs) = ground (arith, total_bricks-map n xs)
