-- ===== src/Volumes/Create/Shape.antt =====
-- The subvolumes that a request to create a volume gives.
use mathlib.Core.List.{Memᴰ}
use mathlib.Core.List.Memᴰ as MemD
use glusterd.Prelude.{ℕ, ◌+◌, ◌*◌, ◌<◌, ◌≡◌, ◌≢◌, List, string_eq, length, map}
use glusterd.Volumes.{replicate, Subvol}
use glusterd.Volumes.Create.{SubvolReq}

-- The counts of a disperse subvolume of `count` bricks.
pub record IsDispersed (count disperse redundancy : ℕ) : Type 0 where
  pub all_bricks : disperse ≡ count
  pub some_redundant : 0 < redundancy
  pub most_needed : 2 * redundancy < disperse

-- The counts of a subvolume fit its bricks.
pub record IsShaped (s : Subvol) : Type 0 where
  pub replicated : s.subvol_type ≡ replicate → s.replica_count + s.arbiter_count ≡ length s.bricks
  pub arbiters : s.arbiter_count ≢ 0 → (s.replica_count ≡ 2) × (s.arbiter_count ≡ 1)
  pub dispersed :
      s.disperse_count ≢ 0 → IsDispersed (length s.bricks) s.disperse_count s.redundancy_count

-- Subvolumes of the sizes that were asked for, each with the counts that fit it.
pub AreShaped : List Subvol → List SubvolReq → Type 0
AreShaped ss reqs =
    (map (λ (s : Subvol). length s.bricks) ss ≡ map (λ (r : SubvolReq). length r.bricks) reqs)
    × ((s : Subvol) → Memᴰ s ss → IsShaped s)
