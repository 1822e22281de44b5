-- ===== src/BricksPlanner/Layout/Shape.antt =====
-- The shape of a layout: how many subvolumes and bricks it has, and of which size.
use native.Mathlib.Nat.{div-add-mod, mod-lt}
use native.Mathlib.Numerals.{add-one}
use glusterd.Prelude.{
  ℕ, zero, suc, ◌+◌, ◌*◌, ◌/◌, ◌%◌, ◌≤◌, ◌<◌, ◌≡◌, ◌≢◌, ◌⊎◌, refl, inl, inr, false, List, [], ◌∷◌,
  ok, ◌>>=◌, >>=-eq-ok, ok-injective, length, All, ltb, arith, if◌then◌else◌, String, Bool-cases,
  ap,
}
use glusterd.BricksPlanner.Request.{
  Floats, uint64, BrickReq, SubvolReq, VolCreateReq, disperse, get_pool_metadata_size,
}
use glusterd.BricksPlanner.Redundancy.{get_redundancy}
use glusterd.BricksPlanner.Layout.{
  SubvolPlanner, min_brick_size, new_brick, layout_bricks, layout_subvols,
  handle_disperse_subvol_req, decide_distribute_count, max_subvol_size,
}

-- A brick that can be created: large enough, and a whole number of sectors, as are its thin pool
-- and the metadata of that.
pub record IsSized (b : BrickReq) : Type 0 where
  pub large : min_brick_size ≤ b.size
  pub sectors : b.size % 512 ≡ 0
  pub tp_sectors : b.tp_size % 512 ≡ 0
  pub metadata_sectors : b.tp_metadata_size % 512 ≡ 0
  pub total : b.total_size ≡ uint64 (b.tp_size + b.tp_metadata_size)

new_brick-IsSized :
    (fl : Floats) (root : String) (req : VolCreateReq) (i j : ℕ) (t : String) (size : ℕ)
    → min_brick_size ≤ size
    → IsSized (new_brick fl root req i j t size)
unfolding new_brick get_pool_metadata_size
new_brick-IsSized fl root req i j t size h = record {
  large = ground arith;
  sectors = ground arith;
  tp_sectors = ground arith;
  metadata_sectors = ground arith;
  total = refl;
}

module _ (fl : Floats) (root : String) (req : VolCreateReq) (p : SubvolPlanner) where
  layout_step :
      (i j left : ℕ)
      → ltb (p.brick_size j) min_brick_size ≡ false
      → layout_bricks fl root req p i j (suc left) ≡ (
          layout_bricks fl root req p i (j + 1) left >>= λ bricks.
          ok (new_brick fl root req i j (p.brick_type j) (p.brick_size j) ∷ bricks))
  unfolding layout_bricks
  layout_step i j left large = rw large

  layout_bricks-IsSized :
      (i j left : ℕ) (bricks : List BrickReq)
      → layout_bricks fl root req p i j left ≡ ok bricks
      → (length bricks ≡ left) × All IsSized bricks
  unfolding layout_bricks
  layout_bricks-IsSized i j zero [] h = (refl, tt)
  layout_bricks-IsSized i j zero (b ∷ bricks) h = absurd (ground arith)
  layout_bricks-IsSized i j (suc left) bricks h =
      elim (Bool-cases (ltb (p.brick_size j) min_brick_size)) [
        | inl small ↦ absurd (ground arith)
        | inr large ↦
            let rest = layout_bricks fl root req p i (j + 1) left in
            let b = new_brick fl root req i j (p.brick_type j) (p.brick_size j) in
            let (bs, made, is) = >>=-eq-ok rest _ (rw (layout_step i j left large) at h) in
            let (len, sized) = layout_bricks-IsSized i (j + 1) left bs made in
            rw (← ok-injective is) (
              omega (arith, len),
              (
                new_brick-IsSized fl root req i j (p.brick_type j) (p.brick_size j) (ground arith),
                sized,
              ),
            )
      ]

  -- A layout that is made has as many subvolumes and bricks in each as it was asked to have, and
  -- every brick is of the least size or more and a whole number of sectors.
  layout_subvols-IsSized :
      (i left : ℕ) (subvols : List SubvolReq)
      → layout_subvols fl root req p i left ≡ ok subvols
      → (length subvols ≡ left)
        × All (λ sv. (length sv.bricks ≡ p.bricks_count) × All IsSized sv.bricks) subvols
  unfolding layout_subvols
  layout_subvols-IsSized i zero [] h = (refl, tt)
  layout_subvols-IsSized i zero (sv ∷ subvols) h = absurd (ground arith)
  layout_subvols-IsSized i (suc left) subvols h =
      let (bs, made, next) = >>=-eq-ok (layout_bricks fl root req p i 0 p.bricks_count) _ h in
      let (svs, rest, is) = >>=-eq-ok (layout_subvols fl root req p (i + 1) left) _ next in
      let (len, sized) = layout_subvols-IsSized (i + 1) left svs rest in
      rw (← ok-injective is)
        (omega (arith, len), (layout_bricks-IsSized i 0 p.bricks_count bs made, sized))

get_redundancy_pos : (n : ℕ) → 1 ≤ get_redundancy n
unfolding get_redundancy
get_redundancy_pos n = ground arith

ceiling :
    (s m : ℕ)
    → m ≢ 0
    → let c = if ltb 0 (s % m) then s / m + 1 else s / m in (s ≤ c * m) × (c * m < s + m)
ceiling s m pos =
    let whole = div-add-mod s m in
    ground (arith, whole, mod-lt s {m = m} (omega arith), ap (λ (t : ℕ). t * m) (add-one (s / m)))

-- A request for a disperse volume that is accepted has its three counts filled in so that data and
-- redundancy make up all the bricks of a subvolume, and less than half of them are redundant, at
-- least one; any other request is left as it is.
handle_disperse_subvol_req_lem :
    (req req' : VolCreateReq)
    → handle_disperse_subvol_req req ≡ ok req'
    → ((req' ≡ req)
        × (req.disperse_count ≡ 0)
        × (req.disperse_data_count ≡ 0)
        × (req.disperse_redundancy_count ≡ 0))
      ⊎ ((req'.subvol_type ≡ disperse)
          × (req'.disperse_count ≡ req'.disperse_data_count + req'.disperse_redundancy_count)
          × (2 * req'.disperse_redundancy_count < req'.disperse_count)
          × (1 ≤ req'.disperse_redundancy_count))
unfolding handle_disperse_subvol_req
handle_disperse_subvol_req_lem req req' h =
    let d = req.disperse_data_count in
    let r = req.disperse_redundancy_count in
    ground (arith, get_redundancy_pos (if ltb 0 d then d + r else req.disperse_count))

-- The number of subvolumes that is decided on is the least that holds the size of the volume in
-- subvolumes of the largest size.
decide_distribute_count_lem :
    (req req' : VolCreateReq)
    → 0 < req.max_brick_size
    → req.max_brick_size < req.size
    → decide_distribute_count req ≡ ok req'
    → let most = max_subvol_size req in
      (req.size ≤ req'.distribute_count * most) × (req'.distribute_count * most < req.size + most)
unfolding decide_distribute_count
decide_distribute_count_lem req req' limited large h =
    ground (arith, ceiling req.size (max_subvol_size req))
