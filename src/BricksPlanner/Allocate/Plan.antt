-- ===== src/BricksPlanner/Allocate/Plan.antt =====
-- The plan of a volume: what a plan that succeeds gives, and how often one device is planned with.
use mathlib.Core.Path.{subst}
use glusterd.Prelude.{
  ℕ, zero, suc, ◌+◌, ◌/◌, String, ◌≡◌, refl, ap, ◌∙◌, inl, inr, true, List, [], ltb, nat_beq, arith,
  ok, >>=-eq-ok, ok-injective, string_eq, length, All, Bool-cases, replicate,
}
use glusterd.BricksPlanner.Request.{
  Floats, SubvolType, distribute, replicate_subvol, disperse, BrickReq, SubvolReq, VolCreateReq,
  uint64, normalize_size, get_pool_metadata_size,
}
use glusterd.BricksPlanner.Layout.{
  SubvolPlanner, min_brick_size, new_brick, layout_bricks, layout_subvols, num_subvols,
  subvol_size_of, subvol_planner, complete_request, get_bricks_layout, handle_replica_subvol_req,
  handle_disperse_subvol_req, check_max_brick_size, decide_distribute_count,
}
use glusterd.BricksPlanner.Devices.{Cluster, Vg, get_available_vgs}
use glusterd.BricksPlanner.Allocate.{allocate_bricks, allocate_subvols, plan_bricks}
use glusterd.BricksPlanner.Allocate.Placed.{IsUniform, PlacedAll, allocate_subvols-PlacedAll}

-- The space of a brick of a size.
abbrev space_of : Floats → ℕ → ℕ
space_of fl size =
    uint64 (normalize_size (fl.reserve size) + get_pool_metadata_size fl (fl.reserve size))

module _ (fl : Floats) (root : String) (req : VolCreateReq) (p : SubvolPlanner) (size : ℕ)
    (equal : (j : ℕ) → p.brick_size j ≡ size) where
  layout_bricks-IsUniform :
      (i j left : ℕ) (bs : List BrickReq)
      → layout_bricks fl root req p i j left ≡ ok bs
      → IsUniform (space_of fl size) bs
  unfolding layout_bricks new_brick
  layout_bricks-IsUniform i j zero bs h = rw (← ok-injective h) tt
  layout_bricks-IsUniform i j (suc left) bs h =
      elim (Bool-cases (ltb (p.brick_size j) min_brick_size)) [
        | inl small ↦ absurd (ground (arith, rw small at h))
        | inr large ↦
            let (rest, made, is) =
              >>=-eq-ok (layout_bricks fl root req p i (j + 1) left) _ (rw large at h) in
            rw (← ok-injective is)
              (ap (space_of fl) (equal j), layout_bricks-IsUniform i (j + 1) left rest made)
      ]

  layout_subvols-IsUniform :
      (i left : ℕ) (svs : List SubvolReq)
      → layout_subvols fl root req p i left ≡ ok svs
      → All (λ sv. IsUniform (space_of fl size) sv.bricks) svs
  unfolding layout_subvols
  layout_subvols-IsUniform i zero svs h = rw (← ok-injective h) tt
  layout_subvols-IsUniform i (suc left) svs h =
      let (bs, made, h₁) = >>=-eq-ok (layout_bricks fl root req p i 0 p.bricks_count) _ h in
      let (rest, next, is) = >>=-eq-ok (layout_subvols fl root req p (i + 1) left) _ h₁ in
      rw (← ok-injective is) (
        layout_bricks-IsUniform i 0 p.bricks_count bs made,
        layout_subvols-IsUniform (i + 1) left rest next,
      )

complete_request-arbiter_count :
    (req req' : VolCreateReq)
    → complete_request req ≡ ok req'
    → req'.arbiter_count ≡ req.arbiter_count
unfolding complete_request handle_replica_subvol_req handle_disperse_subvol_req check_max_brick_size
    decide_distribute_count
complete_request-arbiter_count req req' h = ground arith

-- The size of every brick when there is no arbiter.
abbrev even_size : VolCreateReq → SubvolType → ℕ → ℕ
even_size req distribute size = size
even_size req replicate_subvol size = size
even_size req disperse size = size / req.disperse_data_count

subvol_planner-even :
    (fl : Floats) (req : VolCreateReq) (t : SubvolType) (size : ℕ)
    → req.arbiter_count ≡ 0
    → (j : ℕ) → (subvol_planner fl req t size).brick_size j ≡ even_size req t size
unfolding subvol_planner
subvol_planner-even fl req distribute size h j = refl
subvol_planner-even fl req replicate_subvol size h j = ground arith
subvol_planner-even fl req disperse size h j = refl

get_bricks_layout-IsUniform :
    (fl : Floats) (root : String) (req req' : VolCreateReq) (svs : List SubvolReq)
    → req.arbiter_count ≡ 0
    → get_bricks_layout fl root req ≡ ok (req', svs)
    → (size : ℕ) × All (λ sv. IsUniform size sv.bricks) svs
unfolding get_bricks_layout
get_bricks_layout-IsUniform fl root req req' svs none_wanted h =
    let (req₁, filled, h₁) = >>=-eq-ok (complete_request req) _ h in
    let p = subvol_planner fl req₁ req₁.subvol_type (subvol_size_of req₁) in
    let (svs₁, made, same) = >>=-eq-ok (layout_subvols fl root req₁ p 0 (num_subvols req₁)) _ h₁ in
    let none_left = complete_request-arbiter_count req req₁ filled ∙ none_wanted in
    let even = subvol_planner-even fl req₁ req₁.subvol_type (subvol_size_of req₁) none_left in
    let size = even_size req₁ req₁.subvol_type (subvol_size_of req₁) in
    let svs≡ : svs₁ ≡ svs = ap (λ r. r.1) (ok-injective {a = (req₁, svs₁)} same) in
    (
      space_of fl size,
      subst (λ x. All (λ sv. IsUniform (space_of fl size) sv.bricks) x) svs≡
          (layout_subvols-IsUniform fl root req₁ p size even 0 (num_subvols req₁) svs₁ made),
    )

-- A plan that succeeds for a volume without arbiter places the bricks of the layout, each on a
-- device that is available and had the space for it, in zones that are not used twice within a
-- subvolume, nor within the volume unless the request lets zones overlap.
pub plan_bricks_lem :
    (fl : Floats) (root : String) (c : Cluster) (req planned : VolCreateReq)
    → req.arbiter_count ≡ 0
    → plan_bricks fl root c req ≡ ok planned
    → (vgs : List Vg) × (req' : VolCreateReq) × (svs : List SubvolReq) × (get_available_vgs c req
        ≡ ok vgs)
      × (get_bricks_layout fl root req ≡ ok (req', svs))
      × PlacedAll req' vgs [] svs planned.subvols
unfolding plan_bricks
plan_bricks_lem fl root c req planned none_wanted h =
    let (vgs, available, h₁) = >>=-eq-ok (get_available_vgs c req) _ h in
    elim (Bool-cases (nat_beq (length vgs) 0)) [
      | inl empty ↦ absurd (ground (arith, rw empty at h₁))
      | inr some_there ↦
          let ((req', svs), laid, h₂) =
            >>=-eq-ok (get_bricks_layout fl root req) _ (rw some_there at h₁) in
          let (placed, got, is) = >>=-eq-ok (allocate_subvols req' vgs [] svs) _ h₂ in
          let (size, uniform) = get_bricks_layout-IsUniform fl root req req' svs none_wanted laid in
          let planned≡ : record req' { subvols = placed } ≡ planned =
            ok-injective {a = record req' { subvols = placed }} is in
          let fits : PlacedAll req' vgs [] svs placed =
            allocate_subvols-PlacedAll req' vgs size [] svs placed uniform got in
          (
            vgs,
            req',
            svs,
            available,
            laid,
            subst (λ x. PlacedAll req' vgs [] svs x.subvols) planned≡ fits,
          )
    ]

-- When zones may overlap, a subvolume that is placed once is placed any number of times, always on
-- the same devices: their space is not reduced from one subvolume to the next.
allocate_subvols-replicate :
    (req : VolCreateReq) (vgs : List Vg) (zones zones' : List String) (sv : SubvolReq)
    (bs : List BrickReq) (n : ℕ)
    → req.subvol_zones_overlap ≡ true
    → allocate_bricks req vgs [] sv.bricks ≡ ok (bs, zones')
    → allocate_subvols req vgs zones (replicate n sv) ≡ ok (replicate n (record sv { bricks = bs }))
unfolding allocate_subvols
allocate_subvols-replicate req vgs zones zones' sv bs zero overlap placed = refl
allocate_subvols-replicate req vgs zones zones' sv bs (suc n) overlap placed =
    simp (overlap, placed, allocate_subvols-replicate req vgs zones' zones' sv bs n overlap placed)
