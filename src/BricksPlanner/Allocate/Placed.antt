-- ===== src/BricksPlanner/Allocate/Placed.antt =====
-- What the allocation gives when all bricks of a subvolume are of one size: devices with the space,
-- in zones that differ.
use mathlib.Core.Path.{subst}
use mathlib.Core.List.{Memᴰ}
use glusterd.Prelude.{
  ℕ, zero, suc, ◌+◌, ◌≤◌, String, ◌≡◌, refl, sym, ap, ◌∙◌, inl, inr, Bool, true, false, not, ◌&&◌,
  ◌||◌, none, some, List, [], ◌∷◌, ◌++◌, leb, nat_beq, arith, if◌then◌else◌, ok, >>=-eq-ok,
  ok-injective, contains, string_eq, take, drop, length, All, Bool-cases, Option-cases, length-drop,
}
use glusterd.BricksPlanner.Request.{BrickReq, SubvolReq, VolCreateReq}
use glusterd.BricksPlanner.Devices.{Vg}
use glusterd.BricksPlanner.Allocate.{choose, assign, pass, allocate_bricks, allocate_subvols}

-- The bricks get devices that have the space, each in a zone that is not in use yet and then is.
pub data Placed (req : VolCreateReq) (vgs : List Vg)
    : List String → List BrickReq → List BrickReq → List String → Type 0 where
  done : {zones : List String} → Placed req vgs zones [] [] zones
  next :
      {zones zones' : List String} {b : BrickReq} {bs bs' : List BrickReq} {vg : Vg}
      → Memᴰ vg vgs
      → b.total_size ≤ vg.available_size
      → contains vg.zone zones ≡ false
      → Placed req vgs (vg.zone ∷ zones) bs bs' zones'
      → Placed req vgs zones (b ∷ bs) (assign req vg b ∷ bs') zones'

-- The same for the subvolumes, whose zones start afresh when zones may overlap.
pub data PlacedAll (req : VolCreateReq) (vgs : List Vg)
    : List String → List SubvolReq → List SubvolReq → Type 0 where
  all_done : {zones : List String} → PlacedAll req vgs zones [] []
  subvol :
      {zones zones' : List String} {sv : SubvolReq} {bs : List BrickReq} {svs svs' : List SubvolReq}
      → Placed req vgs (if req.subvol_zones_overlap then [] else zones) sv.bricks bs zones'
      → PlacedAll req vgs zones' svs svs'
      → PlacedAll req vgs zones (sv ∷ svs) (record sv { bricks = bs } ∷ svs')

abbrev pub IsUniform : ℕ → List BrickReq → Type 0
IsUniform size bs = All (λ b. b.total_size ≡ size) bs

choose-some :
    (fresh : Bool) (vgs : List Vg) (zones : List String) (b : BrickReq) (vg : Vg)
    → choose fresh vgs zones b ≡ some vg
    → Memᴰ vg vgs × (b.total_size ≤ vg.available_size) × (contains vg.zone zones ≡ false)
unfolding choose
choose-some fresh [] zones b vg h = absurd (ground arith)
choose-some fresh (v ∷ vgs) zones b vg h =
    elim (Bool-cases (
      leb b.total_size v.available_size
      && not (contains v.zone zones)
      && (not fresh || not v.used))) [
        | inl good ↦
            let same : some v ≡ some vg = rw good at h in
            let v≡ : v ≡ vg = ground arith in (Memᴰ.head (sym v≡), ground arith, ground arith)
        | inr bad ↦
            let (m, space, zone) = choose-some fresh vgs zones b vg (rw bad at h) in
            (Memᴰ.tail m, space, zone)
      ]

choose-cong :
    (fresh : Bool) (vgs : List Vg) (zones : List String) (b b' : BrickReq)
    → b.total_size ≡ b'.total_size
    → choose fresh vgs zones b ≡ choose fresh vgs zones b'
unfolding choose
choose-cong fresh [] zones b b' h = refl
choose-cong fresh (v ∷ vgs) zones b b' h = simp (h, choose-cong fresh vgs zones b b' h)

module _ (req : VolCreateReq) (vgs : List Vg) (fresh : Bool) where
  pass-none :
      (zones : List String) (b : BrickReq) (bs : List BrickReq)
      → choose fresh vgs zones b ≡ none
      → let p = pass req vgs fresh zones bs in
        pass req vgs fresh zones (b ∷ bs)
        ≡ record { bricks = b ∷ p.bricks; zones = p.zones; count = p.count }
  unfolding pass
  pass-none zones b bs h = rw (h, pass) refl

  pass-some :
      (zones : List String) (b : BrickReq) (bs : List BrickReq) (vg : Vg)
      → choose fresh vgs zones b ≡ some vg
      → let p = pass req vgs fresh (vg.zone ∷ zones) bs in
        pass req vgs fresh zones (b ∷ bs)
        ≡ record { bricks = assign req vg b ∷ p.bricks; zones = p.zones; count = suc p.count }
  unfolding pass
  pass-some zones b bs vg h = rw (h, pass) refl

  pass-count_le :
      (zones : List String) (bs : List BrickReq) → (pass req vgs fresh zones bs).count ≤ length bs
  unfolding pass
  pass-count_le zones [] = omega arith
  pass-count_le zones (b ∷ bs) = elim (Option-cases (choose fresh vgs zones b)) [
    | inl h ↦ rw (pass-none zones b bs h) omega (arith, pass-count_le zones bs)
    | inr (vg, h) ↦ rw (pass-some zones b bs vg h) omega (arith, pass-count_le (vg.zone ∷ zones) bs)
  ]

  -- A loop that placed as many bricks as there are placed each of them.
  pass-Placed :
      (zones : List String) (bs : List BrickReq)
      → let p = pass req vgs fresh zones bs in
        p.count ≡ length bs → Placed req vgs zones bs p.bricks p.zones
  unfolding pass
  pass-Placed zones [] h = Placed.done
  pass-Placed zones (b ∷ bs) h = elim (Option-cases (choose fresh vgs zones b)) [
    | inl none_found ↦
        absurd (omega (arith, rw (pass-none zones b bs none_found) at h, pass-count_le zones bs))
    | inr (vg, found) ↦
        let (m, space, zone) = choose-some fresh vgs zones b vg found in
        let step = pass-some zones b bs vg found in
        rw step (
          Placed.next m space zone (pass-Placed (vg.zone ∷ zones) bs (omega (arith, rw step at h))))
  ]

  -- Where one brick of the size finds no device, none does.
  pass-stuck :
      (size : ℕ) (zones : List String) (b : BrickReq) (bs : List BrickReq)
      → b.total_size ≡ size
      → IsUniform size bs
      → choose fresh vgs zones b ≡ none
      → pass req vgs fresh zones bs ≡ record { bricks = bs; zones = zones; count = 0 }
  unfolding pass
  pass-stuck size zones b [] hb hs h = refl
  pass-stuck size zones b (c ∷ cs) hb (hc, hs) h =
      let hc' : choose fresh vgs zones c ≡ none =
        choose-cong fresh vgs zones c b (hc ∙ sym hb) ∙ h in
      pass-none zones c cs hc' ∙ rw (pass-stuck size zones b cs hb hs h)

  -- So the bricks that a loop placed are the first ones.
  pass-prefix :
      (size : ℕ) (zones : List String) (bs : List BrickReq)
      → IsUniform size bs
      → let p = pass req vgs fresh zones bs in
        Placed req vgs zones (take p.count bs) (take p.count p.bricks) p.zones
        × (drop p.count p.bricks ≡ drop p.count bs)
  unfolding pass
  pass-prefix size zones [] u = (Placed.done, refl)
  pass-prefix size zones (b ∷ bs) (hb, hs) = elim (Option-cases (choose fresh vgs zones b)) [
    | inl h ↦ rw (pass-none zones b bs h, pass-stuck size zones b bs hb hs h) (Placed.done, refl)
    | inr (vg, found) ↦
        let (m, space, zone) = choose-some fresh vgs zones b vg found in
        let (placed, rest) = pass-prefix size (vg.zone ∷ zones) bs hs in
        rw (pass-some zones b bs vg found) (Placed.next m space zone placed, rest)
  ]

Placed-append :
    {req : VolCreateReq} {vgs : List Vg} {z₁ z₂ z₃ : List String} {bs bs' cs cs' : List BrickReq}
    → Placed req vgs z₁ bs bs' z₂
    → Placed req vgs z₂ cs cs' z₃
    → Placed req vgs z₁ (bs ++ cs) (bs' ++ cs') z₃
Placed-append Placed.done q = q
Placed-append (Placed.next m space zone p) q = Placed.next m space zone (Placed-append p q)

append-take-drop : {A : Type 0} (n : ℕ) (xs : List A) → take n xs ++ drop n xs ≡ xs
append-take-drop zero xs = refl
append-take-drop (suc n) [] = refl
append-take-drop (suc n) (x ∷ xs) = ap (◌∷◌ x) (append-take-drop n xs)

-- The bricks of a subvolume, all of one size, when the allocation succeeds.
allocate_bricks-Placed :
    (req : VolCreateReq) (vgs : List Vg) (size : ℕ) (zones : List String) (bs : List BrickReq)
    (bs' : List BrickReq) (zones' : List String)
    → IsUniform size bs
    → allocate_bricks req vgs zones bs ≡ ok (bs', zones')
    → Placed req vgs zones bs bs' zones'
unfolding allocate_bricks
allocate_bricks-Placed req vgs size zones bs bs' zones' u h =
    let first = pass req vgs true zones bs in
    let second = pass req vgs false first.zones (drop first.count first.bricks) in
    let (placed, rest) = pass-prefix req vgs true size zones bs u in
    elim (Bool-cases (nat_beq (length bs) first.count)) [
      | inl full ↦
          let same : (first.bricks, first.zones) ≡ (bs', zones') = ok-injective (rw full at h) in
          rw (← ap (λ r. r.0) same, ← ap (λ r. r.1) same)
            (pass-Placed req vgs true zones bs (ground (arith, full)))
      | inr short ↦ elim (Bool-cases (nat_beq (length bs) (first.count + second.count))) [
        | inl full ↦
            let same : (take first.count first.bricks ++ second.bricks, second.zones)
                ≡ (bs', zones') =
              ok-injective (rw (short, full) at h) in
            let all = length-drop first.count bs in
            let placed' : Placed req vgs first.zones (drop first.count bs) second.bricks
                second.zones =
              rw (← rest) (
                pass-Placed req vgs false first.zones (drop first.count first.bricks)
                  (ground (arith, full, all, ap (length {A = BrickReq}) rest))) in
            let whole =
              subst
                (λ x.
                  Placed req vgs zones x (take first.count first.bricks ++ second.bricks)
                    second.zones)
                (append-take-drop first.count bs) (Placed-append placed placed') in
            rw (← ap (λ r. r.0) same, ← ap (λ r. r.1) same) whole
        | inr none_left ↦ absurd (ground (arith, rw (short, none_left) at h))
      ]
    ]

pub allocate_subvols-PlacedAll :
    (req : VolCreateReq) (vgs : List Vg) (size : ℕ) (zones : List String)
    (svs svs' : List SubvolReq)
    → All (λ sv. IsUniform size sv.bricks) svs
    → allocate_subvols req vgs zones svs ≡ ok svs'
    → PlacedAll req vgs zones svs svs'
unfolding allocate_subvols
allocate_subvols-PlacedAll req vgs size zones [] svs' u h = rw (← ok-injective h) PlacedAll.all_done
allocate_subvols-PlacedAll req vgs size zones (sv ∷ svs) svs' (u, us) h =
    let start = if req.subvol_zones_overlap then [] else zones in
    let ((bs, zones'), got, h₁) = >>=-eq-ok (allocate_bricks req vgs start sv.bricks) _ h in
    let (rest, made, is) = >>=-eq-ok (allocate_subvols req vgs zones' svs) _ h₁ in
    rw (← ok-injective is) (
      PlacedAll.subvol (allocate_bricks-Placed req vgs size start sv.bricks bs zones' u got)
        (allocate_subvols-PlacedAll req vgs size zones' svs rest us made))
