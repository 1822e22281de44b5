-- ===== src/Brickmux/Target.antt =====
-- The brick that is chosen, on every way through glusterd2/brickmux/compat.go.
use mathlib.Core.List.{Memᴰ}
use mathlib.Core.Path.{subst}
use glusterd.Prelude.{
  ℕ, ◌≡◌, if◌then◌else◌, ◌≢◌, refl, ◌⊎◌, inl, inr, Bool, true, false, Option, none, some, List, [],
  ◌∷◌, Result, ok, err, not, arith, string_eq, nat_eq, eq_iff, Bool-cases, Option-cases, ltb,
  nat_beq,
}
use glusterd.Pmap.{search_by_brick_path, num_of_bricks_on_port}
use glusterd.Brickmux.{
  Brickinfo, Volinfo, Host, get_local_bricks, is_started, has_room, is_target, first_target,
  validate_bmux_target, same_options, is_compatible, any_started, scan, settle,
  find_compatible_brick, volume_or,
}

-- A brick other than `b` whose process runs on a port of the port map that has room.
unfoldable pub IsAttachable : Host → Brickinfo → ℕ → Brickinfo → Type 0
IsAttachable h b max_bricks t =
    (b.id ≢ t.id)
    × (h.is_running t ≡ true)
    × ((port : ℕ) × (n : ℕ) × (search_by_brick_path h.registry t.path ≡ ok port)
        × (num_of_bricks_on_port h.registry port ≡ ok n)
        × (n ≢ max_bricks))

-- The volumes whose bricks may be taken.
unfoldable pub IsCandidate : Volinfo → List Volinfo → Volinfo → Type 0
IsCandidate own volumes v =
    (v ≡ own)
    ⊎ (Memᴰ v volumes × (is_started v.state ≡ true) × (same_options v.options own.options ≡ true))

Result-cases {ℓ κ} :
    {E : Type ℓ} {A : Type κ} (r : Result E A) → ((a : A) × (r ≡ ok a)) ⊎ ((e : E) × (r ≡ err e))
Result-cases (ok a) = inl (a, refl)
Result-cases (err e) = inr (e, refl)

has_room_lem :
    (h : Host) (max_bricks : ℕ) (t : Brickinfo)
    → has_room h max_bricks t ≡ true
    → ((port : ℕ) × (n : ℕ) × (search_by_brick_path h.registry t.path ≡ ok port)
        × (num_of_bricks_on_port h.registry port ≡ ok n)
        × (n ≢ max_bricks))
unfolding has_room
has_room_lem h max_bricks t e = elim (Result-cases (search_by_brick_path h.registry t.path)) [
  | inl (port, found) ↦ elim (Result-cases (num_of_bricks_on_port h.registry port)) [
    | inl (n, counted) ↦
        let room : not (nat_beq n max_bricks) ≡ true = ground (arith, e, found, counted) in
        (port, n, found, counted, ground (arith, room))
    | inr (e', none_there) ↦ absurd (ground (arith, e, found, none_there))
  ]
  | inr (e', unknown) ↦ absurd (ground (arith, e, unknown))
]

is_target-IsAttachable :
    (h : Host) (b : Brickinfo) (max_bricks : ℕ) (t : Brickinfo)
    → is_target h b max_bricks t ≡ true
    → IsAttachable h b max_bricks t
unfolding is_target IsAttachable
is_target-IsAttachable h b max_bricks t e =
    (ground (arith, eq_iff b.id t.id), ground arith, has_room_lem h max_bricks t (ground arith))

first_target_lem :
    (h : Host) (b : Brickinfo) (max_bricks : ℕ) (locals : List Brickinfo) (t : Brickinfo)
    → first_target h b max_bricks locals ≡ some t
    → Memᴰ t locals × (is_target h b max_bricks t ≡ true)
unfolding first_target
first_target_lem h b max_bricks [] t e = ground (arith, e)
first_target_lem h b max_bricks (local ∷ locals) t e =
    elim (Bool-cases (is_target h b max_bricks local)) [
      | inl hit ↦
          let t≡ : t ≡ local = ground (arith, e, hit) in (Memᴰ.head t≡, ground (arith, t≡, hit))
      | inr miss ↦
          let (m, good) = first_target_lem h b max_bricks locals t (ground (arith, e, miss)) in
          (Memᴰ.tail m, good)
    ]

validate_bmux_target_lem :
    (h : Host) (b : Brickinfo) (v : Volinfo) (max_bricks : ℕ) (t : Brickinfo)
    → validate_bmux_target h b v max_bricks ≡ some t
    → Memᴰ t (get_local_bricks h v) × IsAttachable h b max_bricks t
unfolding validate_bmux_target
validate_bmux_target_lem h b v max_bricks t e =
    let (m, good) = first_target_lem h b max_bricks (get_local_bricks h v) t e in
    (m, is_target-IsAttachable h b max_bricks t good)

-- The brick `t` may be taken: it is a local brick of a candidate, and can be attached to.
pub IsChosen : Host → Brickinfo → Volinfo → List Volinfo → ℕ → Brickinfo → Type 0
IsChosen h b own volumes max_bricks t =
    ((v : Volinfo) × IsCandidate own volumes v × Memᴰ t (get_local_bricks h v))
    × IsAttachable h b max_bricks t

-- What the loop over the volumes leaves: a target volume is a candidate, and a target brick is good.
IsScanned :
    Host → Brickinfo → Volinfo → List Volinfo → ℕ → Option Volinfo × Option Brickinfo → Type 0
IsScanned h b own volumes max_bricks (target, brick) =
    ((v : Volinfo) → target ≡ some v → IsCandidate own volumes v)
    × ((t : Brickinfo) → brick ≡ some t → IsChosen h b own volumes max_bricks t)

is_compatible-IsCandidate :
    (h : Host) (own v : Volinfo) (volumes : List Volinfo)
    → Memᴰ v volumes
    → is_compatible h own v ≡ true
    → IsCandidate own volumes v
unfolding is_compatible IsCandidate
is_compatible-IsCandidate h own v volumes m e = inr (m, ground arith, ground arith)

scan-IsScanned :
    (h : Host) (b : Brickinfo) (own : Volinfo) (volumes : List Volinfo) (max_bricks : ℕ)
    (target : Option Volinfo) (vs : List Volinfo)
    → ((v : Volinfo) → target ≡ some v → IsCandidate own volumes v)
    → ((v : Volinfo) → Memᴰ v vs → Memᴰ v volumes)
    → IsScanned h b own volumes max_bricks (scan h b own max_bricks target vs)
unfolding scan IsScanned IsChosen
scan-IsScanned h b own volumes max_bricks target [] good sub =
    (good, λ t e. absurd (ground (arith, e)))
scan-IsScanned h b own volumes max_bricks target (v ∷ vs) good sub =
    elim (Bool-cases (is_compatible h own v)) [
      | inr skip ↦
          rw skip
            (scan-IsScanned h b own volumes max_bricks target vs good (λ w m. sub w (Memᴰ.tail m)))
      | inl fits ↦
          let here = is_compatible-IsCandidate h own v volumes (sub v (Memᴰ.head refl)) fits in
          let this : (w : Volinfo)
              → ◌≡◌ {A = Option Volinfo} (some v) (some w)
              → IsCandidate own volumes w =
            λ w e. subst (IsCandidate own volumes) (ground (arith, e)) here in
          elim (Bool-cases (ltb 0 max_bricks)) [
            | inr unlimited ↦ rw (fits, unlimited) ((this, λ t e. absurd (ground (arith, e))))
            | inl limited ↦ elim (Option-cases (validate_bmux_target h b v max_bricks)) [
              | inl full ↦
                  rw (fits, limited, full)
                    (scan-IsScanned h b own volumes max_bricks (some v) vs this
                      (λ w m. sub w (Memᴰ.tail m)))
              | inr (t, hit) ↦
                  let (m, room) = validate_bmux_target_lem h b v max_bricks t hit in
                  rw (fits, limited, hit)
                    ((
                      this,
                      λ u e.
                          subst (IsChosen h b own volumes max_bricks) (ground (arith, e))
                            ((v, here, m), room),
                    ))
            ]
          ]
    ]

source-IsCandidate :
    (own : Volinfo) (volumes : List Volinfo) (limited : Bool) (target : Option Volinfo)
    → ((v : Volinfo) → target ≡ some v → IsCandidate own volumes v)
    → IsCandidate own volumes (if limited then own else volume_or own target)
unfolding IsCandidate
source-IsCandidate own volumes true target vols = inl refl
source-IsCandidate own volumes false none vols = inl refl
source-IsCandidate own volumes false (some v) vols = vols v refl

settle_lem :
    (h : Host) (b : Brickinfo) (own : Volinfo) (volumes : List Volinfo) (max_bricks : ℕ)
    (found : Option Volinfo × Option Brickinfo)
    → IsScanned h b own volumes max_bricks found
    → (t : Brickinfo) → settle h b own max_bricks found ≡ ok t
    → IsChosen h b own volumes max_bricks t
unfolding settle IsScanned IsChosen
settle_lem h b own volumes max_bricks (target, some u) (vols, bricks) t e =
    bricks t (ground (arith, e))
settle_lem h b own volumes max_bricks (target, none) (vols, bricks) t e =
    let source = if ltb 0 max_bricks then own else volume_or own target in
    elim (Option-cases (validate_bmux_target h b source max_bricks)) [
      | inl nothing ↦ absurd (ground (arith, e, nothing))
      | inr (u, hit) ↦
          let t≡ : u ≡ t = ground (arith, e, hit) in
          let (m, room) = validate_bmux_target_lem h b source max_bricks u hit in
          subst (IsChosen h b own volumes max_bricks) t≡
            ((source, source-IsCandidate own volumes (ltb 0 max_bricks) target vols, m), room)
    ]

-- A brick that is chosen is a local brick of the own volume, or of a started volume of the list with
-- the same options; it is not the brick itself, it runs, it has a port, and the number of bricks on
-- that port is not the limit.
pub find_compatible_brick-IsChosen :
    (h : Host) (b : Brickinfo) (own : Volinfo) (volumes : List Volinfo) (max_bricks : ℕ)
    (t : Brickinfo)
    → find_compatible_brick h b own volumes max_bricks ≡ ok t
    → IsChosen h b own volumes max_bricks t
unfolding find_compatible_brick IsScanned IsCandidate
find_compatible_brick-IsChosen h b own volumes max_bricks t e =
    elim (Bool-cases (any_started volumes)) [
      | inl some_started ↦
          settle_lem h b own volumes max_bricks (scan h b own max_bricks none volumes)
            (scan-IsScanned h b own volumes max_bricks none volumes
              (λ v e'. absurd (ground (arith, e'))) (λ v m. m))
            t (ground (arith, e, some_started))
      | inr none_started ↦
          settle_lem h b own volumes max_bricks (some own, none)
            ((λ v e'. inl (ground (arith, e'))), λ u e'. absurd (ground (arith, e'))) t
            (ground (arith, e, none_started))
    ]
