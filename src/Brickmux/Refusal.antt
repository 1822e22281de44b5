-- ===== src/Brickmux/Refusal.antt =====
-- When glusterd2/brickmux/compat.go finds no brick, under a limit on the bricks of a process.
use mathlib.Core.List.{Memᴰ}
use mathlib.Core.List.Memᴰ as MemD
use mathlib.Core.Path.{subst}
use glusterd.Prelude.{
  ℕ, ◌≡◌, ◌<◌, refl, sym, inl, inr, true, false, Option, none, some, List, [], ◌∷◌, err, arith,
  string_eq, nat_eq, eq_iff, Bool-cases, Option-cases, ltb, nat_beq, length, ◌==◌,
}
use glusterd.Brickmux.{
  Brickinfo, Volinfo, Host, no_compat, get_local_bricks, is_started, has_room, is_target,
  first_target, validate_bmux_target, same_options, is_compatible, any_started, scan, settle,
  find_compatible_brick,
}
use glusterd.Brickmux.Target.{IsAttachable, IsCandidate}

IsAttachable-is_target :
    (h : Host) (b : Brickinfo) (max_bricks : ℕ) (t : Brickinfo)
    → IsAttachable h b max_bricks t
    → is_target h b max_bricks t ≡ true
unfolding is_target IsAttachable has_room
IsAttachable-is_target h b max_bricks t (other, runs, (port, n, found, counted, room)) =
    let differs : (b.id == t.id) ≡ false = ground (arith, other, eq_iff b.id t.id) in
    let below : nat_beq n max_bricks ≡ false = ground (arith, room) in
    ground (arith, differs, runs, found, counted, below)

first_target-none :
    (h : Host) (b : Brickinfo) (max_bricks : ℕ) (locals : List Brickinfo) (t : Brickinfo)
    → first_target h b max_bricks locals ≡ none
    → Memᴰ t locals
    → ¬ (is_target h b max_bricks t ≡ true)
unfolding first_target
first_target-none h b max_bricks [] t e m = absurd (MemD.not-nil m)
first_target-none h b max_bricks (local ∷ locals) t e m =
    let miss : is_target h b max_bricks local ≡ false = ground (arith, e) in
    elim (MemD.cases_cons m) [
      | inl t≡ ↦ λ hit. ground (arith, t≡, hit, miss)
      | inr m' ↦ first_target-none h b max_bricks locals t (ground (arith, e, miss)) m'
    ]

-- No brick of the volume can be attached to.
pub IsFull : Host → Brickinfo → ℕ → Volinfo → Type 0
IsFull h b max_bricks v =
    (t : Brickinfo) → Memᴰ t (get_local_bricks h v) → ¬ IsAttachable h b max_bricks t

validate_bmux_target-IsFull :
    (h : Host) (b : Brickinfo) (v : Volinfo) (max_bricks : ℕ)
    → validate_bmux_target h b v max_bricks ≡ none
    → IsFull h b max_bricks v
unfolding validate_bmux_target IsFull
validate_bmux_target-IsFull h b v max_bricks e t m good =
    first_target-none h b max_bricks (get_local_bricks h v) t e m
      (IsAttachable-is_target h b max_bricks t good)

scan-IsFull :
    (h : Host) (b : Brickinfo) (own : Volinfo) (max_bricks : ℕ) (target : Option Volinfo)
    (vs : List Volinfo)
    → 0 < max_bricks
    → (scan h b own max_bricks target vs).1 ≡ none
    → (v : Volinfo) → Memᴰ v vs
    → is_compatible h own v ≡ true
    → IsFull h b max_bricks v
unfolding scan
scan-IsFull h b own max_bricks target [] pos e v m fits = absurd (MemD.not-nil m)
scan-IsFull h b own max_bricks target (w ∷ vs) pos e v m fits =
    let limited : ltb 0 max_bricks ≡ true = ground (arith, pos) in
    elim (Bool-cases (is_compatible h own w)) [
      | inr skip ↦ elim (MemD.cases_cons m) [
        | inl v≡ ↦ absurd (ground (arith, v≡, fits, skip))
        | inr m' ↦ scan-IsFull h b own max_bricks target vs pos (rw skip at e) v m' fits
      ]
      | inl good ↦ elim (Option-cases (validate_bmux_target h b w max_bricks)) [
        | inr (t, hit) ↦ absurd (ground (arith, e, good, limited, hit))
        | inl nothing ↦ elim (MemD.cases_cons m) [
          | inl v≡ ↦
              subst (IsFull h b max_bricks) (sym v≡)
                (validate_bmux_target-IsFull h b w max_bricks nothing)
          | inr m' ↦
              scan-IsFull h b own max_bricks (some w) vs pos (rw (good, limited, nothing) at e) v m'
                fits
        ]
      ]
    ]

any_started-none :
    (vs : List Volinfo) (v : Volinfo)
    → any_started vs ≡ false
    → Memᴰ v vs
    → is_started v.state ≡ false
unfolding any_started
any_started-none [] v e m = absurd (MemD.not-nil m)
any_started-none (w ∷ vs) v e m = elim (MemD.cases_cons m) [
  | inl v≡ ↦ ground (arith, e, v≡)
  | inr m' ↦ any_started-none vs v (ground (arith, e)) m'
]

nonempty-length : (t : Brickinfo) (bs : List Brickinfo) → Memᴰ t bs → nat_beq (length bs) 0 ≡ false
nonempty-length t [] m = absurd (MemD.not-nil m)
nonempty-length t (b ∷ bs) m = ground arith

IsCandidate-is_compatible :
    (h : Host) (own v : Volinfo) (t : Brickinfo)
    → Memᴰ t (get_local_bricks h v)
    → is_started v.state ≡ true
    → same_options v.options own.options ≡ true
    → is_compatible h own v ≡ true
unfolding is_compatible
IsCandidate-is_compatible h own v t m started same =
    let some_local : nat_beq (length (get_local_bricks h v)) 0 ≡ false =
      nonempty-length t (get_local_bricks h v) m in
    ground (arith, some_local, started, same)

settle-refuses :
    (h : Host) (b : Brickinfo) (own : Volinfo) (max_bricks : ℕ)
    (found : Option Volinfo × Option Brickinfo)
    → 0 < max_bricks
    → settle h b own max_bricks found ≡ err no_compat
    → (found.1 ≡ none) × (validate_bmux_target h b own max_bricks ≡ none)
unfolding settle
settle-refuses h b own max_bricks (target, some t) pos e = absurd (ground (arith, e))
settle-refuses h b own max_bricks (target, none) pos e =
    let limited : ltb 0 max_bricks ≡ true = ground (arith, pos) in
    elim (Option-cases (validate_bmux_target h b own max_bricks)) [
      | inl nothing ↦ (refl, nothing)
      | inr (t, hit) ↦ absurd (ground (arith, e, limited, hit))
    ]

-- Under a limit above 0, the search ends with no brick only if no local brick of the own volume, and
-- none of a started volume of the list with the same options, is another brick that runs and has a
-- port whose number of bricks is not the limit.
find_compatible_brick-IsFull :
    (h : Host) (b : Brickinfo) (own : Volinfo) (volumes : List Volinfo) (max_bricks : ℕ)
    → 0 < max_bricks
    → find_compatible_brick h b own volumes max_bricks ≡ err no_compat
    → (v : Volinfo) → IsCandidate own volumes v
    → IsFull h b max_bricks v
unfolding find_compatible_brick IsCandidate IsFull
find_compatible_brick-IsFull h b own volumes max_bricks pos e v cand t m =
    elim (Bool-cases (any_started volumes)) [
      | inl found ↦
          let (no_target, own_full) =
            settle-refuses h b own max_bricks (scan h b own max_bricks none volumes) pos
              (ground (arith, e, found)) in
          elim cand [
            | inl v≡ ↦
                subst (IsFull h b max_bricks) (sym v≡)
                  (validate_bmux_target-IsFull h b own max_bricks own_full) t m
            | inr (listed, started, same) ↦
                scan-IsFull h b own max_bricks none volumes pos no_target v listed
                  (IsCandidate-is_compatible h own v t m started same) t m
          ]
      | inr absent ↦
          let (no_target, own_full) =
            settle-refuses h b own max_bricks (some own, none) pos (ground (arith, e, absent)) in
          elim cand [
            | inl v≡ ↦
                subst (IsFull h b max_bricks) (sym v≡)
                  (validate_bmux_target-IsFull h b own max_bricks own_full) t m
            | inr (listed, started, same) ↦
                absurd (ground (arith, started, any_started-none volumes v absent listed))
          ]
    ]
