-- ===== src/BricksPlanner/Devices/Order.antt =====
-- The order of the devices: the largest first, and none lost.
use mathlib.Core.List.{Memᴰ}
use mathlib.Core.List.Memᴰ as MemD
use glusterd.Prelude.{
  ◌≤◌, ◌≡◌, ◌⊎◌, ◌↔◌, inl, inr, List, [], ◌∷◌, leb, arith, string_eq, All, Bool-cases,
}
use glusterd.BricksPlanner.Devices.{Vg, insert_vg, sort_vgs}

-- The largest first.
abbrev pub IsDescending : List Vg → Type 0
IsDescending [] = Unit
IsDescending (v ∷ vs) = All (λ w. w.available_size ≤ v.available_size) vs × IsDescending vs

insert_vg-All : (P : Vg → Type 0) (v : Vg) (vs : List Vg) → P v → All P vs → All P (insert_vg v vs)
unfolding insert_vg
insert_vg-All P v [] pv ps = (pv, tt)
insert_vg-All P v (w ∷ ws) pv (pw, ps) = elim (Bool-cases (leb w.available_size v.available_size)) [
  | inl h ↦ rw h (pv, (pw, ps))
  | inr h ↦ rw h (pw, insert_vg-All P v ws pv ps)
]

All-le :
    (v w : Vg) (vs : List Vg)
    → w.available_size ≤ v.available_size
    → All (λ u. u.available_size ≤ w.available_size) vs
    → All (λ u. u.available_size ≤ v.available_size) vs
All-le v w [] h hs = tt
All-le v w (u ∷ us) h (hu, hs) = (omega (arith, h, hu), All-le v w us h hs)

insert_vg-IsDescending : (v : Vg) (vs : List Vg) → IsDescending vs → IsDescending (insert_vg v vs)
unfolding insert_vg
insert_vg-IsDescending v [] d = (tt, tt)
insert_vg-IsDescending v (w ∷ ws) (le, d) =
    elim (Bool-cases (leb w.available_size v.available_size)) [
      | inl h ↦
          let wv : w.available_size ≤ v.available_size = ground (arith, h) in
          rw h ((wv, All-le v w ws wv le), (le, d))
      | inr h ↦
          let vw : v.available_size ≤ w.available_size = ground (arith, h) in
          rw h (
            insert_vg-All (λ u. u.available_size ≤ w.available_size) v ws vw le,
            insert_vg-IsDescending v ws d,
          )
    ]

pub sort_vgs-IsDescending : (vs : List Vg) → IsDescending (sort_vgs vs)
unfolding sort_vgs
sort_vgs-IsDescending [] = tt
sort_vgs-IsDescending (v ∷ vs) = insert_vg-IsDescending v (sort_vgs vs) (sort_vgs-IsDescending vs)

insert_vg-mem : (u v : Vg) (vs : List Vg) → Memᴰ u (insert_vg v vs) ↔ ((u ≡ v) ⊎ Memᴰ u vs)
unfolding insert_vg
insert_vg-mem u v [] =
    (λ m. MemD.cases_cons m, λ h. elim h [ inl e ↦ Memᴰ.head e | inr m ↦ Memᴰ.tail m ])
insert_vg-mem u v (w ∷ ws) = elim (Bool-cases (leb w.available_size v.available_size)) [
  | inl h ↦
      rw h (λ m. MemD.cases_cons m, λ h'. elim h' [ inl e ↦ Memᴰ.head e | inr m ↦ Memᴰ.tail m ])
  | inr h ↦ rw h (
    λ m. elim (MemD.cases_cons m) [
      | inl e ↦ inr (Memᴰ.head e)
      | inr m' ↦ elim ((insert_vg-mem u v ws).0 m') [ inl e ↦ inl e | inr t ↦ inr (Memᴰ.tail t) ]
    ],
    λ h'. elim h' [
      | inl e ↦ Memᴰ.tail ((insert_vg-mem u v ws).1 (inl e))
      | inr m ↦ elim (MemD.cases_cons m) [
        | inl e ↦ Memᴰ.head e
        | inr t ↦ Memᴰ.tail ((insert_vg-mem u v ws).1 (inr t))
      ]
    ],
  )
]

pub sort_vgs-mem : (u : Vg) (vs : List Vg) → Memᴰ u (sort_vgs vs) ↔ Memᴰ u vs
unfolding sort_vgs
sort_vgs-mem u [] = (λ m. m, λ m. m)
sort_vgs-mem u (v ∷ vs) =
    let (out, into) = insert_vg-mem u v (sort_vgs vs) in
    (
      λ m. elim (out m) [ inl e ↦ Memᴰ.head e | inr t ↦ Memᴰ.tail ((sort_vgs-mem u vs).0 t) ],
      λ m. elim (MemD.cases_cons m) [
        | inl e ↦ into (inl e)
        | inr t ↦ into (inr ((sort_vgs-mem u vs).1 t))
      ],
    )
