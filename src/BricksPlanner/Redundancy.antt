-- ===== src/BricksPlanner/Redundancy.antt =====
-- `GetRedundancy` of glusterd2/volume/volume-utils.go: how many bricks of a disperse subvolume are
-- redundant if the request does not say so.
use native.Mathlib.Nat.{pow-suc}
use native.Mathlib.Numerals.{towards_suc}
use glusterd.Prelude.{
  Bool-cases, inl, inr, ap, ℕ, zero, suc, ◌+◌, ◌-◌, ◌*◌, ◌/◌, ◌%◌, ◌^◌, ◌≤◌, ◌<◌, ◌≡◌, ◌⊎◌, refl,
  nat_beq, arith, if◌then◌else◌,
}

-- The loop: `temp` is halved until it is zero, and `l` counts the rounds. 64 rounds are enough.
unfoldable pub shift_rounds : ℕ → ℕ → ℕ → ℕ
shift_rounds zero temp l = l
shift_rounds (suc fuel) temp l =
    let rest = shift_rounds fuel (temp / 2) (l + 1) in if nat_beq temp 0 then l else rest

-- `disperse & ^(1 << l)`: the bit `l` is cleared.
abbrev pub clear_bit : ℕ → ℕ → ℕ
clear_bit n l = n - n / 2 ^ l % 2 * 2 ^ l

unfoldable pub get_redundancy : ℕ → ℕ
get_redundancy disperse =
    let l = shift_rounds 64 (disperse / 2) 0 in
    let red = clear_bit disperse l in if nat_beq red 0 then 1 else red

pow_two_suc : (l : ℕ) → 2 ^ (l + 1) ≡ 2 * 2 ^ l
pow_two_suc l = simp towards_suc (omega (arith, pow-suc 2 l))

-- One round: the multiples that bound `n` on both sides.
round_bounds :
    (temp p n : ℕ)
    → temp * (2 * p) ≤ n
    → n < (temp + 1) * (2 * p)
    → (temp / 2 * (2 * (2 * p)) ≤ n) × (n < (temp / 2 + 1) * (2 * (2 * p)))
round_bounds temp p n low high =
    let q = temp / 2 in
    let parity : (temp ≡ q + q) ⊎ (temp ≡ q + q + 1) = omega arith in
    elim parity [
      | inl even ↦ omega (arith, ap (λ (t : ℕ). t * p) even)
      | inr odd ↦ omega (arith, ap (λ (t : ℕ). t * p) odd)
    ]

-- The loop ends with the exponent of the highest power of two in the number.
shift_rounds_lem :
    (fuel temp l n : ℕ)
    → temp < 2 ^ fuel
    → temp * (2 * 2 ^ l) ≤ n
    → n < (temp + 1) * (2 * 2 ^ l)
    → 2 ^ l ≤ n
    → let k = shift_rounds fuel temp l in (2 ^ k ≤ n) × (n < 2 * 2 ^ k)
unfolding shift_rounds
shift_rounds_lem zero temp l n small low high pow =
    let none_left : temp ≡ 0 = omega arith in
    (pow, omega (arith, ap (λ (t : ℕ). t * 2 ^ l) none_left))
shift_rounds_lem (suc fuel) temp l n small low high pow = elim (Bool-cases (nat_beq temp 0)) [
  | inl done ↦
      let none_left : temp ≡ 0 = ground arith in
      rw done (pow, omega (arith, ap (λ (t : ℕ). t * 2 ^ l) none_left))
  | inr more ↦
      let some_left : temp ≡ temp - 1 + 1 = ground arith in
      let (low', high') = round_bounds temp (2 ^ l) n low high in
      rw more (
        shift_rounds_lem fuel (temp / 2) (l + 1) n (omega (arith, pow_two_suc fuel, small))
          (rw pow_two_suc low') (rw pow_two_suc high')
          (rw pow_two_suc (omega (arith, ap (λ (t : ℕ). t * 2 ^ l) some_left))))
]

div_once : (n p : ℕ) → p ≤ n → n < 2 * p → n / p ≡ 1
div_once n p low high = grind arith

clear_highest : (n l : ℕ) → 2 ^ l ≤ n → n < 2 * 2 ^ l → clear_bit n l ≡ n - 2 ^ l
clear_highest n l low high = rw (div_once n (2 ^ l) low high) (omega arith)

-- The loop on the halved number ends within 64 rounds.
highest :
    (disperse : ℕ)
    → 3 ≤ disperse
    → disperse < 2 ^ 64
    → let l = shift_rounds 64 (disperse / 2) 0 in (2 ^ l ≤ disperse) × (disperse < 2 * 2 ^ l)
highest disperse three bound =
    shift_rounds_lem 64 (disperse / 2) 0 disperse (omega arith) (omega arith) (omega arith)
      (omega arith)

-- For 3 bricks or more the redundancy is at least one and less than half of the bricks, as the
-- planner asks of a request, and the bricks that hold data are a power of two, or all but one of a
-- power of two.
pub get_redundancy_lem :
    (disperse : ℕ)
    → 3 ≤ disperse
    → disperse < 2 ^ 64
    → (1 ≤ get_redundancy disperse)
      × (2 * get_redundancy disperse < disperse)
      × ((l : ℕ) × ((disperse ≡ get_redundancy disperse + 2 ^ l)
            ⊎ ((disperse ≡ 2 ^ l) × (get_redundancy disperse ≡ 1))))
unfolding get_redundancy
get_redundancy_lem disperse three bound =
    let l = shift_rounds 64 (disperse / 2) 0 in
    let (low, high) = highest disperse three bound in
    let cleared = clear_highest disperse l low high in
    elim (Bool-cases (nat_beq (disperse - 2 ^ l) 0)) [
      | inl power ↦ rw (cleared, power) (omega arith, omega arith, (l, inr (ground arith, refl)))
      | inr other ↦ rw (cleared, other) (ground arith, omega arith, (l, inl (omega arith)))
    ]
