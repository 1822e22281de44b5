-- ===== src/Options/Ranges.antt =====
-- Which numbers `ValidateRange` lets through.
use glusterd.Prelude.{◌≡◌, ◌⊎◌, ◌↔◌, inl, inr, true, false, none, Bytes, arith, Bool-cases}
use glusterd.Options.{Floats, Opt, is_unbounded, validate_range}

module _ (fl : Floats) where
  open fl use {parse_float, less}

  -- A value passes exactly if it is a number that, unless both limits are checked and both are 0, is
  -- not below the minimum and not above the maximum: the maximum also where only the minimum is to be
  -- checked, and the other way round.
  pub validate_range_lem :
      (o : Opt fl) (val : Bytes)
      → (validate_range fl o val ≡ none) ↔ (
          ((parse_float val).1 ≡ false)
          × ((is_unbounded fl o ≡ true)
              ⊎ ((less (parse_float val).0 o.min ≡ false)
                  × (less o.max (parse_float val).0 ≡ false))))
  unfolding validate_range
  validate_range_lem o val =
      let (v, failed) = parse_float val in
      elim (Bool-cases (is_unbounded fl o)) [
        | inl free ↦ (λ h. (ground arith, inl free), λ h. ground (arith, h.0, free))
        | inr bounded ↦ (
          λ h. (ground arith, inr (ground arith)),
          λ h. elim h.1 [
            | inl free ↦ absurd (ground (arith, free, bounded))
            | inr (lo, hi) ↦ ground (arith, h.0, lo, hi, bounded)
          ],
        )
      ]
