-- ===== src/Text/Suffix.antt =====
-- `strings.HasSuffix` and `strings.TrimSuffix`.
use mathlib.Core.List.{reverse, reverse-append}
use glusterd.Prelude.{
  ◌-◌, ◌≡◌, refl, Bool, true, false, ◌&&◌, [], ◌∷◌, ◌++◌, Bytes, nat_beq, length, take,
  if◌then◌else◌, arith, length-append, take_of_append, nat_beq_iff,
}

unfoldable pub has_prefix : Bytes → Bytes → Bool
has_prefix s [] = true
has_prefix [] (d ∷ p) = false
has_prefix (c ∷ s) (d ∷ p) = nat_beq c d && has_prefix s p

abbrev pub has_suffix : Bytes → Bytes → Bool
has_suffix s t = has_prefix (reverse s) (reverse t)

unfoldable pub trim_suffix : Bytes → Bytes → Bytes
trim_suffix s t = if has_suffix s t then take (length s - length t) s else s

pub has_prefix-append : (s t : Bytes) → has_prefix (s ++ t) s ≡ true
unfolding has_prefix
has_prefix-append [] t = refl
has_prefix-append (c ∷ s) t = ground (arith, nat_beq_iff c c, has_prefix-append s t)

pub has_suffix-append : (s t : Bytes) → has_suffix (s ++ t) t ≡ true
has_suffix-append s t = rw (reverse-append s t) (has_prefix-append (reverse t) (reverse s))

pub trim_suffix-append : (s t : Bytes) → trim_suffix (s ++ t) t ≡ s
unfolding trim_suffix
trim_suffix-append s t =
    ground (arith, has_suffix-append s t, length-append s t, take_of_append s t)
