-- ===== src/Options/Units.antt =====
-- The units of time.
use mathlib.Core.List.{append_assoc, reverse-append}
use glusterd.Prelude.{
  ℕ, ◌+◌, ◌-◌, ◌*◌, ◌≡◌, refl, sym, ap, ◌∙◌, false, ◌&&◌, none, some, [], ◌∷◌, ◌++◌, Bytes, codes,
  err, arith, leb,
}
use glusterd.Text.{
  syntax, digits_value, unsigned, parse_int, has_suffix, has_prefix, has_suffix-append,
  trim_suffix-append,
}
use glusterd.Options.{Floats, Opt, not_an_int, time_units, split_unit, validate_time}

digits_value-last :
    (acc : ℕ) (s : Bytes) (c : ℕ)
    → (leb b'0' c && leb c b'9') ≡ false
    → digits_value acc (s ++ c ∷ []) ≡ none
unfolding digits_value
digits_value-last acc [] c h = ground arith
digits_value-last acc (d ∷ s) c h = ground (arith, digits_value-last (acc * 10 + (d - b'0')) s c)

unsigned-last :
    (s : Bytes) (c : ℕ) → (leb b'0' c && leb c b'9') ≡ false → unsigned (s ++ c ∷ []) ≡ none
unsigned-last [] c h = digits_value-last 0 [] c h
unsigned-last (d ∷ s) c h = digits_value-last 0 (d ∷ s) c h

-- A text whose last character is no digit is no number.
parse_int-last :
    (d : ℕ) (s : Bytes) (c : ℕ)
    → (leb b'0' c && leb c b'9') ≡ false
    → parse_int (d ∷ (s ++ c ∷ [])) ≡ err syntax
unfolding parse_int
parse_int-last d s c h = ground (arith, unsigned-last s c h, unsigned-last (d ∷ s) c h)

day_is_no_number : (w : Bytes) → parse_int (w ++ codes "day") ≡ err syntax
day_is_no_number [] = parse_int-last b'd' (codes "a") b'y' refl
day_is_no_number (d ∷ w) =
    ap parse_int (ap (◌∷◌ d) (sym (append_assoc w (codes "da") (codes "y"))))
    ∙ parse_int-last d (w ++ codes "da") b'y' refl

split_unit_days : (w : Bytes) → split_unit time_units (w ++ codes "days") ≡ (w ++ codes "day", 1)
unfolding split_unit has_prefix
split_unit_days w =
    let ends_in_s : (w ++ codes "days") ≡ (w ++ codes "day") ++ codes "s" =
      sym (append_assoc w (codes "day") (codes "s")) in
    let no_sec : has_suffix (w ++ codes "days") (codes "sec") ≡ false =
      rw (reverse-append w (codes "days")) refl in
    rw no_sec (
      rw ends_in_s (
        rw
          (
            has_suffix-append (w ++ codes "day") (codes "s"),
            trim_suffix-append (w ++ codes "day") (codes "s"),
          )
          refl))

-- Days are a unit of time, but a value that ends in `days` is never let through: the test for `s`
-- comes first, and `day` is left on the number, which is then none.
validate_time_days :
    (fl : Floats) (o : Opt fl) (w : Bytes)
    → validate_time fl o (w ++ codes "days") ≡ some (not_an_int syntax)
unfolding validate_time
validate_time_days fl o w = ground (arith, split_unit_days w, day_is_no_number w)
