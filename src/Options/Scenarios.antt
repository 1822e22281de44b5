-- ===== src/Options/Scenarios.antt =====
-- Values of options: tests, and the theorems at concrete inputs. Whole numbers stand for floats.
use glusterd.Prelude.{
  ℕ, ◌≡◌, ◌↔◌, ◌⊎◌, refl, Bool, true, false, none, some, [], ◌∷◌, bytes_eq, codes, Result, ok, ltb,
  nat_beq, ℤ, pos,
}
use glusterd.Text.{
  NumError, is_one_of, split, has_prefix, trim_suffix, trim_left, trim_right, parse_int, itoa,
}
use glusterd.Options.{
  OptionType, min_only, both, invalid_range, panicked, Floats, Formats, Opt, is_unbounded,
  validate_range, validate_bool, string_to_boolean, validate_time, split_unit, validate_size_list,
  validate_sizes, size_in_bytes, validate_percent, is_in_bytes,
}
use glusterd.Options.Ranges.{validate_range_lem}
use glusterd.Options.Booleans.{validate_bool-string_to_boolean}

abbrev number : Result NumError ℤ → ℕ × Bool
number (ok (pos n)) = (n, false)
number _ = (0, true)

abbrev whole : Floats
whole = record {
  F = ℕ;
  parse_float = λ s. number (parse_int s);
  less = ltb;
  is_zero = λ n. nat_beq n 0;
  zero_value = 0;
  hundred = 100;
}

abbrev hosts : Formats
hosts = record {
  is_float = λ s. true;
  is_int = λ s. true;
  is_host = λ s. is_one_of s ("a" ∷ "b" ∷ []);
  is_ip = λ s. false;
  is_cidr = λ s. false;
  is_file_path = λ s. true;
  is_abs = λ s. true;
}

-- At least 5: the maximum is not given.
abbrev at_least_five : Opt whole
at_least_five = record {
  opt_type = OptionType.int;
  value = [];
  min = 5;
  max = 0;
  validate_type = min_only;
}

abbrev any_number : Opt whole
any_number = record {
  opt_type = OptionType.time;
  value = [];
  min = 0;
  max = 0;
  validate_type = both;
}

-- A minimum alone lets nothing through.
seven_refused : validate_range whole at_least_five (codes "7") ≡ some invalid_range
unfolding validate_range parse_int
seven_refused = refl

ten_minutes : validate_time whole any_number (codes "10min") ≡ none
unfolding validate_time split_unit has_prefix trim_suffix parse_int itoa validate_range
ten_minutes = refl

no_value : validate_percent whole [] ≡ some panicked
unfolding validate_percent has_prefix parse_int
no_value = refl

-- The unit TB is not known: the size before it is tested once more.
unit_unknown : validate_size_list (codes "512KB,1TB") ≡ none
unfolding validate_size_list split validate_sizes trim_left trim_right has_prefix is_in_bytes
    parse_int size_in_bytes is_one_of
unit_unknown = refl

validate_range_lem_example : (validate_range whole at_least_five (codes "7") ≡ none) ↔ (
    ((number (parse_int (codes "7"))).1 ≡ false)
    × ((is_unbounded whole at_least_five ≡ true)
        ⊎ ((ltb (number (parse_int (codes "7"))).0 5 ≡ false)
            × (ltb 0 (number (parse_int (codes "7"))).0 ≡ false))))
validate_range_lem_example = validate_range_lem whole at_least_five (codes "7")

validate_bool-string_to_boolean_example :
    (validate_bool (codes "Yes") ≡ none) ↔ ((b : Bool) × (string_to_boolean (codes "Yes") ≡ ok b))
validate_bool-string_to_boolean_example = validate_bool-string_to_boolean (codes "Yes")
