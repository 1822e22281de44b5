-- ===== src/Options.antt =====
-- glusterd2/options/options.go: whether a value can be set for an option. Go's float64 and the
-- package govalidator are parameters: `Floats` and `Formats`. An error is the answer `some`, and so is
-- a panic (`panicked`), where the code reads past the ends of a text.
pub mod Ranges
pub mod Booleans
pub mod Lists
pub mod Units
mod Values
mod Scenarios
unfoldable pub use Values.*
use glusterd.Prelude.{
  ℕ, ◌-◌, ◌*◌, ◌%◌, ◌^◌, String, Bool, true, false, not, ◌&&◌, ◌||◌, Option, none, some, List, [],
  ◌∷◌, Bytes, codes, bytes_eq, ◌==◌, ltb, nat_beq, length, take, drop, Result, ok, err,
  if◌then◌else◌, ℤ, bits_64, mul_64,
}
use glusterd.Text.{
  NumError, has_suffix, trim_suffix, trim_space, lower, is_one_of, has_code, contains_any, split,
  parse_int, itoa,
}

pub data OptionType : Type 0 where
  any str int sizet percent percent_or_sizet bool xlator path time double internet_address :
      OptionType
  internet_address_list priority_list size_list client_auth_addr : OptionType

pub data OptionValidateType : Type 0 where
  both min_only max_only : OptionValidateType

-- float64, with `strconv.ParseFloat`: its value and whether it reports an error.
pub record Floats : Type 1 where
  pub F : Type 0
  pub parse_float : Bytes → F × Bool
  -- `<`
  pub less : F → F → Bool
  -- `== 0`
  pub is_zero : F → Bool
  pub zero_value : F
  pub hundred : F

module _ (fl : Floats) where
  open fl use {F, parse_float, less, is_zero, zero_value, hundred}

  -- One option of a translator.
  pub record Opt : Type 0 where
    pub opt_type : OptionType
    pub value : List Bytes
    pub min : F
    pub max : F
    pub validate_type : OptionValidateType

  abbrev pub is_unbounded : Opt → Bool
  is_unbounded o = elim o.validate_type [ both ↦ is_zero o.min && is_zero o.max | _ ↦ false ]

  unfoldable pub validate_range : Opt → Bytes → Option OptError
  validate_range o val =
      let (v, failed) = parse_float val in
      if failed
      then some not_a_float
      else if is_unbounded o
      then none
      else if elim o.validate_type [ min_only ↦ less v o.min | _ ↦ false ]
      then some invalid_range
      else if elim o.validate_type [ max_only ↦ less o.max v | _ ↦ false ]
      then some invalid_range
      else if less v o.min || less o.max v
      then some invalid_range
      else none

  unfoldable pub validate_double : Formats → Opt → Bytes → Option OptError
  validate_double fm o val = if fm.is_float val then validate_range o val else some invalid_arg

  unfoldable pub validate_int : Formats → Opt → Bytes → Option OptError
  validate_int fm o val = if fm.is_int val then validate_range o val else some invalid_arg

  -- The percentage and the error, before the test of its range.
  abbrev read_percent : Bytes → F × Option OptError
  read_percent val =
      if is_at b'%' (first_code val)
      then (zero_value, some invalid_arg)
      else let number = (if has_suffix val (codes "%") then take (length val - 1) val else val) in
        let (v, failed) = parse_float number in (v, if failed then some not_a_float else none)

  unfoldable pub validate_percent : Bytes → Option OptError
  validate_percent val =
      let (v, e) = read_percent val in
      if val == []
      then some panicked
      else if less v zero_value || less hundred v
      then some invalid_range
      else e

  unfoldable pub validate_percent_or_size : Opt → Bytes → Option OptError
  validate_percent_or_size o val =
      if has_code b'%' val then validate_percent val else validate_range o val

  unfoldable pub validate_str : Opt → Bytes → Option OptError
  validate_str o val =
      let t = trim_space val in
      if nat_beq (length t) 0
      then some empty_arg
      else if nat_beq (length o.value) 0
      then none
      else if is_among t o.value
      then none
      else some invalid_arg

  unfoldable pub validate_time : Opt → Bytes → Option OptError
  validate_time o val =
      let (number, multiplier) = split_unit time_units val in
      elim (parse_int number) [
        | err e ↦ some (not_an_int e)
        | ok n ↦ validate_range o (itoa (mul_64 n multiplier))
      ]

  -- `Validate`
  unfoldable pub validate : Formats → Opt → Bytes → Option OptError
  validate fm o val = elim o.opt_type [
    | bool ↦ validate_bool val
    | client_auth_addr ↦ validate_internet_address_list fm val
    | double ↦ validate_double fm o val
    | int ↦ validate_int fm o val
    | internet_address ↦ validate_internet_address fm val
    | internet_address_list ↦ validate_internet_address_list fm val
    | path ↦ validate_path fm val
    | percent ↦ validate_percent val
    | percent_or_sizet ↦ validate_percent_or_size o val
    | priority_list ↦ validate_priority_or_size val
    | size_list ↦ validate_size_list val
    | sizet ↦ validate_range o val
    | str ↦ validate_str o val
    | time ↦ validate_time o val
    | xlator ↦ some invalid_arg
    | any ↦ some invalid_arg
  ]
