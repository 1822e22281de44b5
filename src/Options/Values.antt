-- ===== src/Options/Values.antt =====
-- glusterd2/options/options.go: the validators that do not look at the option, and StringToBoolean. An
-- error is the answer `some`, and so is a panic (`panicked`), where the code reads past the ends of a
-- text.
use glusterd.Prelude.{
  ℕ, ◌-◌, ◌*◌, ◌%◌, ◌^◌, String, Bool, true, false, not, ◌||◌, Option, none, some, List, [], ◌∷◌,
  Bytes, codes, bytes_eq, ◌==◌, ltb, nat_beq, length, take, drop, Result, ok, err, if◌then◌else◌, ℤ,
  bits_64, mul_64,
}
use glusterd.Text.{
  NumError, has_suffix, trim_suffix, trim_space, lower, is_one_of, contains_any, split, parse_int,
}

pub data OptError : Type 0 where
  invalid_arg empty_arg invalid_range invalid_path not_absolute panicked : OptError
  not_a_float : OptError
  not_an_int : NumError → OptError

-- The tests of govalidator, with `filepath.IsAbs`.
pub record Formats : Type 0 where
  pub is_float : Bytes → Bool
  pub is_int : Bytes → Bool
  pub is_host : Bytes → Bool
  pub is_ip : Bytes → Bool
  pub is_cidr : Bytes → Bool
  pub is_file_path : Bytes → Bool
  pub is_abs : Bytes → Bool

-- `StringToBoolean`
unfoldable pub string_to_boolean : Bytes → Result OptError Bool
string_to_boolean val =
    if val == []
    then err empty_arg
    else if is_one_of (lower val) ("on" ∷ "yes" ∷ "true" ∷ "enable" ∷ "1" ∷ [])
    then ok true
    else if is_one_of (lower val) ("off" ∷ "no" ∷ "false" ∷ "disable" ∷ "0" ∷ [])
    then ok false
    else err invalid_arg

unfoldable pub validate_bool : Bytes → Option OptError
validate_bool val =
    if val == []
    then some empty_arg
    else if is_one_of (lower val)
        ("on" ∷ "yes" ∷ "true" ∷ "enable" ∷ "0" ∷ "off" ∷ "no" ∷ "false" ∷ "disable" ∷ "1" ∷ [])
    then none
    else some invalid_arg

-- `"* & # & ? & ^"`
abbrev wildcards : Bytes
wildcards = codes "* & # & ? & ^"

unfoldable pub validate_internet_address : Formats → Bytes → Option OptError
validate_internet_address fm val =
    if nat_beq (length val) 0
    then some invalid_arg
    else if fm.is_host val
    then none
    else if fm.is_ip val
    then none
    else if fm.is_cidr val
    then none
    else if contains_any val wildcards
    then none
    else some invalid_arg

unfoldable pub validate_addresses : Formats → List Bytes → Option OptError
validate_addresses fm [] = none
validate_addresses fm (ip ∷ iplist) =
    let rest = validate_addresses fm iplist in
    elim (validate_internet_address fm ip) [ some e ↦ some invalid_arg | none ↦ rest ]

unfoldable pub validate_internet_address_list : Formats → Bytes → Option OptError
validate_internet_address_list fm val = validate_addresses fm (split b',' val)

unfoldable pub validate_path : Formats → Bytes → Option OptError
validate_path fm val =
    if not (fm.is_file_path val)
    then some invalid_path
    else if not (fm.is_abs val)
    then some not_absolute
    else none

abbrev last_two : Bytes → Bytes
last_two el = drop (length el - 2) el

-- The bytes in a unit of size; a unit that is not known leaves `sizeinbytes` as it was.
unfoldable pub size_in_bytes : Bytes → ℤ → ℤ → ℤ
size_in_bytes unit v sizeinbytes =
    if is_one_of unit ("KB" ∷ "kb" ∷ [])
    then mul_64 v (2 ^ 10)
    else if is_one_of unit ("MB" ∷ "mb" ∷ [])
    then mul_64 v (2 ^ 20)
    else if is_one_of unit ("GB" ∷ "gb" ∷ [])
    then mul_64 v (2 ^ 30)
    else sizeinbytes

unfoldable pub is_in_bytes : Bytes → Bool
is_in_bytes el = has_suffix el (codes "B") || has_suffix el (codes "b")

-- The loop of `ValidateSizeList`, with what `sizeinbytes` holds.
unfoldable pub validate_sizes : ℤ → List Bytes → Option OptError
unfolding is_in_bytes
validate_sizes sizeinbytes [] = none
validate_sizes sizeinbytes (s ∷ slist) =
    let el = trim_space s in
    let as_before = validate_sizes sizeinbytes slist in
    if not (is_in_bytes el)
    then as_before
    else if ltb (length el) 2
    then some panicked
    else elim (parse_int (take (length el - 2) el)) [
      | err e ↦ some (not_an_int e)
      | ok v ↦
          if nat_beq (bits_64 (size_in_bytes (last_two el) v sizeinbytes) % 512) 0
          then validate_sizes (size_in_bytes (last_two el) v sizeinbytes) slist
          else some invalid_arg
    ]

unfoldable pub validate_size_list : Bytes → Option OptError
validate_size_list val = validate_sizes (ℤ.pos 0) (split b',' val)

-- `strings.Split(pair, ":")[1]`
abbrev pub after_colon : Bytes → Option Bytes
after_colon pair = elim (split b':' pair) [
  | [] ↦ none
  | k ∷ parts ↦ elim parts [ [] ↦ none | v ∷ _ ↦ some v ]
]

-- The loop of `ValidatePriorityOrSize`.
unfoldable pub validate_pairs : List Bytes → Option OptError
unfolding is_in_bytes
validate_pairs [] = none
validate_pairs (pair ∷ pairs) =
    let rest = validate_pairs pairs in
    elim (after_colon pair) [
      | none ↦ some panicked
      | some v ↦
          if is_in_bytes v
          then validate_size_list v
          else elim (parse_int v) [ err e ↦ some (not_an_int e) | ok n ↦ rest ]
    ]

unfoldable pub validate_priority_or_size : Bytes → Option OptError
validate_priority_or_size val = validate_pairs (split b',' val)

-- The units of time, in the order of the tests, and their seconds.
abbrev pub time_units : List (String × ℕ)
time_units =
    ("sec", 1)
    ∷ ("s", 1)
    ∷ ("min", 60)
    ∷ ("m", 60)
    ∷ ("hr", 60 * 60)
    ∷ ("h", 60 * 60)
    ∷ ("days", 60 * 60 * 24)
    ∷ ("d", 60 * 60 * 24)
    ∷ ("w", 60 * 60 * 24 * 7)
    ∷ ("wk", 60 * 60 * 24 * 7)
    ∷ []

-- The number of a time and its multiplier.
unfoldable pub split_unit : List (String × ℕ) → Bytes → Bytes × ℕ
split_unit [] val = (val, 1)
split_unit ((unit, seconds) ∷ units) val =
    let later = split_unit units val in
    if has_suffix val (codes unit) then (trim_suffix val (codes unit), seconds) else later

unfoldable pub is_among : Bytes → List Bytes → Bool
is_among t [] = false
is_among t (op ∷ ops) = t == op || is_among t ops

abbrev pub is_at : ℕ → Option ℕ → Bool
is_at c none = false
is_at c (some d) = nat_beq d c

abbrev pub first_code : Bytes → Option ℕ
first_code [] = none
first_code (c ∷ s) = some c
