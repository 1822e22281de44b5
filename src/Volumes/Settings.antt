-- ===== src/Volumes/Settings.antt =====
-- The options of a volume: common.go, volume-option.go and volume-reset.go of
-- glusterd2/commands/volumes. Go visits a map in any order; here it is that of the list. The table of
-- the options of the loaded translators is the parameter `find_option`.
pub mod Reset
pub mod Checked
use Prim.Native.String.{◌++◌}
use mathlib.Core.List.{◌++◌ as append}
use glusterd.Prelude.{
  String, Bool, true, false, not, ◌&&◌, ◌||◌, Option, none, some, List, [], ◌∷◌, string_eq, ◌==◌,
  contains, codes, Result, ok, err, ◌>>=◌, if◌then◌else◌,
}
use glusterd.GoMap.{GoMap, lookup, insert, delete, has, insert_all}
use glusterd.Text.{has_prefix}
use glusterd.Volumes.{Subvol, Volinfo}
use glusterd.Volumes.Expand.{type_name}

pub data OptionLevel : Type 0 where
  basic advanced experimental deprecated : OptionLevel

pub record OptionInfo : Type 0 where
  pub is_settable : Bool
  pub is_never_reset : Bool
  pub is_force_required : Bool
  pub level : OptionLevel
  pub default_value : String
  pub is_valid : String → Bool

pub record VolOptionFlags : Type 0 where
  pub allow_advanced : Bool
  pub allow_experimental : Bool
  pub allow_deprecated : Bool

pub data SettingsError : Type 0 where
  option_not_found cannot_be_set needs_advanced needs_experimental needs_deprecated : SettingsError
  invalid_value need_on_or_off reserved_group_profile : SettingsError
  never_reset needs_force not_set : SettingsError

pub record GroupOption : Type 0 where
  pub name : String
  pub on_value : String

abbrev pub is_reserved : String → Bool
is_reserved key = has_prefix (codes key) (codes "profile.default.")

-- `containsReservedGroupProfile`, on the keys of a request
unfoldable pub contains_reserved_group_profile : List String → Bool
contains_reserved_group_profile [] = false
contains_reserved_group_profile (key ∷ keys) =
    is_reserved key || contains_reserved_group_profile keys

unfoldable pub is_level_allowed : VolOptionFlags → OptionLevel → Option SettingsError
is_level_allowed flags basic = none
is_level_allowed flags advanced = if flags.allow_advanced then none else some needs_advanced
is_level_allowed flags experimental =
    if flags.allow_experimental then none else some needs_experimental
is_level_allowed flags deprecated = if flags.allow_deprecated then none else some needs_deprecated

module _ (find_option : String → Option OptionInfo) where
  unfoldable pub validate_options : VolOptionFlags → GoMap String String → Option SettingsError
  validate_options flags [] = none
  validate_options flags ((k, v) ∷ opts) = elim (find_option k) [
    | none ↦ some option_not_found
    | some o ↦
        let rest = validate_options flags opts in
        if not o.is_settable then some cannot_be_set else elim (is_level_allowed flags o.level) [
          | some e ↦ some e
          | none ↦ if o.is_valid v then rest else some invalid_value
        ]
  ]

  -- The loop over the options of one group.
  unfoldable pub expand_group :
      String → List GroupOption → GoMap String String → Result SettingsError (GoMap String String)
  expand_group val [] options = ok options
  expand_group val (option ∷ group) options =
      let on = expand_group val group (insert option.name option.on_value options) in
      let off : Result SettingsError (GoMap String String) = elim (find_option option.name) [
        | none ↦ err option_not_found
        | some o ↦ expand_group val group (insert option.name o.default_value options)
      ] in
      if val == "on" then on else if val == "off" then off else err need_on_or_off

  -- `expandGroupOptions`, with the options made before
  unfoldable pub expand_group_options :
      GoMap String (List GroupOption)
      → GoMap String String
      → GoMap String String
      → Result SettingsError (GoMap String String)
  expand_group_options groups options [] = ok options
  expand_group_options groups options ((opt, val) ∷ opts) = elim (lookup opt groups) [
    | none ↦ expand_group_options groups (insert opt val options) opts
    | some group ↦
        expand_group val group options >>= λ options'. expand_group_options groups options' opts
  ]

  -- The keys that are not marked as never to be reset.
  unfoldable pub resettable : GoMap String String → Result SettingsError (List String)
  resettable [] = ok []
  resettable ((key, value) ∷ opts) = elim (find_option key) [
    | none ↦ err option_not_found
    | some o ↦ resettable opts >>= λ rest. ok (if o.is_never_reset then rest else key ∷ rest)
  ]

  -- The loop that takes the keys out of the volume's options.
  unfoldable pub reset_keys :
      Bool → List String → GoMap String String → Result SettingsError (GoMap String String)
  reset_keys force [] options = ok options
  reset_keys force (k ∷ keys) options =
      let rest = reset_keys force keys (delete k options) in
      if not (has k options) then err not_set else elim (find_option k) [
        | none ↦ err option_not_found
        | some o ↦
            if o.is_never_reset
            then err never_reset
            else if o.is_force_required && not force
            then err needs_force
            else rest
      ]

names : List GroupOption → List String
names [] = []
names (option ∷ group) = option.name ∷ names group

unfoldable pub expand_group_options_reset :
    GoMap String (List GroupOption) → List String → List String
unfolding names
expand_group_options_reset groups [] = []
expand_group_options_reset groups (opt ∷ opts) =
    let rest = expand_group_options_reset groups opts in
    elim (lookup opt groups) [ none ↦ opt ∷ rest | some group ↦ append (names group) rest ]

-- The value of a key in the default profile.
unfoldable pub profile_value : String → List GroupOption → Option String
profile_value k [] = none
profile_value k (opt ∷ group) =
    let rest = profile_value k group in if k == opt.name then some opt.on_value else rest

-- The loop `REQLOOP`: keys of the default profile get its value, the others are left to be reset.
unfoldable pub reassign :
    List GroupOption → List String → GoMap String String → GoMap String String × List String
reassign profile [] options = (options, [])
reassign profile (k ∷ keys) options = elim (profile_value k profile) [
  | some v ↦ reassign profile keys (insert k v options)
  | none ↦ let (options', new) = reassign profile keys options in (options', k ∷ new)
]

pub record ResetReq : Type 0 where
  pub options : List String
  pub force : Bool
  pub all : Bool

-- The keys of the default profile get their values, the others are reset; without a profile neither.
unfoldable pub reset_asked :
    (String → Option OptionInfo)
    → Bool
    → Option (List GroupOption)
    → List String
    → GoMap String String
    → Result SettingsError (GoMap String String × List String)
reset_asked find_option force none asked options = ok (options, [])
reset_asked find_option force (some profile) asked options =
    let (options', new) = reassign profile asked options in
    reset_keys find_option force new options' >>= λ left. ok (left, new)

-- The profile of the type of the first subvolume.
unfoldable pub default_profile :
    GoMap String (List GroupOption) → Volinfo → Option (List GroupOption)
default_profile defaults vol = elim vol.subvols [
  | [] ↦ none
  | first ∷ others ↦ lookup ("profile.default." ++ type_name first.subvol_type) defaults
]

-- The groups of the store and the default ones.
pub record Profiles : Type 0 where
  pub groups : GoMap String (List GroupOption)
  pub defaults : GoMap String (List GroupOption)

module _ (find_option : String → Option OptionInfo) (profiles : Profiles) where
  -- The keys that the request asks to reset.
  unfoldable pub asked_keys : ResetReq → Volinfo → Result SettingsError (List String)
  asked_keys req vol =
      if req.all
      then resettable find_option vol.options
      else ok (expand_group_options_reset profiles.groups req.options)

  -- `volumeResetHandler` up to its transaction: the options of the volume and the keys that are reset.
  unfoldable pub volume_reset :
      ResetReq → Volinfo → Result SettingsError (GoMap String String × List String)
  volume_reset req vol =
      if contains_reserved_group_profile req.options
      then err reserved_group_profile
      else asked_keys req vol >>= λ asked.
          reset_asked find_option req.force (default_profile profiles.defaults vol) asked
            vol.options

-- The loop that sets the options on the volume.

-- `optionSetValidate` up to the checks of the translators: the options of the volume.
unfoldable pub option_set_validate :
    (String → Option OptionInfo)
    → GoMap String (List GroupOption)
    → VolOptionFlags
    → GoMap String String
    → Volinfo
    → Result SettingsError (GoMap String String)
option_set_validate find_option groups flags req vol =
    expand_group_options find_option groups [] req >>= λ options.
    elim (validate_options find_option flags options) [
      | some e ↦ err e
      | none ↦ ok (insert_all options vol.options)
    ]
