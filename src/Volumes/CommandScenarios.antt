-- ===== src/Volumes/CommandScenarios.antt =====
-- Tests and worked cases of the options and the states of volumes.
use glusterd.Volumes.Fixtures.{pair_volume, triple_volume}
use glusterd.Text.{has_prefix}
use glusterd.Prelude.{
  ◌≡◌, refl, String, true, false, Option, none, some, List, [], ◌∷◌, string_eq, contains, ok,
  if◌then◌else◌,
}
use glusterd.GoMap.{insert, GoMap, lookup}
use glusterd.Volumes.Settings.{
  GroupOption, OptionInfo, Profiles, ResetReq, VolOptionFlags, asked_keys, basic,
  contains_reserved_group_profile, default_profile, expand_group_options_reset, profile_value,
  reassign, reset_asked, reset_keys, volume_reset,
}
use glusterd.Volumes.Settings.Reset.{volume_reset_lem}
use glusterd.Volumes.State.{Store, Outcome, done, stop, remove, run}
use glusterd.Volumes.State.Removal.{stop_then_delete}

-- The option `write-behind`, in the default profile of replicate volumes.
abbrev write_behind : OptionInfo
write_behind = record {
  is_settable = true;
  is_never_reset = false;
  is_force_required = false;
  level = basic;
  default_value = "on";
  is_valid = λ _. true;
}

abbrev find : String → Option OptionInfo
find _ = some write_behind

abbrev no_flags : VolOptionFlags
no_flags = record { allow_advanced = false; allow_experimental = false; allow_deprecated = false }

abbrev profiles : Profiles
profiles = record {
  groups = [];
  defaults =
      ("profile.default.replicate", record { name = "write-behind"; on_value = "on" } ∷ []) ∷ [];
}

abbrev reset_req : ResetReq
reset_req = record { options = "write-behind" ∷ []; force = false; all = false }

abbrev replicate_profile : List GroupOption
replicate_profile = record { name = "write-behind"; on_value = "on" } ∷ []

profile_known : default_profile profiles.defaults pair_volume ≡ some replicate_profile
unfolding default_profile lookup
profile_known = refl

reset_works :
    volume_reset find profiles reset_req pair_volume ≡ ok (("write-behind", "on") ∷ [], [])
unfolding volume_reset contains_reserved_group_profile has_prefix asked_keys reset_asked
    default_profile lookup reset_keys reassign expand_group_options_reset profile_value insert
reset_works = refl

volume_reset_lem_example :
    (asked : List String) × (asked_keys find profiles reset_req pair_volume ≡ ok asked)
    × ((k : String)
        → lookup k (("write-behind", "on") ∷ []) ≡ (
            if contains k asked
            then profile_value k replicate_profile
            else lookup k pair_volume.options))
volume_reset_lem_example =
    volume_reset_lem find profiles reset_req pair_volume replicate_profile
      (("write-behind", "on") ∷ []) [] profile_known reset_works

profile_unknown : default_profile profiles.defaults triple_volume ≡ none
unfolding default_profile lookup
profile_unknown = refl

-- Without a default profile nothing is reset, and the request succeeds.
nothing_reset : volume_reset find profiles reset_req triple_volume ≡ ok (triple_volume.options, [])
unfolding volume_reset contains_reserved_group_profile has_prefix asked_keys reset_asked
    default_profile lookup
nothing_reset = refl

abbrev set_req : GoMap String String
set_req = ("read-ahead", "off") ∷ []

-- A store with that volume.
abbrev store : Store
store = ("v", pair_volume) ∷ []

abbrev all_works : Outcome
all_works = record {
  locks = true;
  bricks = true;
  writes = true;
  actions = true;
  writes_back = true;
}

stop_then_delete_example :
    let (store', status) = run remove all_works "v" (run stop all_works "v" store).0 in
    (status ≡ done) × (lookup "v" store' ≡ none)
unfolding lookup
stop_then_delete_example =
    stop_then_delete all_works "v" store pair_volume refl refl refl refl refl refl refl
