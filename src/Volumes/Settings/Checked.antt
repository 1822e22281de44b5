-- ===== src/Volumes/Settings/Checked.antt =====
-- Which options a request can set.
use glusterd.Prelude.{◌≡◌, String, true, Option, none, some, string_eq}
use glusterd.GoMap.{GoMap}
use glusterd.Volumes.Settings.{OptionInfo, VolOptionFlags, is_level_allowed}

-- The option is known, can be set with the flags, and takes the value.
pub record IsPermitted (find_option : String → Option OptionInfo) (flags : VolOptionFlags)
    (key value : String) : Type 0 where
  pub info : OptionInfo
  pub found : find_option key ≡ some info
  pub settable : info.is_settable ≡ true
  pub allowed : is_level_allowed flags info.level ≡ none
  pub valid : info.is_valid value ≡ true
