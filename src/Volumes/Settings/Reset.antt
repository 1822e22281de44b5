-- ===== src/Volumes/Settings/Reset.antt =====
-- What a reset does to the options of a volume.
use glusterd.Prelude.{
  ◌≡◌, ap, inl, inr, String, Bool, true, false, not, ◌&&◌, Option, none, some, List, [], ◌∷◌,
  string_eq, eq_iff, contains, Result, ok, ◌>>=◌, >>=-eq-ok, if◌then◌else◌, arith, Option-cases,
}
use glusterd.GoMap.{GoMap, lookup, insert, delete, lookup-insert, lookup-delete}
use glusterd.Volumes.{Volinfo}
use glusterd.Volumes.Settings.{
  OptionInfo, SettingsError, GroupOption, ResetReq, Profiles, reset_keys, profile_value, reassign,
  reset_asked, default_profile, asked_keys, volume_reset, contains_reserved_group_profile,
}

abbrev in_profile : String → List GroupOption → Bool
in_profile k profile = elim (profile_value k profile) [ none ↦ false | some v ↦ true ]

-- Which keys are left for the reset, and what the options are before it.
reassign_lem :
    (profile : List GroupOption) (keys : List String) (options : GoMap String String) (k : String)
    → let (options', new) = reassign profile keys options in
      (contains k new ≡ (contains k keys && not (in_profile k profile)))
      × (lookup k options' ≡ (
          if contains k keys && in_profile k profile
          then profile_value k profile
          else lookup k options))
unfolding reassign
reassign_lem profile [] options k = ground arith
reassign_lem profile (j ∷ keys) options k =
    let same : (j ≡ k) → profile_value j profile ≡ profile_value k profile =
      λ e. ap (λ x. profile_value x profile) e in
    elim (Option-cases (profile_value j profile)) [
      | inl absent ↦
          let later = reassign_lem profile keys options k in
          ground (arith, absent, later, same, eq_iff j k)
      | inr (v, present) ↦
          let later = reassign_lem profile keys (insert j v options) k in
          ground (arith, present, later, same, eq_iff j k, lookup-insert j k v options)
    ]

reset_keys_lem :
    (find_option : String → Option OptionInfo) (force : Bool) (keys : List String)
    (options options' : GoMap String String) (k : String)
    → reset_keys find_option force keys options ≡ ok options'
    → lookup k options' ≡ (if contains k keys then none else lookup k options)
unfolding reset_keys
reset_keys_lem find_option force [] options options' k h = ground (arith, h)
reset_keys_lem find_option force (j ∷ keys) options options' k h =
    let kept : reset_keys find_option force keys (delete j options) ≡ ok options' =
      ground (arith, h) in
    let later = reset_keys_lem find_option force keys (delete j options) options' k kept in
    ground (arith, later, lookup-delete j k options, eq_iff j k)

reset_asked_lem :
    (find_option : String → Option OptionInfo) (force : Bool) (profile : List GroupOption)
    (asked : List String) (before after : GoMap String String) (new : List String) (k : String)
    → reset_asked find_option force (some profile) asked before ≡ ok (after, new)
    → lookup k after ≡ (if contains k asked then profile_value k profile else lookup k before)
unfolding reset_asked
reset_asked_lem find_option force profile asked before after new k h =
    let (options', keys) = reassign profile asked before in
    let (left, taken, last) =
      >>=-eq-ok (reset_keys find_option force keys options') (λ x. ok (x, keys)) h in
    let reset = reset_keys_lem find_option force keys options' left k taken in
    let assigned = reassign_lem profile asked before k in ground (arith, last, reset, assigned)

-- After a reset on a volume whose type has a default profile, each key that was asked for has its value
-- in that profile, or none if it is not in it, and every other key has the value that it had.
pub volume_reset_lem :
    (find_option : String → Option OptionInfo) (profiles : Profiles) (req : ResetReq)
    (vol : Volinfo) (profile : List GroupOption) (options : GoMap String String) (new : List String)
    → default_profile profiles.defaults vol ≡ some profile
    → volume_reset find_option profiles req vol ≡ ok (options, new)
    → (asked : List String) × (asked_keys find_option profiles req vol ≡ ok asked)
      × ((k : String)
          → lookup k options
            ≡ (if contains k asked then profile_value k profile else lookup k vol.options))
unfolding volume_reset
volume_reset_lem find_option profiles req vol profile options new known h =
    let plain : contains_reserved_group_profile req.options ≡ false = ground (arith, h) in
    let next : List String → Result SettingsError (GoMap String String × List String) = λ asked.
      reset_asked find_option req.force (default_profile profiles.defaults vol) asked vol.options in
    let chain : (asked_keys find_option profiles req vol >>= next) ≡ ok (options, new) =
      ground (arith, h, plain) in
    let (asked, found, rest) = >>=-eq-ok (asked_keys find_option profiles req vol) next chain in
    (
      asked,
      found,
      λ k.
          reset_asked_lem find_option req.force profile asked vol.options options new k
            (rw (← known) rest),
    )

-- A reset on a volume whose type has no default profile changes no option and reports success, if the
-- request names no reserved profile and does not ask for all options: whatever its keys are.
volume_reset_unchanged :
    (find_option : String → Option OptionInfo) (profiles : Profiles) (req : ResetReq)
    (vol : Volinfo)
    → default_profile profiles.defaults vol ≡ none
    → contains_reserved_group_profile req.options ≡ false
    → req.all ≡ false
    → volume_reset find_option profiles req vol ≡ ok (vol.options, [])
unfolding volume_reset asked_keys reset_asked
volume_reset_unchanged find_option profiles req vol unknown plain some_keys =
    ground (arith, unknown, plain, some_keys)
