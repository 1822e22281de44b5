-- ===== src/Georep/Config/Shown.antt =====
-- What the request for the configuration shows.
use glusterd.Prelude.{
  ◌≡◌, refl, sym, inl, inr, String, true, false, none, some, List, [], ◌∷◌, map, string_eq, ok,
  >>=-eq-ok, ok-injective, ◌∙◌, if◌then◌else◌, arith, Option-cases, Bool-cases,
}
use glusterd.GoMap.{GoMap, lookup}
use glusterd.Georep.{Session, Env, Sessions, read_session, read_session_lem, session_key}
use glusterd.Georep.Config.{
  GeorepOption, without_stale, with_session, drop_stale, apply_session, config_get,
}

-- What the default of an option is, whatever an old file says.
abbrev pub plain_value : GeorepOption → String
plain_value o = if o.modified then o.default_value else o.value

-- An option as it is to be shown: the value of the session over the default, or the default alone.
pub shown : GoMap String String → GeorepOption → GeorepOption
shown options o = elim (lookup o.name options) [
  | some val ↦ record o { value = val; default_value = plain_value o; modified = true }
  | none ↦ record o {
    value = plain_value o;
    default_value = if o.modified then "" else o.default_value;
    modified = false;
  }
]

with_session-without_stale :
    (options : GoMap String String) (o : GeorepOption)
    → with_session options (without_stale o) ≡ shown options o
unfolding shown
with_session-without_stale options o = elim (Bool-cases o.modified) [
  | inl old ↦ elim (Option-cases (lookup o.name options)) [
    | inl unset ↦ ground (arith, old, unset)
    | inr (v, set) ↦ ground (arith, old, set)
  ]
  | inr fresh ↦ elim (Option-cases (lookup o.name options)) [
    | inl unset ↦ ground (arith, fresh, unset)
    | inr (v, set) ↦ ground (arith, fresh, set)
  ]
]

apply_session-drop_stale :
    (options : GoMap String String) (opts : List GeorepOption)
    → apply_session options (drop_stale opts) ≡ map (shown options) opts
unfolding apply_session drop_stale
apply_session-drop_stale options [] = refl
apply_session-drop_stale options (o ∷ opts) =
    let first = with_session-without_stale options o in
    let later = apply_session-drop_stale options opts in cc

-- The options that are shown are those that gsyncd reports, in its order: each has its default, without
-- what an old file says, unless the session sets it.
config_get_lem :
    (env : Env) (opts out : List GeorepOption) (master remote : String) (sessions : Sessions)
    → config_get env (some opts) master remote sessions ≡ ok out
    → (s : Session) × (lookup (session_key master remote) sessions ≡ some s)
      × (out ≡ map (shown s.options) opts)
unfolding config_get
config_get_lem env opts out master remote sessions h =
    let (s, read, last) =
      >>=-eq-ok (read_session env master remote sessions)
        (λ x. ok (apply_session x.options (drop_stale opts))) h in
    (
      s,
      read_session_lem env master remote sessions s read,
      sym (ok-injective last) ∙ apply_session-drop_stale s.options opts,
    )
