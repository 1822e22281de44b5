-- ===== src/Georep/Config/Changed.antt =====
-- What the requests to set and to reset options leave behind.
use mathlib.Core.Path.{subst}
use glusterd.Prelude.{
  ◌≡◌, refl, sym, ap, inl, inr, String, Bool, true, false, ◌&&◌, Option, none, some, List, [], ◌∷◌,
  string_eq, eq_iff, contains, Result, ok, ◌∙◌, Result-cases, if◌then◌else◌, arith, Option-cases,
  Bool-cases,
}
use glusterd.GoMap.{GoMap, lookup, delete, has, lookup-delete}
use glusterd.Georep.{
  GeorepError, Session, Env, Sessions, read_session, read_session_lem, session_key,
}
use glusterd.Georep.Config.{
  reset_options, has_any, is_running, write_config, reset_on, config_reset,
}

lookup-reset_options :
    (req : List String) (options : GoMap String String) (k : String)
    → lookup k (reset_options req options) ≡ (if contains k req then none else lookup k options)
unfolding reset_options
lookup-reset_options [] options k = refl
lookup-reset_options (j ∷ req) options k =
    let later = lookup-reset_options req (delete j options) k in
    ground (arith, later, lookup-delete j k options, eq_iff j k)

has_any_lem :
    (req : List String) (options : GoMap String String) (k : String)
    → has_any req options ≡ false
    → (if contains k req then none else lookup k options) ≡ lookup k options
unfolding has_any has
has_any_lem [] options k h = refl
has_any_lem (j ∷ req) options k h =
    let later = has_any_lem req options k (ground (arith, h)) in
    let same : j ≡ k → lookup j options ≡ lookup k options =
      λ e. ap (λ (x : String). lookup x options) e in
    ground (arith, h, later, same, eq_iff j k)

-- A session whose options were changed to given ones, key by key; gsyncd is started again only if it runs.
pub record IsConfigured (new : String → Option String) (s s' : Session) (restart : Bool)
    : Type 0 where
  pub kept : s' ≡ record s { options = s'.options }
  pub values : (k : String) → lookup k s'.options ≡ new k
  pub running : restart ≡ true → is_running s.status ≡ true

write_config-IsConfigured :
    (env : Env) (new : String → Option String) (s s' : Session) (options : GoMap String String)
    (before after : Sessions) (restart : Bool)
    → ((k : String) → lookup k options ≡ new k)
    → write_config env (record s { options = options }) before ≡ (after, ok (s', restart))
    → IsConfigured new s s' restart
unfolding write_config
write_config-IsConfigured env new s s' options before after restart values h =
    elim (Bool-cases (env.steps && env.writes)) [
      | inr failed ↦ absurd (ground (arith, h, failed))
      | inl wrote ↦
          let same : record s { options = options } ≡ s' = ground (arith, h, wrote) in
          let flag : is_running s.status ≡ restart = ground (arith, h, wrote) in
          subst (λ (x : Session). IsConfigured new s x restart) same
            (record { kept = refl; values = values; running = λ e. flag ∙ e })
    ]

unconfigured :
    (new : String → Option String) (s s' : Session) (restart : Bool) (before after : Sessions)
    → ((k : String) → lookup k s.options ≡ new k)
    → ◌≡◌ {A = Sessions × Result GeorepError (Session × Bool)}
        (before, ok (s, false))
        (after, ok (s', restart))
    → IsConfigured new s s' restart
unconfigured new s s' restart before after values h =
    let same : s ≡ s' = cc in
    let flag : false ≡ restart = cc in
    subst (λ (x : Session). IsConfigured new s x restart) same
      (record { kept = refl; values = values; running = λ e. cc })

reset_on-IsConfigured :
    (env : Env) (req : List String) (s s' : Session) (before after : Sessions) (restart : Bool)
    → reset_on env req s before ≡ (after, ok (s', restart))
    → IsConfigured (λ k. if contains k req then none else lookup k s.options) s s' restart
unfolding reset_on
reset_on-IsConfigured env req s s' before after restart h =
    elim (Bool-cases (has_any req s.options)) [
      | inr unset ↦
          unconfigured (λ k. if contains k req then none else lookup k s.options) s s' restart
            before after (λ k. sym (has_any_lem req s.options k unset)) (ground (arith, h, unset))
      | inl set ↦ elim (Bool-cases env.locks) [
        | inr free ↦ absurd (ground (arith, h, set, free))
        | inl locked ↦ elim (Option-cases (env.volume s.master_vol)) [
          | inl missing ↦ absurd (ground (arith, h, set, locked, missing))
          | inr (vol, found) ↦
              write_config-IsConfigured env
                (λ k. if contains k req then none else lookup k s.options) s s'
                (reset_options req s.options) before after restart
                (λ k. lookup-reset_options req s.options k) (ground (arith, h, set, locked, found))
        ]
      ]
    ]

-- A request to reset options that succeeds takes exactly the options it names from the session.
config_reset-IsConfigured :
    (env : Env) (req : List String) (master remote : String) (before after : Sessions)
    (s' : Session) (restart : Bool)
    → config_reset env req master remote before ≡ (after, ok (s', restart))
    → (s : Session) × (lookup (session_key master remote) before ≡ some s)
      × IsConfigured (λ k. if contains k req then none else lookup k s.options) s s' restart
unfolding config_reset
config_reset-IsConfigured env req master remote before after s' restart h =
    elim (Result-cases (read_session env master remote before)) [
      | inl (e, bad) ↦ absurd (ground (arith, h, bad))
      | inr (s, good) ↦ (
        s,
        read_session_lem env master remote before s good,
        reset_on-IsConfigured env req s s' before after restart (ground (arith, h, good)),
      )
    ]
