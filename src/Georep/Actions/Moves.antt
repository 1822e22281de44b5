-- ===== src/Georep/Actions/Moves.antt =====
-- The states that a session goes through, and what two requests at a time do to it.
use mathlib.Core.Path.{subst}
use glusterd.Prelude.{
  ◌≡◌, ◌≢◌, ◌⊎◌, sym, ◌∙◌, ap, inl, inr, String, Bool, false, not, ◌&&◌, ◌||◌, none, some,
  string_eq, eq_iff, Result, ok, err, >>=-eq-ok, arith, Option-cases, Bool-cases, Result-cases,
}
use glusterd.GoMap.{lookup, lookup-insert}
use glusterd.Georep.{
  not_locked, no_volume, volume_not_started, txn_failed, SessionStatus, created, started, stopped,
  paused, Session, GeorepError, Env, Sessions, read_session, read_session_lem, session_key, key_of,
  add_or_update_session,
}
use glusterd.Georep.Actions.{
  Action, is_start, start, stop, pause, resume, is_status, refusal, state_to_set, action_check,
  action_commit, georep_action,
}

-- The edges of the life of a session, without force.
pub data Moves : Action → SessionStatus → SessionStatus → Type 0 where
  starts : (s : SessionStatus) → s ≢ started → Moves start s started
  stops : (s : SessionStatus) → s ≢ stopped → Moves stop s stopped
  pauses : Moves pause started paused
  resumes : Moves resume paused started

refusal-Moves :
    (a : Action) (s : SessionStatus) → refusal a false s ≡ none → Moves a s (state_to_set a)
unfolding refusal state_to_set is_status
refusal-Moves start created h = Moves.starts created (λ e. cc)
refusal-Moves start started h = absurd (ground (arith, h))
refusal-Moves start stopped h = Moves.starts stopped (λ e. cc)
refusal-Moves start paused h = Moves.starts paused (λ e. cc)
refusal-Moves stop created h = Moves.stops created (λ e. cc)
refusal-Moves stop started h = Moves.stops started (λ e. cc)
refusal-Moves stop stopped h = absurd (ground (arith, h))
refusal-Moves stop paused h = Moves.stops paused (λ e. cc)
refusal-Moves pause created h = absurd (ground (arith, h))
refusal-Moves pause started h = Moves.pauses
refusal-Moves pause stopped h = absurd (ground (arith, h))
refusal-Moves pause paused h = absurd (ground (arith, h))
refusal-Moves resume created h = absurd (ground (arith, h))
refusal-Moves resume started h = absurd (ground (arith, h))
refusal-Moves resume stopped h = absurd (ground (arith, h))
refusal-Moves resume paused h = Moves.resumes

action_check_lem :
    (env : Env) (a : Action) (force : Bool) (master remote : String) (sessions : Sessions)
    (s : Session)
    → action_check env a force master remote sessions ≡ ok s
    → (lookup (session_key master remote) sessions ≡ some s) × (refusal a force s.status ≡ none)
unfolding action_check
action_check_lem env a force master remote sessions s h =
    let next : Session → Result GeorepError Session =
      λ t. elim (refusal a force t.status) [ some e ↦ err e | none ↦ ok t ] in
    let (t, read, last) = >>=-eq-ok (read_session env master remote sessions) next h in
    let found = read_session_lem env master remote sessions t read in
    elim (Option-cases (refusal a force t.status)) [
      | inr (e, refused) ↦ absurd (ground (arith, last, refused))
      | inl free ↦
          let same : t ≡ s = ground (arith, last, free) in
          (found ∙ ap some same, ap (λ (x : Session). refusal a force x.status) (sym same) ∙ free)
    ]

-- A session is stored under its key.
unfoldable pub IsKeyed : Sessions → Type 0
IsKeyed sessions = (key : String) (s : Session) → lookup key sessions ≡ some s → key_of s ≡ key

-- The sessions after a write of one of them.
pub record IsWritten (s : Session) (before after : Sessions) : Type 0 where
  pub stored : lookup (key_of s) after ≡ some s
  pub others : (k : String) → k ≢ key_of s → lookup k after ≡ lookup k before

abbrev moved : Action → Session → Session
moved a s = record s { status = state_to_set a }

action_commit_cases :
    (env : Env) (a : Action) (s : Session) (sessions : Sessions)
    → (action_commit env a s sessions
        ≡ (add_or_update_session (moved a s) sessions, ok (moved a s)))
      ⊎ ((e : GeorepError) × (action_commit env a s sessions ≡ (sessions, err e)))
unfolding action_commit
action_commit_cases env a s sessions = elim (Bool-cases env.locks) [
  | inr free ↦ inr (not_locked, ground (arith, free))
  | inl locked ↦ elim (Option-cases (env.volume s.master_vol)) [
    | inl missing ↦ inr (no_volume, ground (arith, locked, missing))
    | inr (vol, found) ↦ elim (Bool-cases (is_start a && not vol.is_started)) [
      | inl idle ↦ inr (volume_not_started, ground (arith, locked, found, idle))
      | inr ready ↦ elim (Bool-cases (not env.steps || not env.writes)) [
        | inl failed ↦ inr (txn_failed, ground (arith, locked, found, ready, failed))
        | inr done ↦ inl (ground (arith, locked, found, ready, done))
      ]
    ]
  ]
]

IsWritten-add :
    (s : Session) (sessions : Sessions) → IsWritten s sessions (add_or_update_session s sessions)
IsWritten-add s sessions = record {
  stored =
      ground (arith, lookup-insert (key_of s) (key_of s) s sessions, eq_iff (key_of s) (key_of s));
  others =
      λ k other. ground (arith, other, lookup-insert (key_of s) k s sessions, eq_iff (key_of s) k);
}

-- A commit that succeeds writes the session that was read before, with the new status, whatever other
-- requests have written since: an option that they set for the session is lost.
pub action_commit-IsWritten :
    (env : Env) (a : Action) (force : Bool) (master remote : String) (before now after : Sessions)
    (s s' : Session)
    → action_check env a force master remote before ≡ ok s
    → action_commit env a s now ≡ (after, ok s')
    → (lookup (session_key master remote) before ≡ some s)
      × (s' ≡ record s { status = state_to_set a })
      × IsWritten s' now after
action_commit-IsWritten env a force master remote before now after s s' checked h =
    let (found, free) = action_check_lem env a force master remote before s checked in
    elim (action_commit_cases env a s now) [
      | inr (e, failed) ↦ absurd (cc)
      | inl wrote ↦
          let same : s' ≡ moved a s = cc in
          let kept : after ≡ add_or_update_session (moved a s) now = cc in
          (
            found,
            same,
            subst (λ (x : Session). IsWritten x now after) (sym same)
                (subst (IsWritten (moved a s) now) (sym kept) (IsWritten-add (moved a s) now)),
          )
    ]

georep_action_parts :
    (env : Env) (a : Action) (force : Bool) (master remote : String) (before after : Sessions)
    (s' : Session)
    → georep_action env a force master remote before ≡ (after, ok s')
    → (s : Session) × (action_check env a force master remote before ≡ ok s)
      × (action_commit env a s before ≡ (after, ok s'))
unfolding georep_action
georep_action_parts env a force master remote before after s' h =
    elim (Result-cases (action_check env a force master remote before)) [
      | inl (e, bad) ↦ absurd (cc)
      | inr (s, good) ↦ (s, good, ground (arith, h, good))
    ]

-- An action that succeeds finds the session in a status from which its edge leads, unless it is forced,
-- and changes its status along that edge and nothing else, in it or in other sessions.
pub georep_action-Moves :
    (env : Env) (a : Action) (force : Bool) (master remote : String) (before after : Sessions)
    (s' : Session)
    → IsKeyed before
    → georep_action env a force master remote before ≡ (after, ok s')
    → (s : Session) × (lookup (session_key master remote) before ≡ some s)
      × (s' ≡ record s { status = state_to_set a })
      × (key_of s' ≡ session_key master remote)
      × (force ≡ false → Moves a s.status s'.status)
      × IsWritten s' before after
unfolding IsKeyed
georep_action-Moves env a force master remote before after s' keyed h =
    let (s, checked, committed) = georep_action_parts env a force master remote before after s' h in
    let (found, free) = action_check_lem env a force master remote before s checked in
    let (_, same, written) =
      action_commit-IsWritten env a force master remote before before after s s' checked
        committed in
    (
      s,
      found,
      same,
      ap key_of same ∙ keyed (session_key master remote) s found,
      λ plain.
          subst (λ (x : Session). Moves a s.status x.status) (sym same)
            (refusal-Moves a s.status
              (subst (λ (f : Bool). refusal a f s.status ≡ none) plain free)),
      written,
    )
