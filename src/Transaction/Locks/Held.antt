-- ===== src/Transaction/Locks/Held.antt =====
-- Which locks a transaction holds afterwards, and how long it tries.
use glusterd.Prelude.{
  ℕ, zero, suc, ◌+◌, ◌≤◌, ◌<◌, String, ◌≡◌, ◌≢◌, ◌⊎◌, refl, inl, inr, Bool, true, false, Option,
  none, some, List, [], ◌∷◌, ◌==◌, string_eq, nat_beq, nat_eq, if◌then◌else◌, arith, eq_iff,
  Bool-cases, contains, Option-cases,
}
use glusterd.GoMap.{lookup, delete, has, has-insert, has-delete, has-cons}
use glusterd.Transaction.Locks.{
  LockError, LockReply, Locks, Replies, lock, lock_all, next, later, unlock, unlock_from,
  acquire_cluster_locks, lock_with_retry, after_attempts,
}

-- A lock that is obtained is added; one that fails leaves the map as it was. Another id is held as
-- before in either case.
lock_lem :
    (l : Locks) (id other : String) (reply : LockReply) (m : ℕ)
    → has other (lock l id reply m).0 ≡ (
        if id == other
        then (if has id l
            then true
            else elim (lock l id reply m).1 [ none ↦ true | some _ ↦ false ])
        else has other l)
unfolding lock
lock_lem l id other reply m = ground (arith, has-insert id other m l, eq_iff id other)

lock_all-held :
    (ids : List String) (l : Locks) (replies : Replies) (k : String)
    → (lock_all l ids replies).1 ≡ none
    → has k (lock_all l ids replies).0 ≡ (if contains k ids then true else has k l)
unfolding lock_all
lock_all-held [] l replies k h = refl
lock_all-held (id ∷ ids) l replies k h =
    let reply = next replies in
    ground (
      arith,
      lock_lem l id k reply.0 reply.1,
      lock_all-held ids (lock l id reply.0 reply.1).0 (later replies) k,
      eq_iff id k,
    )

lock-fresh :
    (l : Locks) (id : String) (reply : LockReply) (m : ℕ)
    → (lock l id reply m).1 ≡ none
    → has id l ≡ false
unfolding lock
lock-fresh l id reply m h = ground arith

-- The ids are different from one another and from those that the transaction holds.
abbrev pub AllFresh : Locks → List String → Type 0
AllFresh l [] = Unit
AllFresh l (id ∷ ids) = (has id l ≡ false) × (contains id ids ≡ false) × AllFresh l ids

fresh_before :
    (l l' : Locks) (id : String) (ids : List String)
    → ((k : String) → has k l' ≡ (if id == k then true else has k l))
    → AllFresh l' ids
    → (contains id ids ≡ false) × AllFresh l ids
fresh_before l l' id [] same h = (refl, tt)
fresh_before l l' id (j ∷ ids) same h =
    let ih = fresh_before l l' id ids same h.2 in
    (ground (arith, same j, eq_iff id j, eq_iff j id, ih), (ground (arith, same j), h.1, ih.1))

lock_all-AllFresh :
    (ids : List String) (l : Locks) (replies : Replies)
    → (lock_all l ids replies).1 ≡ none
    → AllFresh l ids
unfolding lock_all
lock_all-AllFresh [] l replies h = tt
lock_all-AllFresh (id ∷ ids) l replies h =
    let r = next replies in
    let l' = (lock l id r.0 r.1).0 in
    let got : (lock l id r.0 r.1).1 ≡ none = ground arith in
    let fresh = lock-fresh l id r.0 r.1 got in
    let ih = lock_all-AllFresh ids l' (later replies) (ground arith) in
    let (a, b) =
      fresh_before l l' id ids (λ k. ground (arith, got, fresh, lock_lem l id k r.0 r.1)) ih in
    (fresh, a, b)

has-unlock_from :
    (fails : String → Bool) (m l : Locks) (k : String)
    → has k (unlock_from fails m l)
      ≡ (if has k m then (if fails k then has k l else false) else has k l)
unfolding unlock_from
has-unlock_from fails [] l k = unfold has lookup in refl
has-unlock_from fails ((id, n) ∷ m) l k = ground (
  arith,
  has-unlock_from fails m (if fails id then l else delete id l) k,
  has-cons k id n m,
  has-delete id k l,
  eq_iff id k,
)

-- After `UnLock` the map holds exactly the locks whose release has failed.
has-unlock :
    (fails : String → Bool) (l : Locks) (k : String)
    → has k (unlock fails l) ≡ (if fails k then has k l else false)
unfolding unlock
has-unlock fails l k = ground (arith, has-unlock_from fails l l k)

-- The locks of a transaction are taken all or none. If they are obtained, the ids were different
-- from one another and from those held before, and these and the ids are what is held. If one is
-- not obtained, an error is reported, and of all the locks, those held before included, only those
-- remain whose release fails.
pub acquire_cluster_locks_lem :
    (fails : String → Bool) (l : Locks) (ids : List String) (replies : Replies)
    → let (l', e) = acquire_cluster_locks fails l ids replies in
      ((e ≡ none)
        × AllFresh l ids
        × ((k : String) → has k l' ≡ (if contains k ids then true else has k l)))
      ⊎ ((e ≢ none) × ((k : String) → has k l' ≡ true → fails k ≡ true))
unfolding acquire_cluster_locks
acquire_cluster_locks_lem fails l ids replies = elim (Option-cases (lock_all l ids replies).1) [
  | inl got ↦ inl (
    ground arith,
    lock_all-AllFresh ids l replies got,
    λ k. ground (arith, lock_all-held ids l replies k),
  )
  | inr (x, failed) ↦
      inr
        (λ p. ground arith, λ k held. ground (arith, has-unlock fails (lock_all l ids replies).0 k))
]

-- A lock that is tried for again ends after at most `max_attempts` attempts, if fewer have been
-- made before: with the lock, or with an error that comes exactly at the last attempt.
pub lock_with_retry_lem :
    (fuel : ℕ) (l : Locks) (id : String) (max_attempts attempts : ℕ) (replies : Replies)
    → attempts < max_attempts
    → max_attempts ≤ attempts + fuel
    → (l' : Locks) × (e : Option LockError) × (made : ℕ) × (lock_with_retry fuel l id max_attempts
          attempts replies
        ≡ some (l', e, made))
      × (made ≤ max_attempts)
      × (((e ≡ none) × (has id l' ≡ true))
          ⊎ ((x : LockError) × (e ≡ some (after_attempts x max_attempts)) × (made ≡ max_attempts)))
unfolding lock_with_retry
lock_with_retry_lem zero l id max_attempts attempts replies h enough = absurd (omega arith)
lock_with_retry_lem (suc fuel) l id max_attempts attempts replies h enough =
    let r = next replies in
    let l' = (lock l id r.0 r.1).0 in
    elim (Option-cases (lock l id r.0 r.1).1) [
      | inl got ↦ (
        l',
        none,
        suc attempts,
        ground arith,
        omega arith,
        inl (refl, ground (arith, lock_lem l id id r.0 r.1, got, eq_iff id id)),
      )
      | inr (x, refused) ↦ elim (Bool-cases (nat_beq max_attempts (suc attempts))) [
        | inl last ↦ (
          l',
          some (after_attempts x max_attempts),
          suc attempts,
          ground arith,
          omega arith,
          inr (x, refl, ground arith),
        )
        | inr more ↦
            let (m, e, made, is, bound, ends) =
              lock_with_retry_lem fuel l' id max_attempts (suc attempts) (later replies)
                (ground arith) (omega arith) in
            (m, e, made, ground (arith, is), bound, ends)
      ]
    ]
