-- ===== src/Transaction/Locks.antt =====
-- glusterd2/transaction/lock.go: the cluster locks of a transaction, and how transaction.go and
-- transactionv2 take and release them.
pub mod Held
use glusterd.Prelude.{
  ℕ, zero, suc, String, Bool, true, false, Option, none, some, List, [], ◌∷◌, ◌==◌, string_eq,
  nat_beq, nat_eq, if◌then◌else◌,
}
use glusterd.GoMap.{GoMap, lookup, insert, delete, has}

pub data LockError : Type 0 where
  lock_exists : LockError
  lock_timeout : LockError
  session_failed : LockError
  etcd_failed : LockError
  after_attempts : LockError → ℕ → LockError

-- What etcd answers to one attempt: no session, the lock, the deadline, or another error.
pub data LockReply : Type 0 where
  no_session obtained deadline_exceeded refused : LockReply

-- `Locks`: from lock id to the mutex, known by a number.
abbrev pub Locks : Type 0
Locks = GoMap String ℕ

-- What the cluster answers, in order: to each attempt a reply with the mutex.
abbrev pub Replies : Type 0
Replies = List (LockReply × ℕ)

lock_reply : Locks → String → LockReply → ℕ → Locks × Option LockError
lock_reply l id no_session m = (l, some session_failed)
lock_reply l id obtained m = (insert id m l, none)
lock_reply l id deadline_exceeded m = (l, some lock_timeout)
lock_reply l id refused m = (l, some etcd_failed)

-- `lock`: nothing is asked of etcd if the transaction has the lock already.
pub lock : Locks → String → LockReply → ℕ → Locks × Option LockError
unfolding lock_reply
lock l id reply m = if has id l then (l, some lock_exists) else lock_reply l id reply m

-- The first reply to come; the model's etcd refuses when none is left.
abbrev pub next : Replies → LockReply × ℕ
next [] = (refused, 0)
next (r ∷ rs) = r

abbrev pub later : Replies → Replies
later [] = []
later (r ∷ rs) = rs

-- The attempts for the ids in order, up to the first that fails.
pub lock_all : Locks → List String → Replies → Locks × Option LockError
lock_all l [] replies = (l, none)
lock_all l (id ∷ ids) replies =
    let (l', e) = lock l id (next replies).0 (next replies).1 in
    let rest = lock_all l' ids (later replies) in elim e [ none ↦ rest | some x ↦ (l', some x) ]

-- `Lock(lockID, lockIDs...)`
unfoldable pub lock_ids : Locks → String → List String → Replies → Locks × Option LockError
lock_ids l id ids replies = lock_all l (id ∷ ids) replies

-- `UnLock`: a lock whose release fails stays in the map. `fails` are the ids for which it fails.
unlock_from : (String → Bool) → GoMap String ℕ → Locks → Locks
unlock_from fails [] l = l
unlock_from fails ((id, m) ∷ rest) l = unlock_from fails rest (if fails id then l else delete id l)

pub unlock : (String → Bool) → Locks → Locks
unfolding unlock_from
unlock fails l = unlock_from fails l l

-- `acquireClusterLocks` of transactionv2: what was obtained is released when a lock fails.
pub acquire_cluster_locks :
    (String → Bool) → Locks → List String → Replies → Locks × Option LockError
acquire_cluster_locks fails l ids replies =
    let (l', e) = lock_all l ids replies in
    elim e [ none ↦ (l', none) | some x ↦ (unlock fails l', some x) ]

-- `LockWithRetry`: `attempts` is the count of the back-off, which each round raises by one. The
-- fuel is the number of rounds.
pub lock_with_retry : ℕ → Locks → String → ℕ → ℕ → Replies → Option (Locks × Option LockError × ℕ)
lock_with_retry zero l id max_attempts attempts replies = none
lock_with_retry (suc fuel) l id max_attempts attempts replies =
    let (l', e) = lock l id (next replies).0 (next replies).1 in
    let again = lock_with_retry fuel l' id max_attempts (suc attempts) (later replies) in
    elim e [
      | none ↦ some (l', none, suc attempts)
      | some x ↦
          if nat_beq max_attempts (suc attempts)
          then some (l', some (after_attempts x max_attempts), suc attempts)
          else again
    ]
