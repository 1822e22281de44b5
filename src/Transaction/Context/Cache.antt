-- ===== src/Transaction/Context/Cache.antt =====
-- What a read of the context returns after writes, deletions and commits.
use text.Mathlib.TextPositions.{starts_with-append}
use Prim.Native.String.{◌++◌}
use glusterd.Prelude.{
  String, ◌≡◌, ◌≢◌, ◌⊎◌, refl, true, false, Option, none, some, [], ◌∷◌, Result, ok, err, string_eq,
  if◌then◌else◌, arith, eq_iff, inl, inr,
}
use glusterd.GoMap.{GoMap, lookup, lookup-insert, lookup-delete, lookup-nil}
use glusterd.Etcd.{Etcd, TxnReply, succeeded, not_succeeded, failed, or_else}
use glusterd.Etcd.Memory.{lookup-insert_all}
use glusterd.Transaction.Context.{
  Json, Tctx, CtxError, key_not_found, new_ctx, set, commit, commit_writes, delete_key, get,
}

module _ (etcd : Etcd) (j : Json) where
  open etcd use {Db}
  open j use {Value, marshal, unmarshal}

  abbrev pub read : Option String → Result CtxError (Option Value)
  read none = err key_not_found
  read (some b) = ok (unmarshal b)

  -- What a read without a fault returns: the cache, if it is clean, and else the store before it.
  pub get_lem :
      (d : Db) (c : Tctx) (key : String)
      → (get etcd j d none c key).1
        ≡ read (
            if c.read_cache_dirty
            then or_else
                (etcd.get d (c.store_prefix ++ key))
                (lookup (c.store_prefix ++ key) c.read_set)
            else lookup (c.store_prefix ++ key) c.read_set)
  unfolding get
  get_lem d c key =
      let k = c.store_prefix ++ key in
      ground (
        arith,
        lookup-insert_all (etcd.range d c.store_prefix) c.read_set k
            (etcd.range-IsDistinct d c.store_prefix),
        etcd.lookup-range d c.store_prefix k,
        starts_with-append c.store_prefix key,
      )

  -- A commit that succeeds, of any pending writes `m`.
  commit_writes-succeeded :
      (m : GoMap String String) (d : Db) (c : Tctx)
      → c.write_set ≡ m
      → let (c', d', e) = commit_writes etcd m succeeded d c in
        (e ≡ none)
        × (c'.write_set ≡ [])
        × ((k : String) → etcd.get d' k ≡ or_else (lookup k m) (etcd.get d k))
  unfolding commit_writes lookup
  commit_writes-succeeded [] d c w = (refl, w, λ k. refl)
  commit_writes-succeeded (kv ∷ m) d c w = (refl, refl, etcd.get-put_all (kv ∷ m) d)

  commit-succeeded :
      (d : Db) (c : Tctx)
      → let (c', d', e) = commit etcd succeeded d c in
        (e ≡ none)
        × (c'.write_set ≡ [])
        × ((k : String) → etcd.get d' k ≡ or_else (lookup k c.write_set) (etcd.get d k))
  unfolding commit
  commit-succeeded d c = commit_writes-succeeded c.write_set d c refl

  -- A commit that fails, of pending writes `m`.
  commit_writes_failing :
      (m : GoMap String String) (d : Db) (c : Tctx) (reply : TxnReply)
      → reply ≢ succeeded
      → m ≢ []
      → let (c', d', e) = commit_writes etcd m reply d c in
        (c' ≡ c) × (e ≢ none) × ((d' ≡ d) ⊎ (d' ≡ etcd.put_all m d))
  unfolding commit_writes
  commit_writes_failing [] d c reply h n = absurd (n refl)
  commit_writes_failing (kv ∷ m) d c succeeded h n = absurd (h refl)
  commit_writes_failing (kv ∷ m) d c not_succeeded h n = (refl, λ p. cc, inl refl)
  commit_writes_failing (kv ∷ m) d c (failed true e) h n = (refl, λ p. cc, inr refl)
  commit_writes_failing (kv ∷ m) d c (failed false e) h n = (refl, λ p. cc, inl refl)

  module _ (d : Db) (c : Tctx) (key b : String) (v : Value) (encoded : marshal v ≡ some b) where
    -- A value that was set is what the next read of its key returns, unless the cache is stale and
    -- the store holds a value for the key: then the read returns that older value.
    get-set : (get etcd j d none (set j c key v).0 key).1 ≡ (
        if c.read_cache_dirty
        then read (or_else (etcd.get d (c.store_prefix ++ key)) (some b))
        else ok (some v))
    unfolding set
    get-set =
        let k = c.store_prefix ++ key in
        rw get_lem (
          ground (
            arith,
            encoded,
            lookup-insert k k b c.read_set,
            eq_iff k k,
            j.unmarshal-marshal v b encoded,
          ))

    -- A value that was set and committed is what a new context of the same transaction reads, on
    -- whichever node, and the context has nothing left to commit.
    pub get-commit-set :
        let (c', d', e) = commit etcd succeeded d (set j c key v).0 in
        (e ≡ none)
        × (c'.write_set ≡ [])
        × ((get etcd j d' none (new_ctx c.store_prefix) key).1 ≡ ok (some v))
    unfolding new_ctx set
    get-commit-set =
        let c₁ = (set j c key v).0 in
        let k = c.store_prefix ++ key in
        let (done, empty, stored) = commit-succeeded d c₁ in
        (
          done,
          empty,
          rw get_lem (
              ground (
                arith,
                encoded,
                stored k,
                lookup-nil {V = String} k,
                lookup-insert k k b c.write_set,
                eq_iff k k,
                j.unmarshal-marshal v b encoded,
              )),
        )

  -- A read after a deletion that the store has carried out finds no value, whether the cache was
  -- stale or not.
  get-delete_key :
      (d : Db) (c : Tctx) (key : String)
      → let (c', d', e) = delete_key etcd d none c key in
        (e ≡ none) × ((get etcd j d' none c' key).1 ≡ err key_not_found)
  unfolding delete_key
  get-delete_key d c key =
      let k = c.store_prefix ++ key in
      (
        refl,
        rw get_lem
            (ground (arith, lookup-delete k k c.read_set, etcd.get-remove k d k, eq_iff k k)),
      )

  -- A commit that fails returns an error and keeps every pending write, whether or not the store
  -- has applied them; a second commit that succeeds then leaves each key as the writes say, and all
  -- other keys as they were at first.
  commit_retry :
      (d : Db) (c : Tctx) (reply : TxnReply) (k : String)
      → reply ≢ succeeded
      → c.write_set ≢ []
      → let (c₁, d₁, e₁) = commit etcd reply d c in
        let (c₂, d₂, e₂) = commit etcd succeeded d₁ c₁ in
        (c₁ ≡ c)
        × (e₁ ≢ none)
        × (e₂ ≡ none)
        × (c₂.write_set ≡ [])
        × (etcd.get d₂ k ≡ or_else (lookup k c.write_set) (etcd.get d k))
  unfolding commit
  commit_retry d c reply k failing pending =
      let (kept, reported, stored) = commit_writes_failing c.write_set d c reply failing pending in
      let (c₁, d₁, e₁) = commit_writes etcd c.write_set reply d c in
      let (done, empty, found) = commit-succeeded d₁ c₁ in
      (
        kept,
        reported,
        done,
        empty,
        ground (arith, kept, found k, stored, etcd.get-put_all c.write_set d k),
      )
