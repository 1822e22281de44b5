-- ===== src/Transaction/Context.antt =====
-- glusterd2/transaction/context.go: the key-value context of a transaction. Reads are served from
-- a cache of the store, and writes are kept until they are committed together.
pub mod Cache
pub mod Peers
use Prim.Native.String.{◌++◌}
use glusterd.Prelude.{
  String, ◌≡◌, Bool, true, false, Option, none, some, List, [], ◌∷◌, Result, ok, err, string_eq,
  if◌then◌else◌,
}
use glusterd.GoMap.{GoMap, lookup, insert, delete}
use glusterd.Etcd.{Etcd, TxnReply, succeeded, not_succeeded, failed, insert_all}

-- encoding/json on the values that steps exchange.
pub record Json : Type 1 where
  pub Value : Type 0
  pub marshal : Value → Option String
  pub unmarshal : String → Option Value
  pub unmarshal-marshal : (v : Value) (b : String) → marshal v ≡ some b → unmarshal b ≡ some v

pub data CtxError : Type 0 where
  marshal_failed : CtxError
  store_failed : String → CtxError
  commit_failed : CtxError
  key_not_found : CtxError

-- `StorePrefix` of the config, and the two caches. The log fields and the logger are left out.
pub record Tctx : Type 0 where
  pub store_prefix : String
  pub read_set : GoMap String String
  pub read_cache_dirty : Bool
  pub write_set : GoMap String String

pub new_ctx : String → Tctx
new_ctx prefix = record {
  store_prefix = prefix;
  read_set = [];
  read_cache_dirty = true;
  write_set = [];
}

module _ (j : Json) where
  open j use {Value, marshal}

  pub set : Tctx → String → Value → Tctx × Option CtxError
  set c key value = elim (marshal value) [
    | none ↦ (c, some marshal_failed)
    | some b ↦ (
      record c {
        read_set = insert (c.store_prefix ++ key) b c.read_set;
        write_set = insert (c.store_prefix ++ key) b c.write_set;
      },
      none,
    )
  ]

  pub set_node_result : Tctx → String → String → Value → Tctx × Option CtxError
  set_node_result c peer_id key value = set c (peer_id ++ "/" ++ key) value

module _ (etcd : Etcd) where
  open etcd use {Db}

  -- `fault` is the error of the read, if it fails.
  pub sync_cache : Db → Option String → Tctx → Tctx × Option CtxError
  sync_cache d fault c = elim fault [
    | some e ↦ (c, some (store_failed e))
    | none ↦ (record c { read_set = insert_all (etcd.range d c.store_prefix) c.read_set }, none)
  ]

  -- The store as the transaction of puts leaves it.
  pub store_after : TxnReply → GoMap String String → Db → Db
  store_after succeeded m d = etcd.put_all m d
  store_after not_succeeded m d = d
  store_after (failed applied e) m d = if applied then etcd.put_all m d else d

  commit_error : TxnReply → Option CtxError
  commit_error succeeded = none
  commit_error not_succeeded = some commit_failed
  commit_error (failed applied e) = some (store_failed e)

  commit_ctx : TxnReply → Tctx → Tctx
  commit_ctx succeeded c = record c { write_set = []; read_cache_dirty = true }
  commit_ctx not_succeeded c = c
  commit_ctx (failed applied e) c = c

  commit_writes : GoMap String String → TxnReply → Db → Tctx → Tctx × Db × Option CtxError
  unfolding store_after commit_error commit_ctx
  commit_writes [] reply d c = (c, d, none)
  commit_writes (kv ∷ m) reply d c =
      (commit_ctx reply c, store_after reply (kv ∷ m) d, commit_error reply)

  -- With nothing to write there is no call of the store.
  pub commit : TxnReply → Db → Tctx → Tctx × Db × Option CtxError
  unfolding commit_writes
  commit reply d c = commit_writes c.write_set reply d c

  -- The key and the pending write go at once; the store is asked to delete the key as well.
  pub delete_key : Db → Option String → Tctx → String → Tctx × Db × Option CtxError
  delete_key d fault c key =
      let store_key = c.store_prefix ++ key in
      let c' = record c {
        read_set = delete store_key c.read_set;
        write_set = delete store_key c.write_set;
      } in
      elim fault [
        | some e ↦ (c', d, some (store_failed e))
        | none ↦ (c', etcd.remove store_key d, none)
      ]

  module _ (j : Json) where
    open j use {Value, unmarshal}

    -- A value that cannot be decoded is logged, and the caller's variable is left as it was:
    -- `ok none`.
    get_cached : Tctx → String → Result CtxError (Option Value)
    get_cached c key = elim (lookup (c.store_prefix ++ key) c.read_set) [
      | none ↦ err key_not_found
      | some b ↦ ok (unmarshal b)
    ]

    get_synced : Tctx × Option CtxError → String → Tctx × Result CtxError (Option Value)
    unfolding get_cached
    get_synced (c, some e) key = (c, err e)
    get_synced (c, none) key =
        let c' = record c { read_cache_dirty = false } in (c', get_cached c' key)

    pub get : Db → Option String → Tctx → String → Tctx × Result CtxError (Option Value)
    unfolding get_synced get_cached sync_cache
    get d fault c key =
        if c.read_cache_dirty then get_synced (sync_cache d fault c) key else (c, get_cached c key)

    pub get_node_result :
        Db → Option String → Tctx → String → String → Tctx × Result CtxError (Option Value)
    get_node_result d fault c peer_id key = get d fault c (peer_id ++ "/" ++ key)
