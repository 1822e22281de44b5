-- ===== src/Etcd.antt =====
-- etcd, which the program uses as its store, as far as it relies on it: a map from keys to values
-- with reads by key and by prefix, and writes that take effect together. Whether a call succeeds is
-- decided outside, so each operation of the program takes the answer of its call.
pub mod Memory
use text.Mathlib.Text.{starts_with}
use glusterd.Prelude.{
  String, ◌≡◌, Bool, true, false, Option, none, some, List, [], ◌∷◌, string_eq, if◌then◌else◌, ◌==◌,
}
use glusterd.GoMap.{GoMap, lookup, has, insert}

-- No key stands twice.
abbrev pub IsDistinct : GoMap String String → Type 0
IsDistinct [] = Unit
IsDistinct ((k, v) ∷ m) = (has k m ≡ false) × IsDistinct m

abbrev pub or_else : Option String → Option String → Option String
or_else none b = b
or_else (some a) b = some a

pub record Etcd : Type 1 where
  pub Db : Type 0
  -- a read of one key
  pub get : Db → String → Option String
  -- a read with a prefix (`clientv3.WithPrefix`)
  pub range : Db → String → GoMap String String
  -- an etcd transaction that puts each of the pairs
  pub put_all : GoMap String String → Db → Db
  pub remove : String → Db → Db
  -- a deletion with a prefix
  pub remove_prefix : String → Db → Db
  pub get-put_all :
      (m : GoMap String String) (d : Db) (k : String)
      → get (put_all m d) k ≡ or_else (lookup k m) (get d k)
  pub get-remove :
      (j : String) (d : Db) (k : String) → get (remove j d) k ≡ (if j == k then none else get d k)
  pub get-remove_prefix :
      (p : String) (d : Db) (k : String)
      → get (remove_prefix p d) k ≡ (if starts_with k p then none else get d k)
  pub lookup-range :
      (d : Db) (p k : String) → lookup k (range d p) ≡ (if starts_with k p then get d k else none)
  pub range-IsDistinct : (d : Db) (p : String) → IsDistinct (range d p)

-- The answer to a transaction of puts. One that fails, by a timeout for example, may have been
-- applied all the same.
pub data TxnReply : Type 0 where
  succeeded : TxnReply
  not_succeeded : TxnReply
  failed : Bool → String → TxnReply

-- The loop that copies the pairs of a reply into a map, in order.
pub insert_all : GoMap String String → GoMap String String → GoMap String String
insert_all [] m = m
insert_all ((k, v) ∷ kvs) m = insert_all kvs (insert k v m)
