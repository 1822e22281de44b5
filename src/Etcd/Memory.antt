-- ===== src/Etcd/Memory.antt =====
-- A store in memory, which shows that what is asked of etcd can be met, and what a copy of a reply
-- holds.
use text.Mathlib.Text.{starts_with}
use glusterd.Prelude.{
  String, ◌≡◌, refl, false, none, [], ◌∷◌, string_eq, if◌then◌else◌, arith, eq_iff,
}
use glusterd.GoMap.{
  GoMap, lookup, insert, delete, has, lookup-insert, lookup-delete, has-delete, lookup_of_not_has,
}
use glusterd.Etcd.{Etcd, IsDistinct, or_else, insert_all}

pub lookup-insert_all :
    (kvs m : GoMap String String) (k : String)
    → IsDistinct kvs
    → lookup k (insert_all kvs m) ≡ or_else (lookup k kvs) (lookup k m)
unfolding insert_all lookup
lookup-insert_all [] m k h = refl
lookup-insert_all ((j, v) ∷ kvs) m k (fresh, h) = ground (
  arith,
  lookup-insert_all kvs (insert j v m) k h,
  lookup-insert j k v m,
  eq_iff j k,
  lookup_of_not_has j kvs fresh,
)

pub delete_prefix : String → GoMap String String → GoMap String String
delete_prefix p [] = []
delete_prefix p ((k, v) ∷ m) =
    let rest = delete_prefix p m in if starts_with k p then rest else (k, v) ∷ rest

pub lookup-delete_prefix :
    (p : String) (m : GoMap String String) (k : String)
    → lookup k (delete_prefix p m) ≡ (if starts_with k p then none else lookup k m)
unfolding delete_prefix lookup
lookup-delete_prefix p [] k = ground arith
lookup-delete_prefix p ((j, v) ∷ m) k = ground (arith, lookup-delete_prefix p m k, eq_iff j k)

pub select : GoMap String String → String → GoMap String String
select [] p = []
select ((k, v) ∷ m) p =
    let rest = delete k (select m p) in if starts_with k p then (k, v) ∷ rest else rest

pub lookup-select :
    (m : GoMap String String) (p k : String)
    → lookup k (select m p) ≡ (if starts_with k p then lookup k m else none)
unfolding select lookup
lookup-select [] p k = ground arith
lookup-select ((j, v) ∷ m) p k =
    ground (arith, lookup-select m p k, eq_iff j k, lookup-delete j k (select m p))

has-eq-false :
    (k j : String) (m : GoMap String String) → has j m ≡ false → has j (delete k m) ≡ false
has-eq-false k j m h = ground (arith, has-delete k j m)

delete-IsDistinct : (k : String) (m : GoMap String String) → IsDistinct m → IsDistinct (delete k m)
unfolding delete
delete-IsDistinct k [] h = tt
delete-IsDistinct k ((j, v) ∷ m) (fresh, h) =
    ground (arith, delete-IsDistinct k m h, has-eq-false k j m)

pub select-IsDistinct : (m : GoMap String String) (p : String) → IsDistinct (select m p)
unfolding select
select-IsDistinct [] p = tt
select-IsDistinct ((k, v) ∷ m) p = ground (
  arith,
  delete-IsDistinct k (select m p) (select-IsDistinct m p),
  has-delete k k (select m p),
  eq_iff k k,
)

pub put_pairs : GoMap String String → GoMap String String → GoMap String String
put_pairs [] d = d
put_pairs ((k, v) ∷ m) d = insert k v (put_pairs m d)

pub lookup-put_pairs :
    (m d : GoMap String String) (k : String)
    → lookup k (put_pairs m d) ≡ or_else (lookup k m) (lookup k d)
unfolding put_pairs lookup
lookup-put_pairs [] d k = refl
lookup-put_pairs ((j, v) ∷ m) d k =
    ground (arith, lookup-put_pairs m d k, lookup-insert j k v (put_pairs m d))

abbrev pub memory : Etcd
memory = record {
  Db = GoMap String String;
  get = λ d k. lookup k d;
  range = select;
  put_all = put_pairs;
  remove = delete;
  remove_prefix = delete_prefix;
  get-put_all = lookup-put_pairs;
  get-remove = λ j d k. lookup-delete j k d;
  get-remove_prefix = lookup-delete_prefix;
  lookup-range = lookup-select;
  range-IsDistinct = select-IsDistinct;
}
