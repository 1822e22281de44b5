-- ===== src/Transaction/Nodes.antt =====
-- `nodesUnion` of glusterd2/transaction/transaction.go (transactionv2 has the same function): it
-- removes the duplicates of a list of node ids in place.
use glusterd.Prelude.{
  ℕ, zero, suc, ◌≤◌, String, ◌≡◌, refl, false, List, [], ◌∷◌, ◌==◌, string_eq, contains, IsUnique,
  length, arith, eq_iff, if◌then◌else◌, ap,
}

-- A node id, by its canonical text.
abbrev pub NodeId : Type 0
NodeId = String

-- The loop over `j`: it deletes each later id that equals `nodes[i]`, and stays at the same index.
drop_equal : NodeId → List NodeId → List NodeId
drop_equal x [] = []
drop_equal x (y ∷ ys) = let rest = drop_equal x ys in if x == y then rest else y ∷ rest

-- The loop over `i`, which goes on to the end of the list as it has become.
union_from : ℕ → List NodeId → List NodeId
union_from zero nodes = nodes
union_from (suc fuel) [] = []
union_from (suc fuel) (x ∷ xs) = x ∷ union_from fuel (drop_equal x xs)

-- As many rounds as there are ids are enough.
unfoldable pub nodes_union : List NodeId → List NodeId
unfolding union_from drop_equal
nodes_union nodes = union_from (length nodes) nodes

contains-drop_equal :
    (x y : NodeId) (ys : List NodeId)
    → contains y (drop_equal x ys) ≡ (if x == y then false else contains y ys)
unfolding drop_equal
contains-drop_equal x y [] = ground arith
contains-drop_equal x y (z ∷ zs) =
    ground (arith, contains-drop_equal x y zs, eq_iff x y, eq_iff x z, eq_iff z y)

length-drop_equal-le : (x : NodeId) (ys : List NodeId) → length (drop_equal x ys) ≤ length ys
unfolding drop_equal
length-drop_equal-le x [] = omega arith
length-drop_equal-le x (y ∷ ys) = ground (arith, length-drop_equal-le x ys)

drop_equal_of_fresh : (x : NodeId) (ys : List NodeId) → contains x ys ≡ false → drop_equal x ys ≡ ys
unfolding drop_equal
drop_equal_of_fresh x [] h = refl
drop_equal_of_fresh x (y ∷ ys) h = ground (arith, drop_equal_of_fresh x ys, eq_iff x y, eq_iff y x)

contains-union_from :
    (fuel : ℕ) (xs : List NodeId) (y : NodeId) → contains y (union_from fuel xs) ≡ contains y xs
unfolding union_from
contains-union_from zero xs y = refl
contains-union_from (suc fuel) [] y = refl
contains-union_from (suc fuel) (x ∷ xs) y =
    ground (arith, contains-union_from fuel (drop_equal x xs) y, contains-drop_equal x y xs)

union_from-IsUnique :
    (fuel : ℕ) (xs : List NodeId) → length xs ≤ fuel → IsUnique (union_from fuel xs)
unfolding union_from
union_from-IsUnique zero [] h = tt
union_from-IsUnique zero (x ∷ xs) h = absurd (omega arith)
union_from-IsUnique (suc fuel) [] h = tt
union_from-IsUnique (suc fuel) (x ∷ xs) h = (
  ground
      (arith, contains-union_from fuel (drop_equal x xs) x, contains-drop_equal x x xs, eq_iff x x),
  union_from-IsUnique fuel (drop_equal x xs) (omega (arith, length-drop_equal-le x xs)),
)

union_from_of_unique : (fuel : ℕ) (xs : List NodeId) → IsUnique xs → union_from fuel xs ≡ xs
unfolding union_from
union_from_of_unique zero xs h = refl
union_from_of_unique (suc fuel) [] h = refl
union_from_of_unique (suc fuel) (x ∷ xs) (fresh, h) =
    rw (drop_equal_of_fresh x xs fresh) (ap (◌∷◌ x) (union_from_of_unique fuel xs h))

-- The union has every id once, has exactly the ids of the list, and a list that has every id once
-- stays as it is, its order included.
pub nodes_union_lem :
    (nodes : List NodeId)
    → IsUnique (nodes_union nodes)
      × ((y : NodeId) → contains y (nodes_union nodes) ≡ contains y nodes)
      × (IsUnique nodes → nodes_union nodes ≡ nodes)
unfolding nodes_union
nodes_union_lem nodes = (
  union_from-IsUnique (length nodes) nodes (omega arith),
  contains-union_from (length nodes) nodes,
  union_from_of_unique (length nodes) nodes,
)
