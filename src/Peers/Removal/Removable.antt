-- ===== src/Peers/Removal/Removable.antt =====
-- When a peer is deleted.
use mathlib.Core.List.{Memᴰ}
use mathlib.Core.List.Memᴰ as MemD
use mathlib.Core.Path.{subst}
use glusterd.Prelude.{
  ◌≡◌, ◌≢◌, inl, inr, true, false, some, List, [], ◌∷◌, string_eq, eq_iff, String, arith,
  Option-cases,
}
use glusterd.Brickmux.{Brickinfo, Volinfo, bricks_of}
use glusterd.Transaction.Nodes.{NodeId}
use glusterd.Peers.Removal.{DeleteEnv, delete_peer, bricks_exist, any_on, is_on}

is_on_lem :
    (id : NodeId) (bs : List Brickinfo)
    → is_on id bs ≡ false
    → (b : Brickinfo) → Memᴰ b bs
    → b.peer_id ≢ id
unfolding is_on
is_on_lem id [] h b m = absurd (MemD.not-nil m)
is_on_lem id (c ∷ bs) h b m = elim (MemD.cases_cons m) [
  | inl e ↦ λ same. ground (arith, h, e, same, eq_iff id c.peer_id)
  | inr m' ↦ is_on_lem id bs (ground (arith, h)) b m'
]

any_on_lem :
    (id : NodeId) (vols : List Volinfo)
    → any_on id vols ≡ false
    → (v : Volinfo) → Memᴰ v vols
    → (b : Brickinfo) → Memᴰ b (bricks_of false "" v.subvols)
    → b.peer_id ≢ id
unfolding any_on
any_on_lem id [] h v m b mb = absurd (MemD.not-nil m)
any_on_lem id (w ∷ vols) h v m b mb = elim (MemD.cases_cons m) [
  | inl e ↦
      is_on_lem id (bricks_of false "" w.subvols) (ground (arith, h)) b
        (subst (λ (x : Volinfo). Memᴰ b (bricks_of false "" x.subvols)) e mb)
  | inr m' ↦ any_on_lem id vols (ground (arith, h)) v m' b mb
]

-- The checks under which a peer may go.
pub record IsRemovable (env : DeleteEnv) (id : String) : Type 0 where
  pub other : id ≢ env.my_uuid
  pub alive : env.is_node_alive id ≡ true
  pub volumes : List Volinfo
  pub listed : env.volumes ≡ some volumes
  pub unused :
      (v : Volinfo)
      → Memᴰ v volumes
      → (b : Brickinfo) → Memᴰ b (bricks_of false "" v.subvols)
      → b.peer_id ≢ id

leaves_only :
    (env : DeleteEnv) (id : String)
    → (delete_peer env id).left ≡ true
    → (id ≢ env.my_uuid)
      × (env.is_node_alive id ≡ true)
      × (bricks_exist id env.volumes ≡ some false)
unfolding delete_peer
leaves_only env id h = ground (arith, eq_iff id env.my_uuid)

-- A peer leaves the cluster by a request to delete it only if it is not this node, is alive, and no
-- volume has a brick on it.
pub delete_peer-IsRemovable :
    (env : DeleteEnv) (id : String) → (delete_peer env id).left ≡ true → IsRemovable env id
unfolding bricks_exist
delete_peer-IsRemovable env id h =
    let (other, alive, unused) = leaves_only env id h in
    elim (Option-cases env.volumes) [
      | inl unread ↦ absurd (ground (arith, unused, unread))
      | inr (vols, listed) ↦ record {
        other = other;
        alive = alive;
        volumes = vols;
        listed = listed;
        unused = any_on_lem id vols (ground (arith, unused, listed));
      }
    ]
