-- ===== src/Brickmux.antt =====
-- glusterd2/brickmux/compat.go: the brick to whose process a brick is attached, with the bricks of a
-- volume from glusterd2/volume/struct.go. A limit of 0 is no limit; a negative one, which acts like
-- it, is not modelled. `Host` is this node: its id, which brick processes run (a daemon object that
-- cannot be made counts as not running), and the port map.
pub mod Target
pub mod Refusal
mod Scenarios
use glusterd.Prelude.{
  ℕ, String, Bool, true, false, not, ◌&&◌, ◌||◌, Option, none, some, List, [], ◌∷◌, ◌++◌, ◌==◌,
  string_eq, option_beq, ltb, nat_beq, length, Result, ok, err, if◌then◌else◌, contains,
}
use glusterd.GoMap.{GoMap, lookup}
use glusterd.Pmap.{Registry, search_by_brick_path, num_of_bricks_on_port}
use glusterd.Transaction.Nodes.{NodeId}

pub record Brickinfo : Type 0 where
  pub id : String
  pub peer_id : NodeId
  pub path : String

pub data VolState : Type 0 where
  created started stopped : VolState

pub record Volinfo : Type 0 where
  pub name : String
  pub state : VolState
  pub options : GoMap String String
  -- the bricks of each subvolume
  pub subvols : List (List Brickinfo)

pub record Host : Type 0 where
  pub my_uuid : NodeId
  pub is_running : Brickinfo → Bool
  pub registry : Registry

-- The loop over the bricks of a subvolume, for local ones only or for all, in front of the rest.
unfoldable pub add_bricks : Bool → NodeId → List Brickinfo → List Brickinfo → List Brickinfo
add_bricks only_local self [] rest = rest
add_bricks only_local self (b ∷ bs) rest =
    let more = add_bricks only_local self bs rest in
    if only_local && not (b.peer_id == self) then more else b ∷ more

unfoldable pub bricks_of : Bool → NodeId → List (List Brickinfo) → List Brickinfo
bricks_of only_local self [] = []
bricks_of only_local self (bs ∷ subvols) =
    add_bricks only_local self bs (bricks_of only_local self subvols)

-- `GetLocalBricks`
pub get_local_bricks : Host → Volinfo → List Brickinfo
get_local_bricks h v = bricks_of true h.my_uuid v.subvols

pub is_started : VolState → Bool
is_started started = true
is_started _ = false

-- The brick has a port, whose process does not run `max_bricks` bricks yet.
pub has_room : Host → ℕ → Brickinfo → Bool
has_room h max_bricks local = elim (search_by_brick_path h.registry local.path) [
  | err e ↦ false
  | ok port ↦ elim (num_of_bricks_on_port h.registry port) [
    | err e ↦ false
    | ok n ↦ not (nat_beq n max_bricks)
  ]
]

-- The tests of the loop of `validateBmuxTarget` on a local brick.
pub is_target : Host → Brickinfo → ℕ → Brickinfo → Bool
is_target h b max_bricks local =
    not (b.id == local.id) && h.is_running local && has_room h max_bricks local

pub first_target : Host → Brickinfo → ℕ → List Brickinfo → Option Brickinfo
first_target h b max_bricks [] = none
first_target h b max_bricks (local ∷ locals) =
    let rest = first_target h b max_bricks locals in
    if is_target h b max_bricks local then some local else rest

pub validate_bmux_target : Host → Brickinfo → Volinfo → ℕ → Option Brickinfo
validate_bmux_target h b v max_bricks = first_target h b max_bricks (get_local_bricks h v)

pub is_sub_map : GoMap String String → GoMap String String → Bool
is_sub_map [] other = true
is_sub_map ((k, v) ∷ m) other =
    let rest = is_sub_map m other in option_beq (λ a b. a == b) (lookup k other) (some v) && rest

-- `reflect.DeepEqual` of two maps, each with its keys once and none of them nil.
pub same_options : GoMap String String → GoMap String String → Bool
same_options m other = nat_beq (length m) (length other) && is_sub_map m other

pub any_started : List Volinfo → Bool
any_started [] = false
any_started (v ∷ vs) = let rest = any_started vs in is_started v.state || rest

-- A volume that the loop over the volumes does not skip.
pub is_compatible : Host → Volinfo → Volinfo → Bool
unfolding is_started
is_compatible h own v =
    not (nat_beq (length (get_local_bricks h v)) 0)
    && is_started v.state
    && same_options v.options own.options

-- The loop over the volumes: the target volume and the target brick.
pub scan :
    Host
    → Brickinfo
    → Volinfo
    → ℕ
    → Option Volinfo
    → List Volinfo
    → Option Volinfo × Option Brickinfo
scan h b own max_bricks target [] = (target, none)
scan h b own max_bricks target (v ∷ vs) =
    let skipped = scan h b own max_bricks target vs in
    let go_on = scan h b own max_bricks (some v) vs in
    if not (is_compatible h own v)
    then skipped
    else if ltb 0 max_bricks
    then elim (validate_bmux_target h b v max_bricks) [ none ↦ go_on | some t ↦ (some v, some t) ]
    else (some v, none)

abbrev pub volume_or : Volinfo → Option Volinfo → Volinfo
volume_or own none = own
volume_or own (some v) = v

pub data MuxError : Type 0 where
  no_compat : MuxError

-- What follows the loop.
pub settle :
    Host → Brickinfo → Volinfo → ℕ → Option Volinfo × Option Brickinfo → Result MuxError Brickinfo
settle h b own max_bricks (target, some t) = ok t
settle h b own max_bricks (target, none) =
    elim (validate_bmux_target h b (if ltb 0 max_bricks then own else volume_or own target)
      max_bricks) [ none ↦ err no_compat | some t ↦ ok t ]

pub find_compatible_brick :
    Host → Brickinfo → Volinfo → List Volinfo → ℕ → Result MuxError Brickinfo
find_compatible_brick h b own volumes max_bricks =
    settle h b own max_bricks
      (if any_started volumes then scan h b own max_bricks none volumes else (some own, none))
