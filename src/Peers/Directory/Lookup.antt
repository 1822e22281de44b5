-- ===== src/Peers/Directory/Lookup.antt =====
-- Which peer is found for some addresses.
use mathlib.Core.List.{Memᴰ}
use mathlib.Core.List.Memᴰ as MemD
use glusterd.Prelude.{
  ◌≡◌, sym, ◌⊎◌, refl, inl, inr, true, false, none, some, List, [], ◌∷◌, Bytes, bytes_eq, Option,
  arith, Bool-cases, Option-cases,
}
use glusterd.Peers.{Peer}
use glusterd.Peers.Address.{form_remote_peer_address, is_peer_address_same}
use glusterd.Peers.Directory.{
  no_filter, get_peers, has_address, first_at, first_at_any, get_peer_by_addrs,
}

-- Two addresses that cannot be parsed count as the same one.
is_peer_address_same_invalid :
    (default_port addr₁ addr₂ : Bytes)
    → form_remote_peer_address default_port addr₁ ≡ none
    → form_remote_peer_address default_port addr₂ ≡ none
    → is_peer_address_same default_port addr₁ addr₂ ≡ true
unfolding is_peer_address_same
is_peer_address_same_invalid default_port addr₁ addr₂ h₁ h₂ = ground (arith, h₁, h₂)

-- The peer has one of the addresses.
pub HasAddress : Bytes → List Bytes → Peer → Type 0
HasAddress default_port addrs p =
    (a : Bytes) × (paddr : Bytes) × Memᴰ a addrs
    × Memᴰ paddr p.peer_addresses
    × (is_peer_address_same default_port a paddr ≡ true)

has_address_lem :
    (port a : Bytes) (paddrs : List Bytes)
    → has_address port a paddrs ≡ true
    → (paddr : Bytes) × Memᴰ paddr paddrs × (is_peer_address_same port a paddr ≡ true)
unfolding has_address
has_address_lem port a [] h = cc
has_address_lem port a (paddr ∷ paddrs) h = elim (Bool-cases (is_peer_address_same port a paddr)) [
  | inl same ↦ (paddr, Memᴰ.head refl, same)
  | inr apart ↦
      let (q, m, same) = has_address_lem port a paddrs (rw apart at h) in (q, Memᴰ.tail m, same)
]

first_at_lem :
    (port a : Bytes) (ps : List Peer) (p : Peer)
    → first_at port a ps ≡ some p
    → Memᴰ p ps × (has_address port a p.peer_addresses ≡ true)
unfolding first_at
first_at_lem port a [] p h = cc
first_at_lem port a (q ∷ ps) p h = elim (Bool-cases (has_address port a q.peer_addresses)) [
  | inl at_it ↦
      let q≡ : q ≡ p = ground (arith, h, at_it) in (Memᴰ.head (sym q≡), ground (arith, q≡, at_it))
  | inr apart ↦ let (m, good) = first_at_lem port a ps p (rw apart at h) in (Memᴰ.tail m, good)
]

first_at-none :
    (port a : Bytes) (ps : List Peer)
    → first_at port a ps ≡ none
    → (p : Peer) → Memᴰ p ps
    → has_address port a p.peer_addresses ≡ false
unfolding first_at
first_at-none port a [] h p m = absurd (MemD.not-nil m)
first_at-none port a (q ∷ ps) h p m = elim (Bool-cases (has_address port a q.peer_addresses)) [
  | inl at_it ↦ absurd (ground (arith, h, at_it))
  | inr apart ↦ elim (MemD.cases_cons m) [
    | inl e ↦ ground (arith, e, apart)
    | inr m' ↦ first_at-none port a ps (rw apart at h) p m'
  ]
]

first_at_any_lem :
    (port : Bytes) (addrs : List Bytes) (ps : List Peer)
    → ((p : Peer) × (first_at_any port addrs ps ≡ some p) × Memᴰ p ps × HasAddress port addrs p)
      ⊎ ((first_at_any port addrs ps ≡ none)
          × ((p : Peer)
              → Memᴰ p ps
              → (a : Bytes) → Memᴰ a addrs
              → has_address port a p.peer_addresses ≡ false))
unfolding first_at_any HasAddress
first_at_any_lem port [] ps = inr (refl, λ p m a m'. absurd (MemD.not-nil m'))
first_at_any_lem port (a ∷ addrs) ps = elim (Option-cases (first_at port a ps)) [
  | inr (p, found) ↦
      let (m, at_it) = first_at_lem port a ps p found in
      let (paddr, m', same) = has_address_lem port a p.peer_addresses at_it in
      inl (p, ground (arith, found), m, (a, paddr, Memᴰ.head refl, m', same))
  | inl absent ↦ elim (first_at_any_lem port addrs ps) [
    | inl (p, found, m, (b, paddr, mb, m', same)) ↦
        inl (p, ground (arith, absent, found), m, (b, paddr, Memᴰ.tail mb, m', same))
    | inr (nowhere, apart) ↦ inr (
      ground (arith, absent, nowhere),
      λ p m b mb. elim (MemD.cases_cons mb) [
        | inl e ↦ rw e (first_at-none port a ps absent p m)
        | inr mb' ↦ apart p m b mb'
      ],
    )
  ]
]

-- Either a peer of the store is found that has one of the addresses, or no peer of the store has any of
-- them.
get_peer_by_addrs_lem :
    (port : Bytes) (addrs : List Bytes) (kvs : List (Option Peer))
    → ((p : Peer) × (get_peer_by_addrs port addrs kvs ≡ some p)
        × Memᴰ p (get_peers no_filter kvs)
        × HasAddress port addrs p)
      ⊎ ((get_peer_by_addrs port addrs kvs ≡ none)
          × ((p : Peer)
              → Memᴰ p (get_peers no_filter kvs)
              → (a : Bytes) → Memᴰ a addrs
              → has_address port a p.peer_addresses ≡ false))
unfolding get_peer_by_addrs
get_peer_by_addrs_lem port addrs kvs = first_at_any_lem port addrs (get_peers no_filter kvs)
