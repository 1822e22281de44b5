-- ===== src/Peers/Address.antt =====
-- pkg/utils/peerutils.go: addresses of peers, with `net.SplitHostPort`.
use glusterd.Prelude.{
  ℕ, suc, ◌+◌, Bool, ◌&&◌, ◌||◌, Option, none, some, [], ◌∷◌, ◌++◌, Bytes, bytes_eq, ◌==◌, nat_beq,
  length, take, drop, Result, ok, err, if◌then◌else◌,
}
use glusterd.Text.{has_code}

pub data AddrError : Type 0 where
  missing_port too_many_colons missing_bracket unexpected_bracket : AddrError

-- `strings.IndexByte`
index_of : ℕ → Bytes → Option ℕ
index_of c [] = none
index_of c (d ∷ s) =
    let rest : Option ℕ = elim (index_of c s) [ none ↦ none | some i ↦ some (suc i) ] in
    if nat_beq d c then some 0 else rest

last_index_of : ℕ → Bytes → Option ℕ
last_index_of c [] = none
last_index_of c (d ∷ s) = elim (last_index_of c s) [
  | some i ↦ some (suc i)
  | none ↦ if nat_beq d c then some 0 else none
]

-- The host, and where the texts begin in which no bracket may follow, `j` and `k`.
abbrev bracketed : Bytes → ℕ → Result AddrError (Bytes × ℕ × ℕ)
bracketed s i = elim (index_of b']' s) [
  | none ↦ err missing_bracket
  | some end ↦
      if nat_beq (end + 1) (length s)
      then err missing_port
      else if nat_beq (end + 1) i
      then ok (drop 1 (take end s), 1, end + 1)
      else if nat_beq (length (take 1 (drop (end + 1) s))) 1
          && has_code b':' (take 1 (drop (end + 1) s))
      then err too_many_colons
      else err missing_port
]

abbrev plain : Bytes → ℕ → Result AddrError (Bytes × ℕ × ℕ)
plain s i = if has_code b':' (take i s) then err too_many_colons else ok (take i s, 0, 0)

-- `net.SplitHostPort`
unfoldable pub split_host_port : Bytes → Result AddrError (Bytes × Bytes)
unfolding index_of last_index_of
split_host_port s = elim (last_index_of b':' s) [
  | none ↦ err missing_port
  | some i ↦ elim (if has_code b'[' (take 1 s) then bracketed s i else plain s i) [
    | err e ↦ err e
    | ok (host, j, k) ↦
        if has_code b'[' (drop j s) || has_code b']' (drop k s)
        then err unexpected_bracket
        else ok (host, drop (i + 1) s)
  ]
]

-- `none` is an error; `default_port` is the configured one.
unfoldable pub form_remote_peer_address : Bytes → Bytes → Option Bytes
form_remote_peer_address default_port addr =
    let join = λ (host port : Bytes). (if host == [] then none else some (host ++ b':' ∷ port)) in
    elim (split_host_port addr) [
      | ok (host, port) ↦ join host port
      | err e ↦ elim e [ missing_port ↦ join addr default_port | _ ↦ none ]
    ]

abbrev or_empty : Option Bytes → Bytes
or_empty none = []
or_empty (some s) = s

-- Errors are dropped: an address in error reads as the empty text.
unfoldable pub is_peer_address_same : Bytes → Bytes → Bytes → Bool
is_peer_address_same default_port addr₁ addr₂ =
    or_empty (form_remote_peer_address default_port addr₁)
    == or_empty (form_remote_peer_address default_port addr₂)
