-- ===== src/Options/Lists.antt =====
-- Values that are lists: addresses, priorities and words.
use mathlib.Core.List.{Memᴰ}
use mathlib.Core.List.Memᴰ as MemD
use glusterd.Prelude.{
  ◌≡◌, ◌↔◌, refl, inl, inr, true, none, some, List, [], ◌∷◌, Bytes, bytes_eq, ◌==◌, bytes_beq_iff,
  arith, Bool-cases, All,
}
use glusterd.Text.{split}
use glusterd.Options.{
  Formats, validate_internet_address, validate_addresses, validate_internet_address_list,
  after_colon, is_in_bytes, validate_size_list, validate_pairs, validate_priority_or_size, is_among,
}

module _ (fm : Formats) where
  validate_addresses_lem :
      (iplist : List Bytes)
      → (validate_addresses fm iplist ≡ none)
        ↔ All (λ ip. validate_internet_address fm ip ≡ none) iplist
  unfolding validate_addresses
  validate_addresses_lem [] = (λ h. tt, λ h. refl)
  validate_addresses_lem (ip ∷ iplist) = ground (arith, validate_addresses_lem iplist)

  -- A list of addresses passes exactly if each part between commas passes as an address.
  validate_internet_address_list_lem :
      (val : Bytes)
      → (validate_internet_address_list fm val ≡ none)
        ↔ All (λ ip. validate_internet_address fm ip ≡ none) (split b',' val)
  unfolding validate_internet_address_list
  validate_internet_address_list_lem val = validate_addresses_lem (split b',' val)

-- A list of priorities whose first pair is a size with its unit is judged by that size alone: what
-- follows the first comma is not looked at.
validate_priority_or_size_first :
    (val first size : Bytes) (more : List Bytes)
    → split b',' val ≡ first ∷ more
    → after_colon first ≡ some size
    → is_in_bytes size ≡ true
    → validate_priority_or_size val ≡ validate_size_list size
unfolding validate_priority_or_size validate_pairs
validate_priority_or_size_first val first size more parts known in_bytes =
    rw parts (ground (arith, known, in_bytes))

is_among_lem : (t : Bytes) (ops : List Bytes) → (is_among t ops ≡ true) ↔ Memᴰ t ops
unfolding is_among
is_among_lem t [] = (λ h. cc, λ m. absurd (MemD.not-nil m))
is_among_lem t (op ∷ ops) =
    let (out, into) = is_among_lem t ops in
    elim (Bool-cases (t == op)) [
      | inl same ↦ (λ h. Memᴰ.head ((bytes_beq_iff t op).0 same), λ m. ground (arith, same))
      | inr apart ↦ (
        λ h. Memᴰ.tail (out (ground (arith, h, apart))),
        λ m. elim (MemD.cases_cons m) [
          | inl e ↦ absurd (ground (arith, apart, e, bytes_beq_iff t op))
          | inr m' ↦ ground (arith, into m')
        ],
      )
    ]
