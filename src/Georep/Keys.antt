-- ===== src/Georep/Keys.antt =====
-- The ssh keys in the store: `addOrUpdateSSHKey` and `getSSHPublicKeys` of
-- plugins/georeplication/store-utils.go. Keys of the store are texts, and a read by prefix gives the
-- values of all keys that begin with it.
use mathlib.Core.List.{Memᴰ, append_assoc}
use mathlib.Core.List.Memᴰ as MemD
use glusterd.Prelude.{
  ◌≡◌, refl, inl, inr, true, Option, none, some, List, [], ◌∷◌, ◌++◌, Bytes, codes, bytes_eq,
  if◌then◌else◌, Bool-cases, bytes_beq,
}
use glusterd.GoMap.{GoMap, insert}
use glusterd.Text.{has_prefix, has_prefix-append}

pub record SshPublicKey : Type 0 where
  pub peer_id : Bytes
  pub gsyncd_key : Bytes
  pub tar_key : Bytes

abbrev pub KeyStore : Type 0
KeyStore = GoMap Bytes SshPublicKey

abbrev pub georep_ssh_keys_prefix : Bytes
georep_ssh_keys_prefix = codes "georeplication-ssh-keys/"

abbrev pub key_path : Bytes → Bytes → Bytes
key_path vol_name peer_id = (georep_ssh_keys_prefix ++ vol_name) ++ codes "/" ++ peer_id

unfoldable pub add_or_update_ssh_key : Bytes → SshPublicKey → KeyStore → KeyStore
add_or_update_ssh_key vol_name key store = insert (key_path vol_name key.peer_id) key store

-- store.Get with WithPrefix
unfoldable pub values_under : Bytes → KeyStore → List SshPublicKey
values_under prefix [] = []
values_under prefix ((path, key) ∷ store) =
    let rest = values_under prefix store in if has_prefix path prefix then key ∷ rest else rest

unfoldable pub get_ssh_public_keys : Bytes → KeyStore → Option (List SshPublicKey)
get_ssh_public_keys vol_name store =
    elim (values_under (georep_ssh_keys_prefix ++ vol_name) store) [
      | [] ↦ none
      | key ∷ keys ↦ some (key ∷ keys)
    ]

values_under-insert :
    (prefix path : Bytes) (key : SshPublicKey) (store : KeyStore)
    → has_prefix path prefix ≡ true
    → Memᴰ key (values_under prefix (insert path key store))
unfolding values_under insert
values_under-insert prefix path key [] h = rw h (Memᴰ.head refl)
values_under-insert prefix path key ((p, k) ∷ store) h =
    let later = values_under-insert prefix path key store h in
    elim (Bool-cases (bytes_beq p path)) [
      | inl here ↦ rw here (rw h (Memᴰ.head refl))
      | inr other ↦ rw other (elim (Bool-cases (has_prefix p prefix)) [
        | inl kept ↦ rw kept (Memᴰ.tail later)
        | inr dropped ↦ rw dropped later
      ])
    ]

found_in :
    (keys : List SshPublicKey) (key : SshPublicKey)
    → Memᴰ key keys
    → elim keys [ [] ↦ none | k ∷ ks ↦ some (k ∷ ks) ] ≡ some keys
found_in [] key m = absurd (MemD.not-nil m)
found_in (k ∷ ks) key m = refl

path_begins :
    (vol_name more peer_id : Bytes)
    → has_prefix (key_path (vol_name ++ more) peer_id) (georep_ssh_keys_prefix ++ vol_name) ≡ true
path_begins vol_name more peer_id =
    let rest = codes "/" ++ peer_id in
    rw (append_assoc (vol_name ++ more) (codes "/") peer_id) (
      rw (append_assoc vol_name more rest)
        (has_prefix-append (georep_ssh_keys_prefix ++ vol_name) (more ++ rest)))

-- A key that is stored for a volume is among those that are found for every volume whose name its name
-- begins with, and not for that volume alone.
get_ssh_public_keys_lem :
    (vol_name more : Bytes) (key : SshPublicKey) (store : KeyStore)
    → (keys : List SshPublicKey) × (get_ssh_public_keys vol_name
          (add_or_update_ssh_key (vol_name ++ more) key store)
        ≡ some keys)
      × Memᴰ key keys
unfolding get_ssh_public_keys add_or_update_ssh_key
get_ssh_public_keys_lem vol_name more key store =
    let prefix = georep_ssh_keys_prefix ++ vol_name in
    let path = key_path (vol_name ++ more) key.peer_id in
    let m = values_under-insert prefix path key store (path_begins vol_name more key.peer_id) in
    (
      values_under prefix (insert path key store),
      found_in (values_under prefix (insert path key store)) key m,
      m,
    )
