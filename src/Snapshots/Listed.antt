-- ===== src/Snapshots/Listed.antt =====
-- That the lists of snapshots in the volumes cover the snapshots in the store: what each write keeps.
pub mod Creation
pub mod Restoration
pub mod VolumeCommands
pub mod History
use mathlib.Core.Path.{subst}
use glusterd.Prelude.{
  ◌≡◌, ◌≢◌, ◌⊎◌, refl, sym, ap, ◌∙◌, inl, inr, String, Bool, true, false, ◌&&◌, Option, none, some,
  List, [], ◌∷◌, string_eq, eq_iff, ◌==◌, ==-cases, contains, if◌then◌else◌, arith, Option-cases,
  Bool-cases,
}
use glusterd.GoMap.{GoMap, lookup, insert, delete, lookup-insert, lookup-delete}
use glusterd.Volumes.{Volinfo}
use glusterd.Snapshots.{
  Snapinfo, Db, add_or_update_volume, add_or_update_snap, without_first, Writes, unlist,
  delete_snapshot,
}

-- Everything lies under its name, and a snapshot's name is on the list of its parent, which exists.
pub record IsListed (db : Db) : Type 0 where
  pub volume_names : (n : String) (v : Volinfo) → lookup n db.volumes ≡ some v → v.name ≡ n
  pub snap_names :
      (n : String) (s : Snapinfo) → lookup n db.snaps ≡ some s → s.snap_volinfo.name ≡ n
  pub listed :
      (n : String) (s : Snapinfo)
      → lookup n db.snaps ≡ some s
      → (v : Volinfo) × (lookup s.parent_volume db.volumes ≡ some v)
        × (contains n v.snap_list ≡ true)

-- The list of a volume has the names of its snapshots in the store.
abbrev pub CoversSnaps : Volinfo → Db → Type 0
CoversSnaps v db =
    (n : String) (s : Snapinfo)
    → lookup n db.snaps ≡ some s
    → s.parent_volume ≡ v.name
    → contains n v.snap_list ≡ true

pub stored-CoversSnaps :
    (k : String) (v : Volinfo) (db : Db)
    → IsListed db
    → lookup k db.volumes ≡ some v
    → CoversSnaps v db
stored-CoversSnaps k v db inv found n s h parent =
    let (w, there, has) = inv.listed n s h in
    let at_k = ap (λ (x : String). lookup x db.volumes) (parent ∙ inv.volume_names k v found) in
    let same : w ≡ v = ground (arith, there, at_k, found) in
    subst (λ (x : Volinfo). contains n x.snap_list ≡ true) same has

lookup-insert_other :
    {A : Type 0} (j k : String) (a : A) (m : GoMap String A)
    → (j == k) ≡ false
    → lookup k (insert j a m) ≡ lookup k m
lookup-insert_other j k a m h = ground (arith, lookup-insert j k a m, h)

pub add_or_update_volume-IsListed :
    (v : Volinfo) (db : Db) → IsListed db → CoversSnaps v db → IsListed (add_or_update_volume v db)
add_or_update_volume-IsListed v db inv covers = record {
  volume_names = λ n w h. elim (==-cases v.name n) [
    | inl (same, p) ↦ ground (arith, h, lookup-insert v.name n v db.volumes, same, p)
    | inr (other, p) ↦
        inv.volume_names n w (ground (arith, h, lookup-insert v.name n v db.volumes, other))
  ];
  snap_names = inv.snap_names;
  listed = λ n s h. elim (==-cases v.name s.parent_volume) [
    | inl (same, p) ↦ (
      v,
      ground (arith, lookup-insert v.name s.parent_volume v db.volumes, same),
      covers n s h (sym p),
    )
    | inr (other, p) ↦
        let (w, found, has) = inv.listed n s h in
        (w, lookup-insert_other v.name s.parent_volume v db.volumes other ∙ found, has)
  ];
}

pub add_or_update_snap-IsListed :
    (s : Snapinfo) (v : Volinfo) (db : Db)
    → IsListed db
    → lookup s.parent_volume db.volumes ≡ some v
    → contains s.snap_volinfo.name v.snap_list ≡ true
    → IsListed (add_or_update_snap s db)
add_or_update_snap-IsListed s v db inv found has =
    let name = s.snap_volinfo.name in
    let written : (n : String) (t : Snapinfo)
        → lookup n (insert name s db.snaps) ≡ some t
        → ((name ≡ n) × (s ≡ t)) ⊎ (lookup n db.snaps ≡ some t) =
      λ n t h. elim (==-cases name n) [
        | inl (same, p) ↦ inl (p, ground (arith, h, lookup-insert name n s db.snaps, same))
        | inr (other, p) ↦ inr (ground (arith, h, lookup-insert name n s db.snaps, other))
      ] in
    record {
      volume_names = inv.volume_names;
      snap_names = λ n t h. elim (written n t h) [
        | inl (p, q) ↦ ap (λ (x : Snapinfo). x.snap_volinfo.name) (sym q) ∙ p
        | inr old ↦ inv.snap_names n t old
      ];
      listed = λ n t h. elim (written n t h) [
        | inl (p, q) ↦ (
          v,
          ap (λ (x : Snapinfo). lookup x.parent_volume db.volumes) (sym q) ∙ found,
          subst (λ (x : String). contains x v.snap_list ≡ true) p has,
        )
        | inr old ↦ inv.listed n t old
      ];
    }

-- A snapshot that is left after one was deleted.
pub lookup_of_delete :
    {A : Type 0} (name n : String) (s : A) (snaps : GoMap String A)
    → lookup n (delete name snaps) ≡ some s
    → ((name == n) ≡ false) × (lookup n snaps ≡ some s)
lookup_of_delete name n s snaps h = elim (Bool-cases (name == n)) [
  | inl same ↦ absurd (ground (arith, h, lookup-delete name n snaps, same))
  | inr other ↦ (other, ground (arith, h, lookup-delete name n snaps, other))
]

delete-IsListed :
    (name : String) (db : Db) → IsListed db → IsListed (record db { snaps = delete name db.snaps })
delete-IsListed name db inv = record {
  volume_names = inv.volume_names;
  snap_names = λ n s h. inv.snap_names n s (lookup_of_delete name n s db.snaps h).1;
  listed = λ n s h. inv.listed n s (lookup_of_delete name n s db.snaps h).1;
}

contains-without_first :
    (name m : String) (l rest : List String)
    → without_first name l ≡ some rest
    → (name == m) ≡ false
    → contains m rest ≡ contains m l
unfolding without_first
contains-without_first name m [] rest h other = cc
contains-without_first name m (entry ∷ l) rest h other =
    elim (Option-cases (without_first name l)) [
      | inl missing ↦
          ground (arith, h, other, missing, eq_iff entry name, eq_iff name m, eq_iff entry m)
      | inr (rest', found) ↦ ground (
        arith,
        h,
        other,
        found,
        contains-without_first name m l rest' found other,
        eq_iff entry name,
        eq_iff name m,
        eq_iff entry m,
      )
    ]

is_other :
    (name n : String) (t : Snapinfo) (db : Db)
    → lookup name db.snaps ≡ none
    → lookup n db.snaps ≡ some t
    → (name == n) ≡ false
is_other name n t db gone h = elim (==-cases name n) [
  | inr (other, p) ↦ other
  | inl (same, p) ↦ absurd (ground (arith, gone, h, ap (λ (x : String). lookup x db.snaps) p))
]

unlist-IsListed :
    (written : Bool) (s : Snapinfo) (db : Db)
    → IsListed db
    → lookup s.snap_volinfo.name db.snaps ≡ none
    → IsListed (unlist written s db).0
unfolding unlist
unlist-IsListed written s db inv gone = elim (Option-cases (lookup s.parent_volume db.volumes)) [
  | inl missing ↦ subst IsListed (ground (arith, missing)) inv
  | inr (vol, found) ↦ elim (Option-cases (without_first s.snap_volinfo.name vol.snap_list)) [
    | inl absent ↦ subst IsListed (ground (arith, found, absent)) inv
    | inr (l, shorter) ↦ elim (Bool-cases written) [
      | inr failed ↦ subst IsListed (ground (arith, found, shorter, failed)) inv
      | inl done ↦
          let shorter_vol : Volinfo = record vol { snap_list = l } in
          subst IsListed (ground (arith, found, shorter, done)) (
            add_or_update_volume-IsListed shorter_vol db inv (λ n t h parent.
              let name = s.snap_volinfo.name in
              let old = stored-CoversSnaps s.parent_volume vol db inv found n t h parent in
              let other = is_other name n t db gone h in
              contains-without_first name n vol.snap_list l shorter other ∙ old))
    ]
  ]
]

pub delete_snapshot-IsListed :
    (w : Writes) (s : Snapinfo) (db : Db) → IsListed db → IsListed (delete_snapshot w s db).0
unfolding delete_snapshot
delete_snapshot-IsListed w s db inv = elim (Bool-cases w.snap) [
  | inr failed ↦ subst IsListed (ground (arith, failed)) inv
  | inl done ↦
      let db' : Db = record db { snaps = delete s.snap_volinfo.name db.snaps } in
      subst IsListed (ground (arith, done)) (
        unlist-IsListed w.list s db' (delete-IsListed s.snap_volinfo.name db inv) (
          ground (
            arith,
            lookup-delete s.snap_volinfo.name s.snap_volinfo.name db.snaps,
            eq_iff s.snap_volinfo.name s.snap_volinfo.name,
          )))
]
