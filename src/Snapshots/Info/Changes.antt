-- ===== src/Snapshots/Info/Changes.antt =====
-- What a snapshot does to options, and what restoring it gives back.
use mathlib.Core.Path.{subst}
use glusterd.Prelude.{
  ◌≡◌, refl, String, true, false, Option, some, [], ◌∷◌, string_eq, contains, IsUnique,
  if◌then◌else◌, arith, ==-cases, Bool-cases, ap, ◌∙◌, inl, inr,
}
use glusterd.GoMap.{
  GoMap, lookup, insert, insert_all, keys, lookup-insert, lookup-insert_all, lookup-nil,
  keys-insert-IsUnique,
}
use glusterd.Snapshots.Info.{ignore_ops, current, change_options}

ignore_ops-IsUnique : IsUnique (keys ignore_ops)
ignore_ops-IsUnique = (refl, (refl, (refl, (refl, (refl, (refl, (refl, (refl, tt))))))))

-- The two maps at a key that is not among the options to be changed.
change_options_other :
    (find_option : String → Option String) (ops options changes : GoMap String String) (k : String)
    → contains k (keys ops) ≡ false
    → let (options', changes') = change_options find_option ops options changes in
      (lookup k options' ≡ lookup k options) × (lookup k changes' ≡ lookup k changes)
unfolding change_options
change_options_other find_option [] options changes k new = (refl, refl)
change_options_other find_option ((j, v) ∷ ops) options changes k new =
    let w = current find_option options j in
    let (opts, chgs) =
      change_options_other find_option ops (insert j v options) (insert j w changes) k
        (ground (arith, new)) in
    (
      ground (arith, new, opts, lookup-insert j k v options),
      ground (arith, new, chgs, lookup-insert j k w changes),
    )

-- The changes at a key that is among them.
change_options_found :
    (find_option : String → Option String) (ops options changes : GoMap String String) (k : String)
    → IsUnique (keys ops)
    → contains k (keys ops) ≡ true
    → lookup k (change_options find_option ops options changes).1
      ≡ some (current find_option options k)
unfolding change_options
change_options_found find_option [] options changes k unique new = cc
change_options_found find_option ((j, v) ∷ ops) options changes k (fresh, unique) found =
    let w = current find_option options j in
    elim (==-cases j k) [
      | inl (same, p) ↦
          let (opts, chgs) =
            change_options_other find_option ops (insert j v options) (insert j w changes) k
              (subst (λ (x : String). contains x (keys ops) ≡ false) p fresh) in
          let here : some w ≡ some (current find_option options k) =
            ap (λ (x : String). some (current find_option options x)) p in
          chgs ∙ ground (arith, lookup-insert j k w changes, same, here)
      | inr (other, p) ↦
          change_options_found find_option ops (insert j v options) (insert j w changes) k unique
            (ground (arith, found, other))
          ∙ ground (arith, lookup-insert j k v options, other)
    ]

changes-IsUnique :
    (find_option : String → Option String) (ops options changes : GoMap String String)
    → IsUnique (keys changes)
    → IsUnique (keys (change_options find_option ops options changes).1)
unfolding change_options
changes-IsUnique find_option [] options changes unique = unique
changes-IsUnique find_option ((j, v) ∷ ops) options changes unique =
    changes-IsUnique find_option ops (insert j v options)
      (insert j (current find_option options j) changes)
      (keys-insert-IsUnique j (current find_option options j) changes unique)

-- An option as a restored volume has it: that of the volume, and those of other features written out.
abbrev pub restored_option : (String → Option String) → GoMap String String → String → Option String
restored_option find_option options k =
    if contains k (keys ignore_ops) then some (current find_option options k) else lookup k options

pub insert_all-change_options :
    (find_option : String → Option String) (options : GoMap String String) (k : String)
    → let (options', changes) = change_options find_option ignore_ops options [] in
      lookup k (insert_all changes options') ≡ restored_option find_option options k
insert_all-change_options find_option options k =
    let back =
      lookup-insert_all (change_options find_option ignore_ops options []).1
        (change_options find_option ignore_ops options []).0 k
        (changes-IsUnique find_option ignore_ops options [] tt) in
    elim (Bool-cases (contains k (keys ignore_ops))) [
      | inl found ↦
          back
          ∙ ground (
            arith,
            found,
            change_options_found find_option ignore_ops options [] k ignore_ops-IsUnique found,
          )
      | inr new ↦
          let (opts, chgs) = change_options_other find_option ignore_ops options [] k new in
          back ∙ ground (arith, new, opts, chgs, lookup-nil {V = String} k)
    ]
