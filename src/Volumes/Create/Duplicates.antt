-- ===== src/Volumes/Create/Duplicates.antt =====
-- A request that passes `checkDupBrickEntryVolCreate` names every brick once.
use mathlib.Core.List.{◌++◌ as append}
use mathlib.Core.Path.{subst}
use glusterd.Prelude.{
  ◌≡◌, ◌≢◌, refl, sym, inl, inr, String, true, false, none, List, [], ◌∷◌, string_eq, eq_iff, ◌==◌,
  contains, IsUnique, Result, ok, err, ok-injective, arith, Bool-cases,
}
use glusterd.Volumes.Create.{SubvolReq, VolError, brick_keys, check_keys, check_dup_brick_entry}

-- The keys of all bricks of a request.
pub all_keys : (String → String) → List SubvolReq → List String
all_keys clean [] = []
all_keys clean (subvol ∷ subvols) = append (brick_keys clean subvol.bricks) (all_keys clean subvols)

-- None of the keys is among those seen.
IsNew : List String → List String → Type 0
IsNew seen keys = (k : String) → contains k keys ≡ true → contains k seen ≡ false

check_keys_lem :
    (seen keys more : List String) (seen' : List String)
    → check_keys seen keys ≡ ok seen'
    → IsUnique more
    → IsNew seen' more
    → IsUnique (append keys more) × IsNew seen (append keys more)
unfolding check_keys IsNew
check_keys_lem seen [] more seen' h unique new =
    (unique, subst (λ (x : List String). IsNew x more) (sym (ok-injective h)) new)
check_keys_lem seen (k ∷ keys) more seen' h unique new =
    let (others, fresh) =
      check_keys_lem (k ∷ seen) keys more seen' (ground (arith, h)) unique new in
    let fresh_k = fresh k in
    (
      (ground (arith, fresh_k, eq_iff k k), others),
      λ j within. elim (Bool-cases (k == j)) [
        | inl here ↦
            subst (λ (x : String). contains x seen ≡ false) ((eq_iff k j).0 here)
              (ground (arith, h))
        | inr other ↦ ground (arith, fresh j, within, other)
      ],
    )

is_checked :
    (r : Result VolError (List String))
    → ((e : VolError) → r ≢ err e)
    → (seen : List String) × (r ≡ ok seen)
is_checked (ok seen) possible = (seen, refl)
is_checked (err e) possible = absurd (possible e refl)

keys_checked :
    (clean : String → String) (seen : List String) (subvol : SubvolReq) (subvols : List SubvolReq)
    → check_dup_brick_entry clean seen (subvol ∷ subvols) ≡ none
    → (seen' : List String) × (check_keys seen (brick_keys clean subvol.bricks) ≡ ok seen')
unfolding check_dup_brick_entry
keys_checked clean seen subvol subvols h =
    is_checked (check_keys seen (brick_keys clean subvol.bricks)) (λ e bad. ground (arith, h, bad))

check_dup_brick_entry_lem :
    (clean : String → String) (seen : List String) (subvols : List SubvolReq)
    → check_dup_brick_entry clean seen subvols ≡ none
    → IsUnique (all_keys clean subvols) × IsNew seen (all_keys clean subvols)
unfolding check_dup_brick_entry all_keys IsNew
check_dup_brick_entry_lem clean seen [] h = (tt, λ k within. absurd (ground (arith, within)))
check_dup_brick_entry_lem clean seen (subvol ∷ subvols) h =
    let (seen', checked) = keys_checked clean seen subvol subvols h in
    let rest : check_dup_brick_entry clean seen' subvols ≡ none = ground (arith, h, checked) in
    let (others, fresh) = check_dup_brick_entry_lem clean seen' subvols rest in
    check_keys_lem seen (brick_keys clean subvol.bricks) (all_keys clean subvols) seen' checked
      others fresh

-- In a request that is accepted, no two bricks have the same peer and cleaned path, in one subvolume or
-- in two.
pub check_dup_brick_entry-IsUnique :
    (clean : String → String) (subvols : List SubvolReq)
    → check_dup_brick_entry clean [] subvols ≡ none
    → IsUnique (all_keys clean subvols)
check_dup_brick_entry-IsUnique clean subvols h = (check_dup_brick_entry_lem clean [] subvols h).0
