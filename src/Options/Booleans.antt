-- ===== src/Options/Booleans.antt =====
-- Two lists of the words for true and false.
use glusterd.Prelude.{
  ◌≡◌, ◌↔◌, Bool, true, false, ◌||◌, none, [], ok, Bytes, bytes_eq, ◌==◌, arith, Bool-cases, inl,
  inr, String, List, ◌∷◌,
}
use glusterd.Text.{is_one_of, lower}
use glusterd.Options.{string_to_boolean, validate_bool}

abbrev truths : List String
truths = "on" ∷ "yes" ∷ "true" ∷ "enable" ∷ "1" ∷ []

abbrev falsehoods : List String
falsehoods = "off" ∷ "no" ∷ "false" ∷ "disable" ∷ "0" ∷ []

validate_bool_words :
    (s : Bytes)
    → is_one_of s
        ("on" ∷ "yes" ∷ "true" ∷ "enable" ∷ "0" ∷ "off" ∷ "no" ∷ "false" ∷ "disable" ∷ "1" ∷ [])
      ≡ (is_one_of s truths || is_one_of s falsehoods)
unfolding is_one_of
validate_bool_words s = ground arith

-- A value passes for a boolean exactly if it can be read as one.
pub validate_bool-string_to_boolean :
    (val : Bytes) → (validate_bool val ≡ none) ↔ ((b : Bool) × (string_to_boolean val ≡ ok b))
unfolding validate_bool string_to_boolean
validate_bool-string_to_boolean val =
    let words = validate_bool_words (lower val) in
    elim (Bool-cases (val == [])) [
      | inl empty ↦
          (λ h. absurd (ground (arith, h, empty)), λ h. absurd (ground (arith, h.1, empty)))
      | inr given ↦ elim (Bool-cases (is_one_of (lower val) truths)) [
        | inl t ↦ (λ h. (true, ground (arith, given, t)), λ h. ground (arith, given, t, words))
        | inr f ↦ elim (Bool-cases (is_one_of (lower val) falsehoods)) [
          | inl f' ↦
              (λ h. (false, ground (arith, given, f, f')), λ h. ground (arith, given, f', words))
          | inr f' ↦ (
            λ h. absurd (ground (arith, h, given, f, f', words)),
            λ h. absurd (ground (arith, h.1, given, f, f')),
          )
        ]
      ]
    ]
