-- ===== src/Assembler/Graph/Unique.antt =====
-- `uniqueStrings` of internal/assembler/bundle.go.
use factvault.Common.{
  ◌≡◌, ◌≢◌, ◌↔◌, refl, inl, inr, true, ◌||◌, List, [], ◌∷◌, arith, Text, text_eq, text_eq_iff, In,
  Bool-cases,
}
use factvault.Assembler.Graph.{is_seen, unique_from, unique_strings}

-- No value stands twice, and none is empty.
abbrev IsUnique : List Text → Type 0
IsUnique [] = Unit
IsUnique (x ∷ xs) = (x ≢ []) × (In x xs → ⊥) × IsUnique xs

is_seen_iff : (value : Text) (seen : List Text) → (is_seen value seen ≡ true) ↔ In value seen
unfolding is_seen
is_seen_iff value [] = ground arith
is_seen_iff value (s ∷ seen) = ground (arith, is_seen_iff value seen, text_eq_iff s value)

-- The values kept are those given that are neither empty nor seen.
In-unique_from_iff :
    (x : Text) (seen values : List Text)
    → In x (unique_from seen values) ↔ (In x values × (x ≢ []) × (In x seen → ⊥))
unfolding unique_from
In-unique_from_iff x seen [] = ground arith
In-unique_from_iff x seen (value ∷ values) =
    elim (Bool-cases (text_eq value [] || is_seen value seen)) [
      | inl skip ↦ rw skip (
          ground
            (arith, In-unique_from_iff x seen values, is_seen_iff value seen, text_eq_iff value []))
      | inr keep ↦ rw keep (
          ground (
            arith,
            In-unique_from_iff x (value ∷ seen) values,
            is_seen_iff value seen,
            is_seen_iff x seen,
            text_eq_iff value [],
            text_eq_iff x value,
            Bool-cases (text_eq x value),
          ))
    ]

unique_from-IsUnique : (seen values : List Text) → IsUnique (unique_from seen values)
unfolding unique_from
unique_from-IsUnique seen [] = tt
unique_from-IsUnique seen (value ∷ values) =
    elim (Bool-cases (text_eq value [] || is_seen value seen)) [
      | inl skip ↦ rw skip (unique_from-IsUnique seen values)
      | inr keep ↦ rw keep (
        ground (arith, text_eq_iff value []),
        λ h. ((In-unique_from_iff value (value ∷ seen) values).0 h).2 (inl refl),
        unique_from-IsUnique (value ∷ seen) values,
      )
    ]

-- `uniqueStrings` answers each value that is not empty once, and nothing else.
In-unique_strings_iff :
    (values : List Text)
    → IsUnique (unique_strings values)
      × ((x : Text) → In x (unique_strings values) ↔ (In x values × (x ≢ [])))
unfolding unique_strings
In-unique_strings_iff values =
    (unique_from-IsUnique [] values, λ x. ground (arith, In-unique_from_iff x [] values))
