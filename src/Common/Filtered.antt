-- ===== src/Common/Filtered.antt =====
-- Loops that append a result for each element that passes a test.
use mathlib.Core.Path.{◌≡◌, refl, subst}
use mathlib.Core.Logic.{◌↔◌, ◌⊎◌, inl, inr}
use mathlib.Core.Bool.{Bool, true}
use mathlib.Core.List.{List, [], ◌∷◌}
use factvault.Common.Tests.{if◌then◌else◌, Bool-cases}
use factvault.Common.Members.{In}

-- The function is such a loop.
pub record IsFiltered {A B : Type 0} (keep : A → Bool) (f : A → B) (loop : List A → List B)
    : Type 0 where
  pub on_nil : loop [] ≡ []
  pub on_cons : (x : A) (xs : List A) → loop (x ∷ xs) ≡ (if keep x then f x ∷ loop xs else loop xs)

module _ {A B : Type 0} (keep : A → Bool) (f : A → B) (y : B) where
  abbrev Kept : List A → Type 0
  Kept xs = (x : A) × In x xs × (keep x ≡ true) × (y ≡ f x)

  later-Kept : (x : A) (xs : List A) → Kept xs → Kept (x ∷ xs)
  later-Kept x xs (z, n, k, e) = (z, inr n, k, e)

  Kept-cases : (x : A) (xs : List A) → Kept (x ∷ xs) → ((keep x ≡ true) × (y ≡ f x)) ⊎ Kept xs
  Kept-cases x xs (z, inl e, k, g) = inl (subst (λ v. keep v ≡ true) e k, subst (λ v. y ≡ f v) e g)
  Kept-cases x xs (z, inr n, k, g) = inr (z, n, k, g)

  -- What it appends comes from an element that passes the test, and every such element gives one.
  pub In-filtered_iff :
      (loop : List A → List B)
      → IsFiltered keep f loop
      → (xs : List A) → In y (loop xs) ↔ ((x : A) × In x xs × (keep x ≡ true) × (y ≡ f x))
  In-filtered_iff loop h [] = (λ m. absurd (subst (In y) h.on_nil m), λ m. absurd m.1)
  In-filtered_iff loop h (x ∷ xs) =
      let rest = In-filtered_iff loop h xs in
      rw (h.on_cons x xs) (elim (Bool-cases (keep x)) [
        | inl kept ↦ rw kept (
          λ m. elim m [ inl e ↦ (x, inl refl, kept, e) | inr n ↦ later-Kept x xs (rest.0 n) ],
          λ m. elim (Kept-cases x xs m) [ inl p ↦ inl p.1 | inr n ↦ inr (rest.1 n) ],
        )
        | inr dropped ↦ rw dropped (
          λ m. later-Kept x xs (rest.0 m),
          λ m. elim (Kept-cases x xs m) [ inl p ↦ absurd (cc) | inr n ↦ rest.1 n ],
        )
      ])
