-- ===== src/Common/Sorting/Front.antt =====
-- The front of a sorted list.
use mathlib.Core.Path.{◌≡◌, ap, refl}
use mathlib.Core.Logic.{◌⊎◌, inl, inr}
use mathlib.Core.Bool.{Bool, false}
use mathlib.Core.List.{List, [], ◌∷◌}
use Prim.Native.Nat.{ℕ, zero, suc}
use factvault.Common.Lists.{All, take, length}
use factvault.Common.Members.{In}
use factvault.Common.Sorting.{IsSorted, All_In, All_of_In}

pub take_In : {A : Type 0} (n : ℕ) (x : A) (xs : List A) → In x (take n xs) → In x xs
take_In zero x xs m = absurd m
take_In (suc n) x [] m = absurd m
take_In (suc n) x (y ∷ ys) (inl e) = inl e
take_In (suc n) x (y ∷ ys) (inr m) = inr (take_In n x ys m)

pub take-IsSorted :
    {A : Type 0} (less : A → A → Bool) (n : ℕ) (xs : List A)
    → IsSorted less xs
    → IsSorted less (take n xs)
take-IsSorted less zero xs h = tt
take-IsSorted less (suc n) [] h = tt
take-IsSorted less (suc n) (x ∷ xs) h = (
  All_of_In (take n xs) (λ y m. All_In (λ z. less z x ≡ false) y xs h.0 (take_In n y xs m)),
  take-IsSorted less n xs h.1,
)

-- An element of a sorted list is in the front, or the front is full of elements that are no later.
pub front_full :
    {A : Type 0} (less : A → A → Bool) (n : ℕ) (x : A) (xs : List A)
    → IsSorted less xs
    → In x xs
    → In x (take n xs) ⊎ ((length (take n xs) ≡ n) × All (λ y. less x y ≡ false) (take n xs))
front_full less zero x xs h m = inr (refl, tt)
front_full less (suc n) x [] h m = absurd m
front_full less (suc n) x (y ∷ ys) h (inl e) = inl (inl e)
front_full less (suc n) x (y ∷ ys) h (inr m) = elim (front_full less n x ys h.1 m) [
  | inl inside ↦ inl (inr inside)
  | inr (full, before) ↦ inr (ap suc full, (All_In (λ z. less z y ≡ false) x ys h.0 m, before))
]
