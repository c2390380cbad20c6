-- ===== src/Common/Members.antt =====
-- Membership in a list, up to logical equivalence.
use mathlib.Core.Path.{◌≡◌, refl}
use mathlib.Core.Logic.{◌↔◌, ◌⊎◌, inl, inr}
use mathlib.Core.List.{List, [], ◌∷◌, ◌++◌, map}
use native.Mathlib.Omega.{arith}

module _ {A : Type 0} where
  abbrev pub In : A → List A → Type 0
  In x [] = ⊥
  In x (y ∷ ys) = (x ≡ y) ⊎ In x ys

  pub In-append_iff : (x : A) (xs ys : List A) → In x (xs ++ ys) ↔ (In x xs ⊎ In x ys)
  In-append_iff x [] ys = ground arith
  In-append_iff x (z ∷ xs) ys = ground (arith, In-append_iff x xs ys)

-- Of the elements, those with one key are one.
abbrev pub Identified : {A K : Type 0} → (A → K) → List A → Type 0
Identified {A} key xs = (x y : A) → In x xs → In y xs → key x ≡ key y → x ≡ y

pub In-map :
    {A B : Type 0} (f : A → B) (y : B) (xs : List A)
    → In y (map f xs)
    → (x : A) × In x xs × (y ≡ f x)
In-map f y [] m = elim m [ ]
In-map f y (x ∷ xs) (inl e) = (x, inl refl, e)
In-map f y (x ∷ xs) (inr m) = let (z, n, e) = In-map f y xs m in (z, inr n, e)
