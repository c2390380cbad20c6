-- ===== src/Common/Sorting/Insertion.antt =====
-- A sort that has what `sort.Slice` documents.
use mathlib.Core.Path.{◌≡◌, refl}
use mathlib.Core.Logic.{inl, inr}
use mathlib.Core.Bool.{Bool, false}
use mathlib.Core.List.{List, [], ◌∷◌, Permᴰ}
use mathlib.Core.List.Permᴰ
use factvault.Common.Tests.{if◌then◌else◌, Bool-cases}
use factvault.Common.Lists.{All, All-map}
use factvault.Common.Sorting.{SortPackage, IsSorted, IsWeakOrder, IsSort}

module _ {A : Type 0} (less : A → A → Bool) where
  unfoldable pub insert_sorted : A → List A → List A
  insert_sorted x [] = x ∷ []
  insert_sorted x (y ∷ ys) =
      let rest = insert_sorted x ys in if less y x then y ∷ rest else x ∷ y ∷ ys

  unfoldable pub insertion_sort : List A → List A
  insertion_sort [] = []
  insertion_sort (x ∷ xs) = insert_sorted x (insertion_sort xs)

  insert_sorted-Permᴰ : (x : A) (xs : List A) → Permᴰ (insert_sorted x xs) (x ∷ xs)
  unfolding insert_sorted
  insert_sorted-Permᴰ x [] = Permᴰ.refl (x ∷ [])
  insert_sorted-Permᴰ x (y ∷ ys) = elim (Bool-cases (less y x)) [
    | inl before ↦
        rw before (Permᴰ.trans (Permᴰ.cons refl (insert_sorted-Permᴰ x ys)) (Permᴰ.swap refl refl))
    | inr after ↦ rw after (Permᴰ.refl (x ∷ y ∷ ys))
  ]

  insertion_sort-Permᴰ : (xs : List A) → Permᴰ (insertion_sort xs) xs
  unfolding insertion_sort
  insertion_sort-Permᴰ [] = Permᴰ.nil
  insertion_sort-Permᴰ (x ∷ xs) =
      Permᴰ.trans (insert_sorted-Permᴰ x (insertion_sort xs))
        (Permᴰ.cons refl (insertion_sort-Permᴰ xs))

  insert_sorted-All :
      (P : A → Type 0) (x : A) (xs : List A) → P x → All P xs → All P (insert_sorted x xs)
  unfolding insert_sorted
  insert_sorted-All P x [] hx h = (hx, tt)
  insert_sorted-All P x (y ∷ ys) hx h = elim (Bool-cases (less y x)) [
    | inl before ↦ rw before (h.0, insert_sorted-All P x ys hx h.1)
    | inr after ↦ rw after (hx, h)
  ]

  module _ (order : IsWeakOrder less) where
    insert_sorted-IsSorted :
        (x : A) (xs : List A) → IsSorted less xs → IsSorted less (insert_sorted x xs)
    unfolding insert_sorted
    insert_sorted-IsSorted x [] h = (tt, tt)
    insert_sorted-IsSorted x (y ∷ ys) h = elim (Bool-cases (less y x)) [
      | inl before ↦ rw before (
        insert_sorted-All (λ z. less z y ≡ false) x ys (order.asymmetric y x before) h.0,
        insert_sorted-IsSorted x ys h.1,
      )
      | inr after ↦
          rw after
            ((after, All-map _ _ (λ z below. order.incomparable z y x below after) ys h.0), h)
    ]

    insertion_sort-IsSorted : (xs : List A) → IsSorted less (insertion_sort xs)
    unfolding insertion_sort
    insertion_sort-IsSorted [] = tt
    insertion_sort-IsSorted (x ∷ xs) =
        insert_sorted-IsSorted x (insertion_sort xs) (insertion_sort-IsSorted xs)

abbrev pub insertion_package : SortPackage
insertion_package = record { sort_slice = λ less xs. insertion_sort less xs }

pub insertion_package-IsSort : IsSort insertion_package
insertion_package-IsSort = record {
  permutes = λ less xs. insertion_sort-Permᴰ less xs;
  sorts = λ less xs order. insertion_sort-IsSorted less order xs;
}
