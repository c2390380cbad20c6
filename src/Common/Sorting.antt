-- ===== src/Common/Sorting.antt =====
-- Go's `sort.Slice`, and what sorting determines.
pub mod Insertion
pub mod Front
use mathlib.Core.Path.{◌≡◌, ◌∙◌, refl, sym, subst, ap₂}
use mathlib.Core.Logic.{◌⊎◌, inl, inr, ◌↔◌}
use mathlib.Core.Logic.Or
use mathlib.Core.Bool.{Bool, true, false, Bool-set}
use mathlib.Core.List.{List, [], ◌∷◌, Mem, Perm, Permᴰ, mem-cons, mem-cons_self, not-mem-nil}
use mathlib.Core.List.Perm
use mathlib.Core.List.Permᴰ
use native.Mathlib.Omega.{arith}
use factvault.Common.Lists.{All}
use factvault.Common.Members.{In}

-- What `sort.Slice` and `sort.Strings` take from the package: a sort of lists by a `less`.
pub record SortPackage : Type 1 where
  pub sort_slice : {A : Type 0} → (A → A → Bool) → List A → List A

module _ {A : Type 0} (less : A → A → Bool) where
  -- No later element is less than an earlier one.
  abbrev pub IsSorted : List A → Type 0
  IsSorted [] = Unit
  IsSorted (x ∷ xs) = All (λ y. less y x ≡ false) xs × IsSorted xs

  -- What the package asks of `less`.
  pub record IsWeakOrder : Type 0 where
    pub asymmetric : (x y : A) → less x y ≡ true → less y x ≡ false
    pub incomparable : (x y z : A) → less x y ≡ false → less y z ≡ false → less x z ≡ false

-- What the package documents: the result is a rearrangement, and sorted. The order of elements of
-- which neither is less is left open.
pub record IsSort (p : SortPackage) : Type 1 where
  pub permutes : {A : Type 0} (less : A → A → Bool) (xs : List A) → Permᴰ (p.sort_slice less xs) xs
  pub sorts :
      {A : Type 0} (less : A → A → Bool) (xs : List A)
      → IsWeakOrder less
      → IsSorted less (p.sort_slice less xs)

module _ {A : Type 0} where
  pub In_perm : (x : A) (xs ys : List A) → Permᴰ xs ys → In x xs → In x ys
  In_perm x _ _ Permᴰ.nil h = h
  In_perm x _ _ (Permᴰ.cons e p) (inl h) = inl (h ∙ e)
  In_perm x _ _ (Permᴰ.cons e p) (inr h) = inr (In_perm x _ _ p h)
  In_perm x _ _ (Permᴰ.swap e f) (inl h) = inr (inl (h ∙ e))
  In_perm x _ _ (Permᴰ.swap e f) (inr (inl h)) = inl (h ∙ f)
  In_perm x _ _ (Permᴰ.swap e f) (inr (inr h)) = inr (inr h)
  In_perm x _ _ (Permᴰ.trans p q) h = In_perm x _ _ q (In_perm x _ _ p h)

  pub All_of_In : {P : A → Type 0} (xs : List A) → ((x : A) → In x xs → P x) → All P xs
  All_of_In [] f = tt
  All_of_In (x ∷ xs) f = (f x (inl refl), All_of_In xs (λ z m. f z (inr m)))

  pub All_In : (P : A → Type 0) (x : A) (xs : List A) → All P xs → In x xs → P x
  All_In P x [] h m = elim m [ ]
  All_In P x (y ∷ xs) h (inl e) = subst P (sym e) h.0
  All_In P x (y ∷ xs) h (inr m) = All_In P x xs h.1 m

  module _ (less : A → A → Bool) (order : IsWeakOrder less) where
    irreflexive : (x : A) → less x x ≡ false
    irreflexive x = ground (arith, order.asymmetric x x)

    All_mem : (a x : A) (xs : List A) → All (λ y. less y a ≡ false) xs → Mem x xs → less x a ≡ false
    All_mem a x [] h m = absurd (not-mem-nil m)
    All_mem a x (y ∷ ys) h m =
        Or.elim (Bool-set _ _) (mem-cons.0 m) (λ e. subst (λ z. less z a ≡ false) (sym e) h.0)
          (All_mem a x ys h.1)

    head_least :
        (a x : A) (xs : List A) → IsSorted less (a ∷ xs) → Mem x (a ∷ xs) → less x a ≡ false
    head_least a x xs h m = All_mem a x (a ∷ xs) (irreflexive a, h.0) m

    -- Two sorted rearrangements of one another are equal, if of their elements those are of which
    -- neither is less.
    sorted_unique :
        (P : A → Type 0) (xs ys : List A)
        → ((x y : A) → P x → P y → less x y ≡ false → less y x ≡ false → x ≡ y)
        → All P xs
        → All P ys
        → IsSorted less xs
        → IsSorted less ys
        → Perm xs ys
        → xs ≡ ys
    sorted_unique P [] ys total px py hx hy p = Perm.nil-eq p
    sorted_unique P (x ∷ xs) [] total px py hx hy p = Perm.eq-nil p
    sorted_unique P (x ∷ xs) (y ∷ ys) total px py hx hy p =
        let heads =
          total x y px.0 py.0 (head_least y x ys hy ((Perm.mem_iff p).0 mem-cons_self))
            (head_least x y xs hx ((Perm.mem_iff p).1 mem-cons_self)) in
        let tails = Perm.cons_inv (Perm.trans p (Perm.symm (Perm.cons' heads Perm.rfl))) in
        ap₂ ◌∷◌ heads (sorted_unique P xs ys total px.1 py.1 hx.1 hy.1 tails)

-- Two sorts of a list agree, if of its elements those are equal of which neither is less.
pub sort_slice_unique :
    {A : Type 0} (p q : SortPackage) (less : A → A → Bool) (xs : List A)
    → IsSort p
    → IsSort q
    → IsWeakOrder less
    → ((x y : A) → In x xs → In y xs → less x y ≡ false → less y x ≡ false → x ≡ y)
    → p.sort_slice less xs ≡ q.sort_slice less xs
sort_slice_unique p q less xs hp hq order total =
    sorted_unique less order (λ x. In x xs) (p.sort_slice less xs) (q.sort_slice less xs) total
      (All_of_In (p.sort_slice less xs) (λ x m. In_perm x _ _ (hp.permutes less xs) m))
      (All_of_In (q.sort_slice less xs) (λ x m. In_perm x _ _ (hq.permutes less xs) m))
      (hp.sorts less xs order) (hq.sorts less xs order)
      (Perm.trans ∣ hp.permutes less xs ∣₁ (Perm.symm ∣ hq.permutes less xs ∣₁))

pub All_weaken :
    {A : Type 0} (P Q : A → Type 0) → ((x : A) → P x → Q x) → (xs : List A) → All P xs → All Q xs
All_weaken P Q f [] h = tt
All_weaken P Q f (x ∷ xs) h = (f x h.0, All_weaken P Q f xs h.1)
