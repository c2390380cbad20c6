-- ===== src/Common/Firsts.antt =====
-- Loops that keep the first element of each key, with the set `seen`.
use mathlib.Core.Path.{◌≡◌, ◌∙◌, sym, ap, subst}
use mathlib.Core.Logic.{◌↔◌, ◌⊎◌, inl, inr}
use mathlib.Core.Bool.{Bool, true, false, ◌||◌}
use mathlib.Core.List.{List, [], ◌∷◌, map}
use native.Mathlib.Omega.{arith}
use factvault.Common.Tests.{if◌then◌else◌, Bool-cases}
use factvault.Common.Members.{In, Identified}

-- No two of the elements have one key.
abbrev pub AreDistinct : {A K : Type 0} → (A → K) → List A → Type 0
AreDistinct key [] = Unit
AreDistinct {A} key (x ∷ xs) = ((y : A) → In y xs → key y ≡ key x → ⊥) × AreDistinct key xs

-- The function is such a loop, whose results carry the id.
pub record KeepsFirst {A B K : Type 0} (same : K → K → Bool) (has : K → List K → Bool) (id : A → K)
    (f : A → B) (key : B → K) (loop : List K → List A → List B) : Type 0 where
  pub decides : (j k : K) → (same j k ≡ true) ↔ (j ≡ k)
  pub on_seen : (k j : K) (seen : List K) → has k (j ∷ seen) ≡ (same j k || has k seen)
  pub on_nil : (seen : List K) → loop seen [] ≡ []
  pub on_cons :
      (seen : List K) (x : A) (xs : List A)
      → loop seen (x ∷ xs) ≡ (if has (id x) seen then loop seen xs else f x ∷ loop (id x ∷ seen) xs)
  pub keyed : (x : A) → key (f x) ≡ id x

module _ {A B K : Type 0} (same : K → K → Bool) (has : K → List K → Bool) (id : A → K) (f : A → B)
    (key : B → K) (loop : List K → List A → List B) (h : KeepsFirst same has id f key loop) where
  has_alike : (i j : K) (seen : List K) → i ≡ j → has i seen ≡ has j seen
  has_alike i j seen e = ap (λ k. has k seen) e

  -- A result is the next element's, at an id not seen yet, or comes from the rest.
  In-loop_cases :
      (seen : List K) (x : A) (xs : List A) (y : B)
      → In y (loop seen (x ∷ xs))
      → ((has (id x) seen ≡ true) × In y (loop seen xs))
        ⊎ ((has (id x) seen ≡ false) × ((y ≡ f x) ⊎ In y (loop (id x ∷ seen) xs)))
  In-loop_cases seen x xs y m =
      let step = subst (In y) (h.on_cons seen x xs) m in
      elim (Bool-cases (has (id x) seen)) [
        | inl known ↦ inl (
          known,
          subst (λ b. In y (if b then loop seen xs else f x ∷ loop (id x ∷ seen) xs)) known step,
        )
        | inr new ↦ inr (
          new,
          subst (λ b. In y (if b then loop seen xs else f x ∷ loop (id x ∷ seen) xs)) new step,
        )
      ]

  loop_unseen :
      (seen : List K) (xs : List A) (y : B) → In y (loop seen xs) → has (key y) seen ≡ false
  loop_unseen seen [] y m = absurd (subst (In y) (h.on_nil seen) m)
  loop_unseen seen (x ∷ xs) y m = elim (In-loop_cases seen x xs y m) [
    | inl (known, n) ↦ loop_unseen seen xs y n
    | inr (new, inl e) ↦ rw (e, h.keyed x) new
    | inr (new, inr n) ↦
        (let rest = loop_unseen (id x ∷ seen) xs y n in
          ground (arith, h.on_seen (key y) (id x) seen))
  ]

  new_id :
      (seen : List K) (x : A) (xs : List A) (z : B)
      → In z (loop (id x ∷ seen) xs)
      → id x ≡ key z
      → ⊥
  new_id seen x xs z l k =
      let unseen = loop_unseen (id x ∷ seen) xs z l in
      ground (arith, h.on_seen (key z) (id x) seen, h.decides (id x) (key z))

  -- Of the results, those with one id are one.
  pub loop-Identified : (seen : List K) (xs : List A) → Identified key (loop seen xs)
  loop-Identified seen [] y z m n e = absurd (subst (In y) (h.on_nil seen) m)
  loop-Identified seen (x ∷ xs) y z m n e = elim (In-loop_cases seen x xs y m) [
    | inl (known, k) ↦ elim (In-loop_cases seen x xs z n) [
      | inl (again, l) ↦ loop-Identified seen xs y z k l e
      | inr (new, l) ↦ absurd (cc)
    ]
    | inr (new, inl k) ↦ elim (In-loop_cases seen x xs z n) [
      | inl (known, l) ↦ absurd (cc)
      | inr (again, inl l) ↦ k ∙ sym l
      | inr (again, inr l) ↦ absurd (new_id seen x xs z l (sym (ap key k ∙ h.keyed x) ∙ e))
    ]
    | inr (new, inr k) ↦ elim (In-loop_cases seen x xs z n) [
      | inl (known, l) ↦ absurd (cc)
      | inr (again, inl l) ↦ absurd (new_id seen x xs y k (sym (e ∙ ap key l ∙ h.keyed x)))
      | inr (again, inr l) ↦ loop-Identified (id x ∷ seen) xs y z k l e
    ]
  ]

  pub loop-AreDistinct : (seen : List K) (xs : List A) → AreDistinct key (loop seen xs)
  loop-AreDistinct seen [] = rw (h.on_nil seen) tt
  loop-AreDistinct seen (x ∷ xs) = elim (Bool-cases (has (id x) seen)) [
    | inl known ↦ rw (h.on_cons seen x xs, known) (loop-AreDistinct seen xs)
    | inr new ↦
        rw (h.on_cons seen x xs, new)
          (λ z m e. new_id seen x xs z m (sym (e ∙ h.keyed x)), loop-AreDistinct (id x ∷ seen) xs)
  ]

  -- Each id that was not seen before is among the results.
  pub In-loop_iff :
      (seen : List K) (xs : List A) (i : K)
      → In i (map key (loop seen xs)) ↔ (In i (map id xs) × (has i seen ≡ false))
  In-loop_iff seen [] i = rw (h.on_nil seen) (ground arith)
  In-loop_iff seen (x ∷ xs) i = elim (Bool-cases (has (id x) seen)) [
    | inl known ↦
        (let alike = has_alike i (id x) seen in
          rw (h.on_cons seen x xs, known) (ground (arith, In-loop_iff seen xs i)))
    | inr new ↦
        (let alike = has_alike i (id x) seen in
          rw (h.on_cons seen x xs, new)
            (ground (
              arith,
              h.keyed x,
              h.on_seen i (id x) seen,
              h.decides (id x) i,
              In-loop_iff (id x ∷ seen) xs i,
            )))
  ]
