-- ===== src/Briefs/Counted.antt =====
-- internal/briefs/briefs.go: how often `detectConflicts` finds a conflict.
use factvault.Common.{
  ℕ, ◌+◌, Bool, false, not, ◌&&◌, List, [], ◌∷◌, ◌++◌, text_eq, text_eq_iff, ltb, ◌==◌, ==_iff, ◌≡◌,
  refl, sym, ap, ◌∙◌, inl, inr, arith, In, In_perm, Identified, IsSort, IsSorted, SortPackage,
  All_In, if◌then◌else◌, Bool-cases,
}
use mathlib.Core.Path.{ap₂}
use mathlib.Core.List.{Permᴰ}
use factvault.Assembler.Tables.{BundleStatement}
use factvault.Briefs.{
  Key, key_of, key_eq, Conflict, statement_less, conflicts_with, conflict_pairs, group_conflicts,
}
use factvault.Briefs.Pairs.{conflict_of, statement_less-IsWeakOrder}

-- How many of the conflicts pass the test.
abbrev pub times : (Conflict → Bool) → List Conflict → ℕ
times p [] = 0
times p (c ∷ cs) = (if p c then 1 else 0) + times p cs

-- The two statements, in this order, are about one property of one entity and differ in the value.
abbrev differs : BundleStatement → BundleStatement → Bool
differs s t =
    s.entity_id == t.entity_id
    && (text_eq s.property_slug t.property_slug && (ltb s.id t.id && not (text_eq s.value t.value)))

-- Of two statements of one group, the one that does not come later by its id.
differs_later :
    (s t : BundleStatement)
    → key_of t ≡ key_of s
    → statement_less t s ≡ false
    → (s.id ≡ t.id → s ≡ t)
    → differs s t ≡ not (text_eq s.value t.value)
unfolding statement_less
differs_later s t same order named =
    let entity : t.entity_id ≡ s.entity_id = ap (λ (k : Key). k.0) same in
    let slug : t.property_slug ≡ s.property_slug = ap (λ (k : Key). k.1) same in
    elim (Bool-cases (s.id == t.id)) [
      | inl one ↦
          (let value = ap (λ (r : BundleStatement). r.value) (named ((==_iff s.id t.id).0 one)) in
            ground
              (arith, text_eq_iff s.value t.value, text_eq_iff s.property_slug t.property_slug))
      | inr two ↦ ground (arith, text_eq_iff s.property_slug t.property_slug)
    ]

differs_earlier : (s t : BundleStatement) → statement_less t s ≡ false → differs t s ≡ false
unfolding statement_less
differs_earlier s t order = ground arith

pub differs_outside :
    (s t : BundleStatement)
    → key_eq (key_of t) (key_of s) ≡ false
    → (differs s t ≡ false) × (differs t s ≡ false)
unfolding key_eq
differs_outside s t other =
    (ground (arith, text_eq_iff s.property_slug t.property_slug), ground arith)

module _ (p : Conflict → Bool) where
  abbrev clash : BundleStatement → BundleStatement → ℕ
  clash s t = if differs s t && p (conflict_of s t) then 1 else 0

  -- The pairs of one statement with those of a list, in either order.
  abbrev pub against : BundleStatement → List BundleStatement → ℕ
  against s [] = 0
  against s (t ∷ ts) = clash s t + clash t s + against s ts

  -- How many pairs of the statements differ and have a conflict that passes the test.
  abbrev pub pairs : List BundleStatement → ℕ
  pairs [] = 0
  pairs (s ∷ ss) = against s ss + pairs ss

  pub times-append : (cs ds : List Conflict) → times p (cs ++ ds) ≡ times p cs + times p ds
  times-append [] ds = omega arith
  times-append (c ∷ cs) ds = ground (arith, times-append cs ds)

  pub times_perm : (cs ds : List Conflict) → Permᴰ cs ds → times p cs ≡ times p ds
  times_perm _ _ Permᴰ.nil = refl
  times_perm _ _ (Permᴰ.cons e q) = ground (arith, times_perm _ _ q, ap p e)
  times_perm _ _ (Permᴰ.swap e f) = ground (arith, ap p e, ap p f)
  times_perm _ _ (Permᴰ.trans q r) = times_perm _ _ q ∙ times_perm _ _ r

  against_perm :
      (s : BundleStatement) (ss ts : List BundleStatement)
      → Permᴰ ss ts
      → against s ss ≡ against s ts
  against_perm s _ _ Permᴰ.nil = refl
  against_perm s _ _ (Permᴰ.cons e q) =
      ground (arith, against_perm s _ _ q, ap (λ t. clash s t + clash t s) e)
  against_perm s _ _ (Permᴰ.swap e f) =
      ground (arith, ap (λ t. clash s t + clash t s) e, ap (λ t. clash s t + clash t s) f)
  against_perm s _ _ (Permᴰ.trans q r) = against_perm s _ _ q ∙ against_perm s _ _ r

  pairs_swap :
      (a b : BundleStatement) (ss : List BundleStatement) → pairs (a ∷ b ∷ ss) ≡ pairs (b ∷ a ∷ ss)
  pairs_swap a b ss = omega arith

  pairs_cons :
      (a b : BundleStatement) (ss ts : List BundleStatement)
      → a ≡ b
      → Permᴰ ss ts
      → pairs ss ≡ pairs ts
      → pairs (a ∷ ss) ≡ pairs (b ∷ ts)
  pairs_cons a b ss ts e q rest =
      ap₂ (λ m n. m + n) (against_perm a ss ts q ∙ ap (λ s. against s ts) e) rest

  pairs_swapped :
      (a b c d : BundleStatement) (ss : List BundleStatement)
      → a ≡ d
      → b ≡ c
      → pairs (a ∷ b ∷ ss) ≡ pairs (c ∷ d ∷ ss)
  pairs_swapped a b c d ss e f =
      pairs_swap a b ss ∙ ap (λ x. pairs (b ∷ x ∷ ss)) e ∙ ap (λ y. pairs (y ∷ d ∷ ss)) f

  pairs_perm : (ss ts : List BundleStatement) → Permᴰ ss ts → pairs ss ≡ pairs ts
  pairs_perm _ _ Permᴰ.nil = refl
  pairs_perm _ _ (Permᴰ.cons e q) = pairs_cons _ _ _ _ e q (pairs_perm _ _ q)
  pairs_perm _ _ (Permᴰ.swap e f) = pairs_swapped _ _ _ _ _ e f
  pairs_perm _ _ (Permᴰ.trans q r) = pairs_perm _ _ q ∙ pairs_perm _ _ r

  -- The statement comes before those of the list, which are of its group.
  conflicts_with-times :
      (s : BundleStatement) (ts : List BundleStatement)
      → ((t : BundleStatement) → In t ts → key_of t ≡ key_of s)
      → ((t : BundleStatement) → In t ts → statement_less t s ≡ false)
      → ((t : BundleStatement) → In t ts → s.id ≡ t.id → s ≡ t)
      → times p (conflicts_with s ts) ≡ against s ts
  unfolding conflicts_with statement_less
  conflicts_with-times s [] same order named = refl
  conflicts_with-times s (t ∷ ts) same order named =
      let rest =
        conflicts_with-times s ts (λ x m. same x (inr m)) (λ x m. order x (inr m))
          (λ x m. named x (inr m)) in
      let later = differs_later s t (same t (inl refl)) (order t (inl refl)) (named t (inl refl)) in
      let earlier = differs_earlier s t (order t (inl refl)) in ground arith

  conflict_pairs-times :
      (k : Key) (ss : List BundleStatement)
      → IsSorted statement_less ss
      → ((t : BundleStatement) → In t ss → key_of t ≡ k)
      → Identified (λ s. s.id) ss
      → times p (conflict_pairs ss) ≡ pairs ss
  unfolding conflict_pairs
  conflict_pairs-times k [] sorted same named = refl
  conflict_pairs-times k (s ∷ ss) sorted same named =
      let rest =
        conflict_pairs-times k ss sorted.1 (λ t m. same t (inr m))
          (λ x y m n. named x y (inr m) (inr n)) in
      let first =
        conflicts_with-times s ss (λ t m. same t (inr m) ∙ sym (same s (inl refl)))
          (λ t m. All_In (λ y. statement_less y s ≡ false) t ss sorted.0 m)
          (λ t m e. named s t (inl refl) (inr m) e) in
      times-append (conflicts_with s ss) (conflict_pairs ss) ∙ ground (arith, rest, first)

  pub group_conflicts-times :
      (g : SortPackage) (k : Key) (ss : List BundleStatement)
      → IsSort g
      → ((t : BundleStatement) → In t ss → key_of t ≡ k)
      → Identified (λ s. s.id) ss
      → times p (group_conflicts g ss) ≡ pairs ss
  unfolding group_conflicts
  group_conflicts-times g k [] sort same named = refl
  group_conflicts-times g k (s ∷ []) sort same named = ground arith
  group_conflicts-times g k (s ∷ t ∷ ss) sort same named =
      let sorted = g.sort_slice statement_less (s ∷ t ∷ ss) in
      let perm = sort.permutes statement_less (s ∷ t ∷ ss) in
      let back = λ (x : BundleStatement) (m : In x sorted). In_perm x _ _ perm m in
      let counted =
        conflict_pairs-times k sorted
          (sort.sorts statement_less (s ∷ t ∷ ss) statement_less-IsWeakOrder)
          (λ x m. same x (back x m)) (λ x y m n. named x y (back x m) (back y n)) in
      let whole = pairs_perm sorted (s ∷ t ∷ ss) perm in ground arith
