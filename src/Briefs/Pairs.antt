-- ===== src/Briefs/Pairs.antt =====
-- internal/briefs/briefs.go: the pairs of statements in a group, which the two inner loops of
-- `detectConflicts` compare.
use factvault.Common.{
  All_In, ◌<◌, Bool, true, false, not, List, [], ◌∷◌, text_eq, ltb, length, ◌≡◌, refl, ap, subst,
  ◌↔◌, ◌⊎◌, inl, inr, arith, In, In-append_iff, IsSort, IsSorted, SortPackage, IsWeakOrder,
  IsFiltered, In-filtered_iff, In_perm, if◌then◌else◌, Bool-cases,
}
use mathlib.Core.List.{Permᴰ}
use mathlib.Core.List.Permᴰ
use factvault.Assembler.Tables.{BundleStatement}
use factvault.Briefs.{
  Key, group_of, Conflict, conflicts_with, conflict_pairs, statement_less, group_conflicts,
  conflicts_of,
}

-- The conflict of two statements.
abbrev pub conflict_of : BundleStatement → BundleStatement → Conflict
conflict_of a b = record {
  entity_id = a.entity_id;
  property_slug = a.property_slug;
  value_a = a.value;
  value_b = b.value;
}

conflicts_with-IsFiltered :
    (a : BundleStatement)
    → IsFiltered (λ b. not (text_eq a.value b.value)) (conflict_of a) (conflicts_with a)
unfolding conflicts_with
conflicts_with-IsFiltered a = record { on_nil = refl; on_cons = λ b bs. refl }

pub statement_less-IsWeakOrder : IsWeakOrder statement_less
unfolding statement_less
statement_less-IsWeakOrder = record {
  asymmetric = λ x y h. ground arith;
  incomparable = λ x y z h k. ground arith;
}

-- The pair of two statements in the order of the list.
abbrev IsPair : List BundleStatement → Conflict → Type 0
IsPair ss c =
    (s : BundleStatement) × (t : BundleStatement) × In s ss
    × In t ss
    × (statement_less t s ≡ false)
    × (text_eq s.value t.value ≡ false)
    × (c ≡ conflict_of s t)

In-conflict_pairs :
    (ss : List BundleStatement) (c : Conflict)
    → IsSorted statement_less ss
    → In c (conflict_pairs ss)
    → IsPair ss c
unfolding conflict_pairs
In-conflict_pairs [] c h m = elim m [ ]
In-conflict_pairs (s ∷ ss) c h m =
    elim ((In-append_iff c (conflicts_with s ss) (conflict_pairs ss)).0 m) [
      | inl n ↦
          (let (t, in_t, differ, e) =
              (In-filtered_iff (λ b. not (text_eq s.value b.value)) (conflict_of s) c
                  (conflicts_with s) (conflicts_with-IsFiltered s) ss).0
                n in
            (
              s,
              t,
              inl refl,
              inr in_t,
              All_In (λ y. statement_less y s ≡ false) t ss h.0 in_t,
              ground arith,
              e,
            ))
      | inr n ↦
          (let (x, y, in_x, in_y, order, differ, e) = In-conflict_pairs ss c h.1 n in
            (x, y, inr in_x, inr in_y, order, differ, e))
    ]

conflict_pairs_In :
    (ss : List BundleStatement) (s t : BundleStatement)
    → IsSorted statement_less ss
    → In s ss
    → In t ss
    → s.id < t.id
    → text_eq s.value t.value ≡ false
    → In (conflict_of s t) (conflict_pairs ss)
unfolding conflict_pairs statement_less
conflict_pairs_In [] s t h m n order differ = elim m [ ]
conflict_pairs_In (x ∷ xs) s t h (inl e) (inl f) order differ =
    absurd
      (ground (arith, ap (λ (r : BundleStatement). r.id) e, ap (λ (r : BundleStatement). r.id) f))
conflict_pairs_In (x ∷ xs) s t h (inl e) (inr n) order differ =
    (In-append_iff (conflict_of s t) (conflicts_with x xs) (conflict_pairs xs)).1 (
      inl (
        (In-filtered_iff (λ b. not (text_eq x.value b.value)) (conflict_of x) (conflict_of s t)
            (conflicts_with x) (conflicts_with-IsFiltered x) xs).1
          (
            t,
            n,
            subst (λ (r : BundleStatement). not (text_eq r.value t.value) ≡ true) e (ground arith),
            ap (λ r. conflict_of r t) e,
          )))
conflict_pairs_In (x ∷ xs) s t h (inr m) (inl f) order differ =
    absurd (not_before x s t f (All_In (λ y. statement_less y x ≡ false) s xs h.0 m) order)
  where
    not_before : (x s t : BundleStatement) → t ≡ x → statement_less s x ≡ false → s.id < t.id → ⊥
    not_before x s t f h order = ground (arith, ap (λ (r : BundleStatement). r.id) f)
conflict_pairs_In (x ∷ xs) s t h (inr m) (inr n) order differ =
    (In-append_iff (conflict_of s t) (conflicts_with x xs) (conflict_pairs xs)).1
      (inr (conflict_pairs_In xs s t h.1 m n order differ))

module _ (p : SortPackage) (sort : IsSort p) where
  pub In-group_conflicts :
      (ss : List BundleStatement) (c : Conflict) → In c (group_conflicts p ss) → IsPair ss c
  unfolding group_conflicts
  In-group_conflicts ss c m = elim (Bool-cases (ltb (length ss) 2)) [
    | inl few ↦ absurd (
        subst (λ b. In c (if b then [] else conflict_pairs (p.sort_slice statement_less ss))) few m)
    | inr many ↦
        (let placed =
            subst (λ b. In c (if b then [] else conflict_pairs (p.sort_slice statement_less ss)))
              many m in
          let (s, t, in_s, in_t, order, differ, e) =
            In-conflict_pairs (p.sort_slice statement_less ss) c
              (sort.sorts statement_less ss statement_less-IsWeakOrder) placed in
          (
            s,
            t,
            In_perm s _ _ (sort.permutes statement_less ss) in_s,
            In_perm t _ _ (sort.permutes statement_less ss) in_t,
            order,
            differ,
            e,
          ))
  ]

  at_least_two :
      (ss : List BundleStatement) (s t : BundleStatement)
      → In s ss
      → In t ss
      → s.id < t.id
      → ltb (length ss) 2 ≡ true
      → ⊥
  at_least_two [] s t m n order few = m
  at_least_two (x ∷ []) s t (inl e) (inl f) order few =
      ground (arith, ap (λ (r : BundleStatement). r.id) e, ap (λ (r : BundleStatement). r.id) f)
  at_least_two (x ∷ []) s t (inr m) n order few = m
  at_least_two (x ∷ []) s t (inl m) (inr n) order few = n
  at_least_two (x ∷ y ∷ ss) s t m n order few = ground arith

  sort_back : {A : Type 0} (less : A → A → Bool) (xs : List A) → Permᴰ xs (p.sort_slice less xs)
  sort_back less xs = Permᴰ.symm (sort.permutes less xs)

  pub group_conflicts_In :
      (ss : List BundleStatement) (s t : BundleStatement)
      → In s ss
      → In t ss
      → s.id < t.id
      → text_eq s.value t.value ≡ false
      → In (conflict_of s t) (group_conflicts p ss)
  unfolding group_conflicts
  group_conflicts_In ss s t m n order differ = elim (Bool-cases (ltb (length ss) 2)) [
    | inl few ↦ absurd (at_least_two ss s t m n order few)
    | inr many ↦ rw many (
        conflict_pairs_In (p.sort_slice statement_less ss) s t
          (sort.sorts statement_less ss statement_less-IsWeakOrder)
          (In_perm s _ _ (sort_back statement_less ss) m)
          (In_perm t _ _ (sort_back statement_less ss) n) order differ)
  ]

  pub In-conflicts_of_iff :
      (ss : List BundleStatement) (c : Conflict) (ks : List Key)
      → In c (conflicts_of p ss ks)
        ↔ ((k : Key) × In k ks × In c (group_conflicts p (group_of k ss)))
  unfolding conflicts_of
  In-conflicts_of_iff ss c [] = ground arith
  In-conflicts_of_iff ss c (k ∷ ks) =
      let split = In-append_iff c (group_conflicts p (group_of k ss)) (conflicts_of p ss ks) in
      let rest = In-conflicts_of_iff ss c ks in
      (
        λ m. elim (split.0 m) [
          | inl n ↦ (k, inl refl, n)
          | inr n ↦ (let (l, in_l, found) = rest.0 n in (l, inr in_l, found))
        ],
        λ m. split.1 (
            placed k ks c (group_conflicts p (group_of k ss)) ss m.0 m.1 m.2
              (λ l in_l found. rest.1 (l, in_l, found))),
      )
    where
      placed :
          (k : Key) (ks : List Key) (c : Conflict) (first : List Conflict)
          (ss : List BundleStatement) (l : Key)
          → In l (k ∷ ks)
          → In c (group_conflicts p (group_of l ss))
          → ((l : Key)
              → In l ks
              → In c (group_conflicts p (group_of l ss))
              → In c (conflicts_of p ss ks))
          → In c (group_conflicts p (group_of k ss)) ⊎ In c (conflicts_of p ss ks)
      placed k ks c first ss l (inl e) found rest =
          inl (subst (λ l. In c (group_conflicts p (group_of l ss))) e found)
      placed k ks c first ss l (inr m) found rest = inr (rest l m found)
