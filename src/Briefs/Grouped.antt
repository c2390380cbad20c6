-- ===== src/Briefs/Grouped.antt =====
-- internal/briefs/briefs.go: the conflicts of the groups together, of which each key has one.
use factvault.Common.{
  ℕ, ◌+◌, Bool, true, List, [], ◌∷◌, ◌≡◌, refl, sym, ap, ◌∙◌, inl, inr, arith, In, Identified,
  IsSort, SortPackage, Bool-cases, AreDistinct,
}
use mathlib.Core.Path.{ap₂}
use mathlib.Core.List.{Permᴰ}
use factvault.Assembler.Tables.{BundleStatement}
use factvault.Briefs.{
  Key, key_of, key_eq, has_group, group_keys, group_of, Conflict, group_conflicts, conflicts_of,
}
use factvault.Briefs.Conflicts.{key_eq_iff, group_of_iff}
use factvault.Briefs.Counted.{
  times, pairs, against, differs_outside, times-append, group_conflicts-times,
}

module _ (p : Conflict → Bool) where
  -- The pairs in each group.
  pub grouped : List BundleStatement → List Key → ℕ
  grouped ss [] = 0
  grouped ss (k ∷ ks) = pairs p (group_of k ss) + grouped ss ks

  pub conflicts_of-times :
      (g : SortPackage) (ss : List BundleStatement) (ks : List Key)
      → IsSort g
      → Identified (λ s. s.id) ss
      → times p (conflicts_of g ss ks) ≡ grouped ss ks
  unfolding conflicts_of grouped
  conflicts_of-times g ss [] sort named = refl
  conflicts_of-times g ss (k ∷ ks) sort named =
      let kept = λ (x : BundleStatement) (m : In x (group_of k ss)). (group_of_iff k ss x).0 m in
      let first =
        group_conflicts-times p g k (group_of k ss) sort (λ x m. (kept x m).1)
          (λ x y m n. named x y (kept x m).0 (kept y n).0) in
      let rest = conflicts_of-times g ss ks sort named in
      times-append p (group_conflicts g (group_of k ss)) (conflicts_of g ss ks)
      ∙ ground (arith, rest, first)

  -- Only statements of its own group clash p with a statement.
  against-group_of :
      (s : BundleStatement) (ss : List BundleStatement)
      → against p s (group_of (key_of s) ss) ≡ against p s ss
  unfolding group_of
  against-group_of s [] = refl
  against-group_of s (t ∷ ts) =
      let rest = against-group_of s ts in
      elim (Bool-cases (key_eq (key_of t) (key_of s))) [
        | inl mine ↦ ground arith
        | inr other ↦ (let (later, earlier) = differs_outside s t other in ground arith)
      ]

  grouped_absent :
      (s : BundleStatement) (ss : List BundleStatement) (ks : List Key)
      → (In (key_of s) ks → ⊥)
      → grouped (s ∷ ss) ks ≡ grouped ss ks
  unfolding grouped group_of
  grouped_absent s ss [] absent = refl
  grouped_absent s ss (k ∷ ks) absent =
      let rest = grouped_absent s ss ks (λ m. absent (inr m)) in
      elim (Bool-cases (key_eq (key_of s) k)) [
        | inl mine ↦ absurd (absent (inl ((key_eq_iff (key_of s) k).0 mine)))
        | inr other ↦ ground arith
      ]

  grouped_present :
      (s : BundleStatement) (ss : List BundleStatement) (ks : List Key)
      → AreDistinct (λ (k : Key). k) ks
      → In (key_of s) ks
      → grouped (s ∷ ss) ks ≡ against p s ss + grouped ss ks
  unfolding grouped group_of
  grouped_present s ss [] apart m = absurd m
  grouped_present s ss (k ∷ ks) apart (inl e) =
      let rest = grouped_absent s ss ks (λ m. apart.0 (key_of s) m e) in
      let mine = (key_eq_iff (key_of s) k).1 e in
      let whole = ap (λ l. against p s (group_of l ss)) (sym e) ∙ against-group_of s ss in
      ground arith
  grouped_present s ss (k ∷ ks) apart (inr m) =
      let rest = grouped_present s ss ks apart.1 m in
      elim (Bool-cases (key_eq (key_of s) k)) [
        | inl mine ↦ absurd (apart.0 (key_of s) m ((key_eq_iff (key_of s) k).0 mine))
        | inr other ↦ ground arith
      ]

  pub grouped_whole :
      (ss : List BundleStatement) (ks : List Key)
      → AreDistinct (λ (k : Key). k) ks
      → ((s : BundleStatement) → In s ss → In (key_of s) ks)
      → grouped ss ks ≡ pairs p ss
  unfolding grouped group_of
  grouped_whole [] ks apart covers = grouped_none ks
    where
      grouped_none : (ks : List Key) → grouped [] ks ≡ 0
      grouped_none [] = refl
      grouped_none (k ∷ ks) = ground (arith, grouped_none ks)
  grouped_whole (s ∷ ss) ks apart covers =
      grouped_present s ss ks apart (covers s (inl refl))
      ∙ ap (λ n. against p s ss + n) (grouped_whole ss ks apart (λ t m. covers t (inr m)))

  pub grouped_perm :
      (ss : List BundleStatement) (ks ls : List Key) → Permᴰ ks ls → grouped ss ks ≡ grouped ss ls
  unfolding grouped
  grouped_perm ss _ _ Permᴰ.nil = refl
  grouped_perm ss _ _ (Permᴰ.cons e q) =
      ap₂ (λ m n. m + n) (ap (λ k. pairs p (group_of k ss)) e) (grouped_perm ss _ _ q)
  grouped_perm ss _ _ (Permᴰ.swap e f) =
      ground (arith, ap (λ k. pairs p (group_of k ss)) e, ap (λ k. pairs p (group_of k ss)) f)
  grouped_perm ss _ _ (Permᴰ.trans q r) = grouped_perm ss _ _ q ∙ grouped_perm ss _ _ r

has_group-In : (k : Key) (ks : List Key) → In k ks → has_group k ks ≡ true
unfolding has_group
has_group-In k [] m = absurd m
has_group-In k (x ∷ xs) (inl e) = ground (arith, key_eq_iff x k)
has_group-In k (x ∷ xs) (inr m) = ground (arith, has_group-In k xs m)

pub group_keys-AreDistinct :
    (ss : List BundleStatement) → AreDistinct (λ (k : Key). k) (group_keys ss)
unfolding group_keys
group_keys-AreDistinct [] = tt
group_keys-AreDistinct (s ∷ ss) =
    let rest = group_keys-AreDistinct ss in
    elim (Bool-cases (has_group (key_of s) (group_keys ss))) [
      | inl known ↦ rw known rest
      | inr new ↦ rw new (
        (λ k m e.
            (let held = has_group-In k (group_keys ss) m in
              ground (arith, ap (λ l. has_group l (group_keys ss)) e))),
        rest,
      )
    ]
