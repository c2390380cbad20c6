-- ===== src/Briefs/Conflicts.antt =====
-- internal/briefs/briefs.go: which conflicts `detectConflicts` finds.
use factvault.Common.{
  ◌<◌, true, false, List, [], ◌∷◌, text_eq, ◌==◌, ◌≡◌, refl, sym, ap, subst, ◌∙◌, ◌↔◌, inl, inr,
  arith, In, Identified, IsSort, IsFiltered, In-filtered_iff, In_perm, Bool-cases, text_eq_iff,
  ==_iff,
}
use mathlib.Core.List.{Permᴰ}
use mathlib.Core.List.Permᴰ
use factvault.Assembler.Tables.{BundleStatement}
use factvault.Briefs.{
  Key, key_of, key_eq, has_group, group_keys, group_of, Conflict, statement_less, group_conflicts,
  conflicts_of, conflict_less, detect_conflicts, Generator,
}
use factvault.Briefs.Pairs.{
  conflict_of, In-group_conflicts, group_conflicts_In, In-conflicts_of_iff,
}

-- The conflict is that of two of the statements, about one property of one entity, that differ in
-- the value, the one with the smaller id first.
abbrev pub IsConflictOf : List BundleStatement → Conflict → Type 0
IsConflictOf ss c =
    (s : BundleStatement) × (t : BundleStatement) × In s ss
    × In t ss
    × (s.entity_id ≡ t.entity_id)
    × (s.property_slug ≡ t.property_slug)
    × (s.id < t.id)
    × (text_eq s.value t.value ≡ false)
    × (c ≡ conflict_of s t)

pub key_eq_iff : (k l : Key) → (key_eq k l ≡ true) ↔ (k ≡ l)
unfolding key_eq
key_eq_iff (e, slug) (f, other) = ground (arith, text_eq_iff slug other)

group_of-IsFiltered :
    (k : Key) → IsFiltered (λ s. key_eq (key_of s) k) (λ (s : BundleStatement). s) (group_of k)
unfolding group_of
group_of-IsFiltered k = record { on_nil = refl; on_cons = λ s ss. refl }

In-has_group : (k : Key) (ks : List Key) → has_group k ks ≡ true → In k ks
unfolding has_group
In-has_group k [] h = cc
In-has_group k (x ∷ xs) h = ground (arith, key_eq_iff x k, In-has_group k xs)

pub In-group_keys :
    (s : BundleStatement) (ss : List BundleStatement) → In s ss → In (key_of s) (group_keys ss)
unfolding group_keys
In-group_keys s [] m = elim m [ ]
In-group_keys s (x ∷ xs) (inl e) = elim (Bool-cases (has_group (key_of x) (group_keys xs))) [
  | inl known ↦ rw (e, known) (In-has_group (key_of x) (group_keys xs) known)
  | inr new ↦ rw (e, new) (inl refl)
]
In-group_keys s (x ∷ xs) (inr m) =
    let rest = In-group_keys s xs m in
    elim (Bool-cases (has_group (key_of x) (group_keys xs))) [
      | inl known ↦ rw known rest
      | inr new ↦ rw new (inr rest)
    ]

pub group_of_iff :
    (k : Key) (ss : List BundleStatement) (s : BundleStatement)
    → In s (group_of k ss) ↔ (In s ss × (key_of s ≡ k))
group_of_iff k ss s =
    let kept =
      In-filtered_iff (λ s. key_eq (key_of s) k) (λ (s : BundleStatement). s) s (group_of k)
        (group_of-IsFiltered k) ss in
    (
      λ m.
          (let (r, in_r, same, e) = kept.0 m in
            (
              subst (λ z. In z ss) (sym e) in_r,
              subst (λ z. key_of z ≡ k) (sym e) ((key_eq_iff (key_of r) k).0 same),
            )),
      λ m. kept.1 (s, m.0, (key_eq_iff (key_of s) k).1 m.1, refl),
    )

strict_order :
    (ss : List BundleStatement) (s t : BundleStatement)
    → Identified (λ s. s.id) ss
    → In s ss
    → In t ss
    → statement_less t s ≡ false
    → text_eq s.value t.value ≡ false
    → s.id < t.id
unfolding statement_less
strict_order ss s t named m n order differ = elim (Bool-cases (s.id == t.id)) [
  | inl same ↦
      (let e = named s t m n ((==_iff s.id t.id).0 same) in
        let equal = (text_eq_iff s.value t.value).1 (ap (λ (r : BundleStatement). r.value) e) in
        absurd (ground arith))
  | inr apart ↦ ground arith
]

-- The conflicts of a brief are exactly the pairs of statements about one property of one entity
-- that differ in the value, in each the one with the smaller id first, whatever the order in which
-- the map's keys are visited, where no two statements have one id.
pub In-detect_conflicts_iff :
    (g : Generator) (ss : List BundleStatement) (c : Conflict)
    → IsSort g.sort
    → ((ks : List Key) → Permᴰ (g.range_keys ks) ks)
    → Identified (λ s. s.id) ss
    → In c (detect_conflicts g ss) ↔ IsConflictOf ss c
unfolding detect_conflicts
In-detect_conflicts_iff g ss c sort ranged named =
    let keys = g.range_keys (group_keys ss) in
    let sorted = sort.permutes conflict_less (conflicts_of g.sort ss keys) in
    let grouped = In-conflicts_of_iff g.sort sort ss c keys in
    (
      λ m. found (grouped.0 (In_perm c _ _ sorted m)),
      λ (s, t, m, n, e, f, order, differ, made). In_perm c _ _ (Permᴰ.symm sorted) (
          grouped.1 (
            key_of s,
            In_perm (key_of s) _ _ (Permᴰ.symm (ranged (group_keys ss))) (In-group_keys s ss m),
            subst (λ d. In d (group_conflicts g.sort (group_of (key_of s) ss))) (sym made)
                (group_conflicts_In g.sort sort (group_of (key_of s) ss) s t
                  ((group_of_iff (key_of s) ss s).1 (m, refl))
                  ((group_of_iff (key_of s) ss t).1 (n, ground (arith, e, f))) order differ),
          )),
    )
  where
    found :
        (k : Key) × In k (g.range_keys (group_keys ss))
          × In c (group_conflicts g.sort (group_of k ss))
        → IsConflictOf ss c
    found (k, in_k, m) =
        (let (s, t, in_s, in_t, order, differ, made) =
            In-group_conflicts g.sort sort (group_of k ss) c m in
          let (ms, ks) = (group_of_iff k ss s).0 in_s in
          let (mt, kt) = (group_of_iff k ss t).0 in_t in
          (
            s,
            t,
            ms,
            mt,
            ap (λ (z : Key). z.0) (ks ∙ sym kt),
            ap (λ (z : Key). z.1) (ks ∙ sym kt),
            strict_order ss s t named ms mt order differ,
            differ,
            made,
          ))
