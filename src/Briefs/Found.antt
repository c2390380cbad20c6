-- ===== src/Briefs/Found.antt =====
-- internal/briefs/briefs.go: what `detectConflicts` finds, how often, and in what order.
use factvault.Common.{Bool, List, ◌≡◌, ◌∙◌, ◌↔◌, In, Identified, IsSort}
use mathlib.Core.List.{Permᴰ}
use factvault.Assembler.Tables.{BundleStatement}
use factvault.Briefs.{
  Key, group_keys, Conflict, conflicts_of, conflict_less, detect_conflicts, Generator,
}
use factvault.Briefs.Conflicts.{In-group_keys, IsConflictOf, In-detect_conflicts_iff}
use factvault.Briefs.Counted.{times, pairs, times_perm}
use factvault.Briefs.Grouped.{
  conflicts_of-times, grouped_perm, grouped_whole, group_keys-AreDistinct,
}
use factvault.Briefs.Ordered.{conflict_less-IsWeakOrder, AreOrdered, IsSorted-AreOrdered}

-- The conflicts of a list of statements: which they are, how often each stands there, and in what
-- order.
pub record AreConflicts (ss : List BundleStatement) (cs : List Conflict) : Type 0 where
  members : (c : Conflict) → In c cs ↔ IsConflictOf ss c
  counted : (p : Conflict → Bool) → times p cs ≡ pairs p ss
  ordered : AreOrdered cs

-- Where no two statements have one id, the conflicts of a brief are exactly the pairs of statements
-- about one property of one entity that differ in the value, in each the one with the smaller id
-- first. Of whatever kind, there are as many conflicts as such pairs, and they are sorted by the
-- entity, the property and the first value. The order in which the map's keys are visited does not
-- matter.
pub detect_conflicts-AreConflicts :
    (g : Generator) (ss : List BundleStatement)
    → IsSort g.sort
    → ((ks : List Key) → Permᴰ (g.range_keys ks) ks)
    → Identified (λ s. s.id) ss
    → AreConflicts ss (detect_conflicts g ss)
unfolding detect_conflicts
detect_conflicts-AreConflicts g ss sort ranged named =
    let keys = group_keys ss in
    let found = conflicts_of g.sort ss (g.range_keys keys) in
    record {
      members = λ c. In-detect_conflicts_iff g ss c sort ranged named;
      counted = λ p.
          times_perm p _ _ (sort.permutes conflict_less found)
          ∙ conflicts_of-times p g.sort ss (g.range_keys keys) sort named
          ∙ grouped_perm p ss _ _ (ranged keys)
          ∙ grouped_whole p ss keys (group_keys-AreDistinct ss) (λ s m. In-group_keys s ss m);
      ordered = IsSorted-AreOrdered _ (sort.sorts conflict_less found conflict_less-IsWeakOrder);
    }
