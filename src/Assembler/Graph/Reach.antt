-- ===== src/Assembler/Graph/Reach.antt =====
-- Which entities the recursive query finds.
use factvault.Common.{
  ℕ, zero, suc, ◌≤◌, ◌≡◌, refl, ◌↔◌, ◌⊎◌, inl, inr, true, List, [], ◌∷◌, arith, In, In-append_iff,
}
use mathlib.Core.Path.{subst}
use factvault.Assembler.Graph.{
  Relation, UuidCast, coalesce, is_open, neighbours, has_id, distinct, next_level, graph_rows,
  insert_id, order_ids, reachable_ids,
}

-- A relation of the tenant, with a confidence of at least 0.4, joins the two, in one direction or
-- the other.
abbrev IsEdge : List Relation → ℕ → ℕ → ℕ → Type 0
IsEdge [] tenant x y = ⊥
IsEdge (r ∷ rs) tenant x y =
    ((r.tenant_id ≡ tenant)
      × (400 ≤ coalesce r.confidence)
      × (((r.source_id ≡ x) × (r.target_id ≡ y)) ⊎ ((r.target_id ≡ x) × (r.source_id ≡ y))))
    ⊎ IsEdge rs tenant x y

-- At most so many edges lead from the one to the other.
abbrev pub IsWithin : List Relation → ℕ → ℕ → ℕ → ℕ → Type 0
IsWithin rs tenant zero x y = x ≡ y
IsWithin rs tenant (suc n) x y =
    (x ≡ y) ⊎ ((z : ℕ) × IsEdge rs tenant x z × IsWithin rs tenant n z y)

In-neighbours_iff :
    (rs : List Relation) (tenant x y : ℕ) → In y (neighbours rs tenant x) ↔ IsEdge rs tenant x y
unfolding neighbours is_open
In-neighbours_iff [] tenant x y = (λ h. h, λ h. h)
In-neighbours_iff (r ∷ rs) tenant x y = ground (arith, In-neighbours_iff rs tenant x y)

pub has_id_iff : (x : ℕ) (xs : List ℕ) → (has_id x xs ≡ true) ↔ In x xs
unfolding has_id
has_id_iff x [] = ground arith
has_id_iff x (y ∷ ys) = ground (arith, has_id_iff x ys)

In-distinct_iff : (x : ℕ) (xs : List ℕ) → In x (distinct xs) ↔ In x xs
unfolding distinct
In-distinct_iff x [] = (λ h. h, λ h. h)
In-distinct_iff x (y ∷ ys) = ground (arith, In-distinct_iff x ys, has_id_iff y (distinct ys))

In-insert_id_iff :
    (c : UuidCast) (x id : ℕ) (xs : List ℕ) → In x (insert_id c id xs) ↔ ((x ≡ id) ⊎ In x xs)
unfolding insert_id
In-insert_id_iff c x id [] = (λ h. h, λ h. h)
In-insert_id_iff c x id (y ∷ ys) = ground (arith, In-insert_id_iff c x id ys)

In-order_ids_iff : (c : UuidCast) (x : ℕ) (xs : List ℕ) → In x (order_ids c xs) ↔ In x xs
unfolding order_ids
In-order_ids_iff c x [] = (λ h. h, λ h. h)
In-order_ids_iff c x (y ∷ ys) =
    ground (arith, In-order_ids_iff c x ys, In-insert_id_iff c x y (order_ids c ys))

In-next_level_iff :
    (rs : List Relation) (tenant y : ℕ) (xs : List ℕ)
    → In y (next_level rs tenant xs) ↔ ((x : ℕ) × In x xs × IsEdge rs tenant x y)
unfolding next_level
In-next_level_iff rs tenant y [] = (λ h. absurd h, λ h. absurd h.1)
In-next_level_iff rs tenant y (x ∷ xs) = (
  λ h.
      found (In-next_level_iff rs tenant y xs).0
        ((In-append_iff y (neighbours rs tenant x) (next_level rs tenant xs)).0 h),
  λ h.
      (In-append_iff y (neighbours rs tenant x) (next_level rs tenant xs)).1
        (placed (λ m. (In-next_level_iff rs tenant y xs).1 m) h.0 h.1 h.2),
)
  where
    found :
        (In y (next_level rs tenant xs) → (x : ℕ) × In x xs × IsEdge rs tenant x y)
        → In y (neighbours rs tenant x) ⊎ In y (next_level rs tenant xs)
        → (z : ℕ) × In z (x ∷ xs) × IsEdge rs tenant z y
    found rest (inl here) = (x, inl refl, (In-neighbours_iff rs tenant x y).0 here)
    found rest (inr there) = let (z, member, edge) = rest there in (z, inr member, edge)

    placed :
        (((x : ℕ) × In x xs × IsEdge rs tenant x y) → In y (next_level rs tenant xs))
        → (z : ℕ) → In z (x ∷ xs)
        → IsEdge rs tenant z y
        → In y (neighbours rs tenant x) ⊎ In y (next_level rs tenant xs)
    placed rest z (inl e) edge =
        inl ((In-neighbours_iff rs tenant x y).1 (subst (λ u. IsEdge rs tenant u y) e edge))
    placed rest z (inr member) edge = inr (rest (z, member, edge))

abbrev Reached : List Relation → ℕ → ℕ → List ℕ → ℕ → Type 0
Reached rs tenant depth level y = (x : ℕ) × In x level × IsWithin rs tenant depth x y

Reached-suc :
    (rs : List Relation) (tenant depth y : ℕ) (level : List ℕ)
    → (In y level ⊎ Reached rs tenant depth (distinct (next_level rs tenant level)) y)
      ↔ Reached rs tenant (suc depth) level y
Reached-suc rs tenant depth y level = (there, λ h. back h.0 h.1 h.2)
  where
    there :
        In y level ⊎ Reached rs tenant depth (distinct (next_level rs tenant level)) y
        → Reached rs tenant (suc depth) level y
    there (inl h) = (y, h, inl refl)
    there (inr (z, m, w)) =
        let (x, member, edge) =
          (In-next_level_iff rs tenant z level).0
            ((In-distinct_iff z (next_level rs tenant level)).0 m) in
        (x, member, inr (z, edge, w))

    back :
        (x : ℕ)
        → In x level
        → IsWithin rs tenant (suc depth) x y
        → In y level ⊎ Reached rs tenant depth (distinct (next_level rs tenant level)) y
    back x m (inl e) = inl (subst (λ u. In u level) e m)
    back x m (inr (z, edge, w)) = inr (
      z,
      (In-distinct_iff z (next_level rs tenant level)).1
          ((In-next_level_iff rs tenant z level).1 (x, m, edge)),
      w,
    )

In-graph_rows_iff :
    (rs : List Relation) (tenant depth y : ℕ) (level : List ℕ)
    → In y (graph_rows rs tenant depth level) ↔ Reached rs tenant depth level y
unfolding graph_rows
In-graph_rows_iff rs tenant zero y level = (λ h. (y, h, refl), λ h. subst (λ u. In u level) h.2 h.1)
In-graph_rows_iff rs tenant (suc depth) y level =
    let next = distinct (next_level rs tenant level) in
    let split = In-append_iff y level (graph_rows rs tenant depth next) in
    let rest = In-graph_rows_iff rs tenant depth y next in
    let step = Reached-suc rs tenant depth y level in
    (λ h. step.0 (after rest.0 (split.0 h)), λ h. split.1 (after rest.1 (step.1 h)))
  where
    after : {A B C : Type 0} → (B → C) → A ⊎ B → A ⊎ C
    after f (inl a) = inl a
    after f (inr b) = inr (f b)

-- `ExpandGraph`'s query answers an entity exactly if at most `depth` edges lead to it from a seed.
-- The edges are the tenant's relations of confidence 0.4 or more, taken in both directions.
pub In-reachable_ids_iff :
    (c : UuidCast) (rs : List Relation) (tenant depth y : ℕ) (seeds : List ℕ)
    → In y (reachable_ids c rs tenant depth seeds)
      ↔ ((x : ℕ) × In x seeds × IsWithin rs tenant depth x y)
unfolding reachable_ids
In-reachable_ids_iff c rs tenant depth y seeds =
    let ordered = In-order_ids_iff c y (graph_rows rs tenant depth (distinct seeds)) in
    let rows = In-graph_rows_iff rs tenant depth y (distinct seeds) in
    (
      λ h. (let (x, m, w) = rows.0 (ordered.0 h) in (x, (In-distinct_iff x seeds).0 m, w)),
      λ h. ordered.1 (rows.1 (h.0, (In-distinct_iff h.0 seeds).1 h.1, h.2)),
    )
