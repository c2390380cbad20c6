-- ===== src/Assembler/Bundle/Closed.antt =====
-- What the statements and qualifiers of a bundle refer to.
use factvault.Common.{
  ℕ, ◌≡◌, refl, ap, sym, ◌↔◌, inl, inr, ◌&&◌, List, [], ◌∷◌, arith, Text, ℤ, ◌==◌, ==_iff, All, In,
  ok, >>=-ok, Bool-cases, length, Option-cases,
}
use mathlib.Core.Path.{subst}
use factvault.Assembler.Graph.{UuidCast, has_id, unique_strings, cast_uuids, is_valid_depth}
use factvault.Assembler.Graph.Reach.{has_id_iff}
use factvault.Assembler.Bundle.{
  statement_ids, links_of, source_ids_of, sources_of, load_statements, load_entities,
  load_qualifiers, load_relations, attach, bundle_of, load_bundle, all_entity_ids, assemble,
  property_by_id, is_tenants_statement,
}
use factvault.Assembler.Tables.{
  Tables, LinkRow, QualifierRow, Bundle, BundleStatement, BundleSource, BundleQualifier,
}

unfoldable pub source_ids : List BundleSource → List ℕ
source_ids [] = []
source_ids (s ∷ ss) = s.id ∷ source_ids ss

abbrev HasDistinctIds : List BundleSource → Type 0
HasDistinctIds [] = Unit
HasDistinctIds (s ∷ ss) = (In s.id (source_ids ss) → ⊥) × HasDistinctIds ss

-- No source stands twice, each source that a statement lists is there, and each qualifier belongs
-- to a statement of the bundle.
pub record IsClosed (b : Bundle) : Type 0 where
  once : HasDistinctIds b.sources
  pub listed : All (λ s. All (λ id. In id (source_ids b.sources)) s.source_ids) b.statements
  qualified : All (λ q. In q.statement_id (statement_ids b.statements)) b.qualifiers

link_ids : List LinkRow → List ℕ
link_ids [] = []
link_ids (l ∷ ls) = l.source_id ∷ link_ids ls

In-sources_of_iff :
    (x : ℕ) (seen : List ℕ) (ls : List LinkRow)
    → In x (source_ids (sources_of seen ls)) ↔ (In x (link_ids ls) × (In x seen → ⊥))
unfolding sources_of source_ids link_ids
In-sources_of_iff x seen [] = ground arith
In-sources_of_iff x seen (l ∷ ls) = elim (Bool-cases (has_id l.source_id seen)) [
  | inl known ↦ rw known (
      ground (
        arith,
        In-sources_of_iff x seen ls,
        has_id_iff l.source_id seen,
        has_id_iff x seen,
        ==_iff x l.source_id,
        Bool-cases (x == l.source_id),
      ))
  | inr new ↦ rw new (
      ground (
        arith,
        In-sources_of_iff x (l.source_id ∷ seen) ls,
        has_id_iff l.source_id seen,
        has_id_iff x seen,
        ==_iff x l.source_id,
        Bool-cases (x == l.source_id),
      ))
]

sources_of-HasDistinctIds :
    (seen : List ℕ) (ls : List LinkRow) → HasDistinctIds (sources_of seen ls)
unfolding sources_of
sources_of-HasDistinctIds seen [] = tt
sources_of-HasDistinctIds seen (l ∷ ls) = elim (Bool-cases (has_id l.source_id seen)) [
  | inl known ↦ rw known (sources_of-HasDistinctIds seen ls)
  | inr new ↦ rw new (
    λ h. ((In-sources_of_iff l.source_id (l.source_id ∷ seen) ls).0 h).1 (inl refl),
    sources_of-HasDistinctIds (l.source_id ∷ seen) ls,
  )
]

source_ids_of-All :
    (statement : ℕ) (ls all : List LinkRow)
    → All (λ id. In id (source_ids (sources_of [] all))) (link_ids ls)
    → All (λ id. In id (source_ids (sources_of [] all))) (source_ids_of statement ls)
unfolding source_ids_of link_ids
source_ids_of-All statement [] all h = tt
source_ids_of-All statement (l ∷ ls) all h = elim (Bool-cases (l.statement_id == statement)) [
  | inl its ↦ rw its (h.0, source_ids_of-All statement ls all h.1)
  | inr other ↦ rw other (source_ids_of-All statement ls all h.1)
]

All-In : (xs ys : List ℕ) → ((x : ℕ) → In x xs → In x ys) → All (λ x. In x ys) xs
All-In [] ys f = tt
All-In (x ∷ xs) ys f = (f x (inl refl), All-In xs ys (λ z h. f z (inr h)))

links_listed : (ls : List LinkRow) → All (λ id. In id (source_ids (sources_of [] ls))) (link_ids ls)
links_listed ls =
    All-In (link_ids ls) (source_ids (sources_of [] ls))
      (λ x h. (In-sources_of_iff x [] ls).1 (h, λ n. n))

attach-listed :
    (ls : List LinkRow) (qs : List BundleQualifier) (ss : List BundleStatement)
    → All (λ s. All (λ id. In id (source_ids (sources_of [] ls))) s.source_ids) (attach ls qs ss)
unfolding attach
attach-listed ls qs [] = tt
attach-listed ls qs (s ∷ ss) =
    (source_ids_of-All s.id ls ls (links_listed ls), attach-listed ls qs ss)

statement_ids-attach :
    (ls : List LinkRow) (qs : List BundleQualifier) (ss : List BundleStatement)
    → statement_ids (attach ls qs ss) ≡ statement_ids ss
unfolding attach statement_ids
statement_ids-attach ls qs [] = refl
statement_ids-attach ls qs (s ∷ ss) = ap (λ (r : List ℕ). s.id ∷ r) (statement_ids-attach ls qs ss)

load_qualifiers-All :
    (t : Tables) (tenant : ℕ) (ids : List ℕ) (qs : List QualifierRow)
    → All (λ q. In q.statement_id ids) (load_qualifiers t tenant ids qs)
unfolding load_qualifiers
load_qualifiers-All t tenant ids [] = tt
load_qualifiers-All t tenant ids (q ∷ qs) =
    elim (Bool-cases
      (has_id q.statement_id ids && is_tenants_statement tenant q.statement_id t.statements)) [
        | inr other ↦ rw other (load_qualifiers-All t tenant ids qs)
        | inl its ↦ rw its (elim (Option-cases (property_by_id q.property_id t.properties)) [
          | inl missing ↦ rw missing (load_qualifiers-All t tenant ids qs)
          | inr (p, found) ↦ rw found (
            (has_id_iff q.statement_id ids).0 (ground arith),
            load_qualifiers-All t tenant ids qs,
          )
        ])
      ]

bundle_of-IsClosed :
    (t : Tables) (primary : Text) (count : ℕ) (ids : List ℕ) (tenant : ℕ) (b : Bundle)
    → bundle_of t primary count ids tenant ≡ ok b
    → IsClosed b
unfolding bundle_of
bundle_of-IsClosed t primary count ids tenant b h =
    let statements = load_statements t tenant ids t.statements in
    let links = links_of tenant (statement_ids statements) t.links in
    let qualifiers = load_qualifiers t tenant (statement_ids statements) t.qualifiers in
    let made : Bundle = record {
      entity_id = primary;
      entities = load_entities t tenant ids;
      statements = attach links qualifiers statements;
      sources = sources_of [] links;
      qualifiers = qualifiers;
      relations = load_relations t tenant ids;
      tenant_id = tenant;
    } in
    elim (Bool-cases (length (load_entities t tenant ids) == count)) [
      | inr missing ↦ absurd (ground arith)
      | inl found ↦ subst IsClosed {x = made} (ground arith) (record {
        once = sources_of-HasDistinctIds [] links;
        listed = attach-listed links qualifiers statements;
        qualified =
            subst (λ ids. All (λ q. In q.statement_id ids) qualifiers)
              (sym (statement_ids-attach links qualifiers statements))
              (load_qualifiers-All t tenant (statement_ids statements) t.qualifiers);
      })
    ]

-- A bundle that `Assemble` returns is closed: no source stands twice in it, it holds every source
-- that one of its statements lists, and each of its qualifiers belongs to one of its statements.
pub assemble-IsClosed :
    (c : UuidCast) (t : Tables) (ids : List Text) (depth : ℤ) (tenant : ℕ) (b : Bundle)
    → assemble c t ids depth tenant ≡ ok b
    → IsClosed b
unfolding assemble load_bundle
assemble-IsClosed c t [] depth tenant b h = absurd (ground arith)
assemble-IsClosed c t (primary ∷ ids) depth tenant b h = elim (Bool-cases (is_valid_depth depth)) [
  | inl valid ↦
      (let (all_ids, expanded, loaded) =
          >>=-ok (all_entity_ids c t (primary ∷ ids) depth tenant)
            (λ all_ids. load_bundle c t primary all_ids tenant) (ground arith) in
        let (uuids, cast, built) =
          >>=-ok (cast_uuids c (unique_strings all_ids))
            (λ uuids. bundle_of t primary (length (unique_strings all_ids)) uuids tenant) loaded in
        bundle_of-IsClosed t primary (length (unique_strings all_ids)) uuids tenant b built)
  | inr invalid ↦ absurd (ground arith)
]
