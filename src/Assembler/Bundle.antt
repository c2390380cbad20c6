-- ===== src/Assembler/Bundle.antt =====
-- internal/assembler/bundle.go: a bundle is assembled from the database. The rows of each table
-- stand in the order of the query that reads them. UUIDs and timestamps of a bundle are those of
-- the rows; the code prints them.
pub mod Closed
use factvault.Common.{
  ℕ, zero, suc, ◌+◌, Bool, true, false, not, ◌&&◌, ◌||◌, Option, none, some, List, [], ◌∷◌, Text,
  lit, text_eq, ℤ, pos, negsuc, ◌==◌, length, select, if◌then◌else◌, Result, ok, err, ◌>>=◌,
}
use factvault.Db.{PropertyRow}
use factvault.Assembler.Tables.{
  EntityRow, Values, StatementRow, LinkRow, QualifierRow, Tables, BundleStatement, BundleSource,
  BundleQualifier, Bundle,
}
use factvault.Assembler.Graph.{
  Error, entity_not_found, invalid_depth, invalid_entity_count, Relation, UuidCast, unique_strings,
  cast_uuids, has_id, is_valid_depth, expand_graph, coalesce,
}

unfoldable pub first_statement_value : Values → Text
first_statement_value v = elim v.val_entity [
  | some s ↦ s
  | none ↦ elim v.val_text [
    | some s ↦ s
    | none ↦ elim v.val_number [
      | some s ↦ s
      | none ↦ elim v.val_date [ some s ↦ s | none ↦ elim v.val_json [ some s ↦ s | none ↦ [] ] ]
    ]
  ]
]

unfoldable pub bundle_rank : Text → ℕ
bundle_rank rank =
    if text_eq rank (lit "preferred")
    then 1
    else if text_eq rank (lit "normal")
    then 2
    else if text_eq rank (lit "deprecated")
    then 3
    else 2

unfoldable pub load_entities : Tables → ℕ → List ℕ → List EntityRow
load_entities t tenant ids =
    select (λ (e : EntityRow). e.tenant_id == tenant && has_id e.id ids) t.entities

-- `JOIN properties p ON p.id = …`, whose ids are unique.
unfoldable pub property_by_id : ℕ → List PropertyRow → Option PropertyRow
property_by_id id [] = none
property_by_id id (p ∷ ps) = let rest = property_by_id id ps in if p.id == id then some p else rest

-- The statements, as yet without sources and qualifiers.
unfoldable pub load_statements : Tables → ℕ → List ℕ → List StatementRow → List BundleStatement
load_statements t tenant ids [] = []
load_statements t tenant ids (s ∷ ss) =
    let rest = load_statements t tenant ids ss in
    if s.tenant_id == tenant && has_id s.subject_id ids
    then elim (property_by_id s.property_id t.properties) [
      | none ↦ rest
      | some p ↦
          record {
            id = s.id;
            entity_id = s.subject_id;
            property_slug = p.slug;
            value = first_statement_value s.values;
            value_type = p.value_type;
            rank = bundle_rank s.rank;
            confidence = s.confidence;
            source_ids = [];
            qualifier_ids = [];
          }
          ∷ rest
    ]
    else rest

unfoldable pub statement_ids : List BundleStatement → List ℕ
statement_ids [] = []
statement_ids (s ∷ ss) = s.id ∷ statement_ids ss

unfoldable pub links_of : ℕ → List ℕ → List LinkRow → List LinkRow
links_of tenant ids [] = []
links_of tenant ids (l ∷ ls) =
    let rest = links_of tenant ids ls in
    if l.tenant_id == tenant && has_id l.statement_id ids then l ∷ rest else rest

-- `byStatement[statementID]`: the ids of the statement's sources, in the order of the rows.
unfoldable pub source_ids_of : ℕ → List LinkRow → List ℕ
source_ids_of statement [] = []
source_ids_of statement (l ∷ ls) =
    let rest = source_ids_of statement ls in
    if l.statement_id == statement then l.source_id ∷ rest else rest

-- The sources, once each: the first row of a source gives its excerpt.
unfoldable pub sources_of : List ℕ → List LinkRow → List BundleSource
sources_of seen [] = []
sources_of seen (l ∷ ls) =
    let known = has_id l.source_id seen in
    let rest = sources_of (if known then seen else l.source_id ∷ seen) ls in
    if known
    then rest
    else record {
      id = l.source_id;
      url = l.url;
      archive_url = l.archive_url;
      published_at = l.published_at;
      verification_status = l.status;
      raw_text = l.excerpt;
      excerpt_offset_start = l.excerpt_offset_start;
      excerpt_offset_end = l.excerpt_offset_end;
    }
      ∷ rest

-- `JOIN statements s ON s.id = q.statement_id AND s.tenant_id = …`.
pub is_tenants_statement : ℕ → ℕ → List StatementRow → Bool
is_tenants_statement tenant id [] = false
is_tenants_statement tenant id (s ∷ ss) =
    (s.id == id && s.tenant_id == tenant) || is_tenants_statement tenant id ss

-- The query of the qualifiers does not read `val_json`.
unfoldable pub load_qualifiers : Tables → ℕ → List ℕ → List QualifierRow → List BundleQualifier
load_qualifiers t tenant ids [] = []
load_qualifiers t tenant ids (q ∷ qs) =
    let rest = load_qualifiers t tenant ids qs in
    if has_id q.statement_id ids && is_tenants_statement tenant q.statement_id t.statements
    then elim (property_by_id q.property_id t.properties) [
      | none ↦ rest
      | some p ↦
          record {
            id = q.id;
            statement_id = q.statement_id;
            property_slug = p.slug;
            value = first_statement_value (record q.values { val_json = none });
            value_type = p.value_type;
          }
          ∷ rest
    ]
    else rest

unfoldable pub qualifier_ids_of : ℕ → List BundleQualifier → List ℕ
qualifier_ids_of statement [] = []
qualifier_ids_of statement (q ∷ qs) =
    let rest = qualifier_ids_of statement qs in
    if q.statement_id == statement then q.id ∷ rest else rest

-- The two loops that fill in `SourceIDs` and `QualifierIDs`.
unfoldable pub attach :
    List LinkRow → List BundleQualifier → List BundleStatement → List BundleStatement
attach links qualifiers [] = []
attach links qualifiers (s ∷ ss) =
    record s {
      source_ids = source_ids_of s.id links;
      qualifier_ids = qualifier_ids_of s.id qualifiers;
    }
    ∷ attach links qualifiers ss

unfoldable pub load_relations : Tables → ℕ → List ℕ → List Relation
load_relations t tenant ids =
    select
      (λ (r : Relation).
        r.tenant_id == tenant && (has_id r.source_id ids && has_id r.target_id ids))
      t.relations

-- `Assemble` behind its guards, from the ids of all the entities and their number.
unfoldable pub bundle_of : Tables → Text → ℕ → List ℕ → ℕ → Result Error Bundle
bundle_of t primary count ids tenant =
    let entities = load_entities t tenant ids in
    let statements = load_statements t tenant ids t.statements in
    let links = links_of tenant (statement_ids statements) t.links in
    let qualifiers = load_qualifiers t tenant (statement_ids statements) t.qualifiers in
    if not (length entities == count)
    then err entity_not_found
    else ok (record {
      entity_id = primary;
      entities = entities;
      statements = attach links qualifiers statements;
      sources = sources_of [] links;
      qualifiers = qualifiers;
      relations = load_relations t tenant ids;
      tenant_id = tenant;
    })

unfoldable pub load_bundle : UuidCast → Tables → Text → List Text → ℕ → Result Error Bundle
load_bundle c t primary all_ids tenant = cast_uuids c (unique_strings all_ids) >>= λ ids.
    bundle_of t primary (length (unique_strings all_ids)) ids tenant

-- `if depth > 0 { allEntityIDs = expanded }`.
abbrev pub all_entity_ids : UuidCast → Tables → List Text → ℤ → ℕ → Result Error (List Text)
all_entity_ids c t ids (pos (suc n)) tenant = expand_graph c t.relations ids (pos (suc n)) tenant
all_entity_ids c t ids (pos zero) tenant = ok ids
all_entity_ids c t ids (negsuc n) tenant = ok ids

-- `Assemble`.
unfoldable pub assemble : UuidCast → Tables → List Text → ℤ → ℕ → Result Error Bundle
assemble c t [] depth tenant = err invalid_entity_count
assemble c t (primary ∷ ids) depth tenant =
    if not (is_valid_depth depth)
    then err invalid_depth
    else all_entity_ids c t (primary ∷ ids) depth tenant >>= λ all_ids.
        load_bundle c t primary all_ids tenant
