-- ===== src/Rows.antt =====
-- internal/workers/extract.go: the SELECTs and INSERTs of the extraction worker, over the tables of
-- the vault. The worker runs alone: no other transaction commits between its statements.
pub mod Frame
use factvault.Common.{
  ℕ, zero, suc, ◌+◌, ◌-◌, ◌≤◌, Bool, true, false, not, ◌&&◌, ◌||◌, Option, none, some, List, [],
  ◌∷◌, ◌++◌, Text, lit, text_eq, ℤ, pos, ltb_ℤ, ltb, leb, ◌==◌, ◌/◌, ◌%◌, take, if◌then◌else◌,
  Result, ok, err, ◌>>=◌, map,
}
use factvault.Strings.{Unicode, trim_space, to_lower}
use factvault.Db.{
  Source, SourceStatus, archived, extracted, Entity, PropertyRow, ProposedRow, StatementValue,
  val_text, val_number, val_date, val_entity, Statement, StatementSource, Vault,
}
use factvault.Excerpt.{verify_excerpt_offset, verify_proposal_offset}
use factvault.Extractors.{ExtractedFact}
use factvault.Vocabulary.{Mode, mode_strict, Resolution, resolve, new_resolver}

-- What the worker takes from outside: Go's Unicode tables, `sha256.Sum256`, the n-th UUID that is
-- drawn, and the casts of Postgres, which refuse some texts.
pub record Env : Type 0 where
  pub unicode : Unicode
  pub sha256 : Text → Text
  pub new_uuid : ℕ → ℕ
  pub cast_number : Text → Option Text
  pub cast_date : Text → Option Text
  pub cast_uuid : Text → Option ℕ

-- `hex.EncodeToString`.
hex_digit : ℕ → ℕ
hex_digit n = if ltb n 10 then b'0' + n else b'a' + n - 10

pub hex : Text → Text
unfolding hex_digit
hex [] = []
hex (b ∷ s) = hex_digit (b / 16) ∷ hex_digit (b % 16) ∷ hex s

-- `normalizeValueType`.
normalize_value_type : Unicode → Text → Text
normalize_value_type u value_type =
    let t = to_lower u (trim_space value_type) in
    if text_eq t (lit "entity_ref")
      || (text_eq t (lit "string")
          || (text_eq t (lit "number") || (text_eq t (lit "date") || text_eq t (lit "url"))))
    then t
    else lit "string"

entity_ext_id_for_label : Env → Text → Text
entity_ext_id_for_label env label =
    lit "extract:subject:" ++ hex (take 16 (env.sha256 (trim_space (to_lower env.unicode label))))

-- `INSERT INTO entities … ON CONFLICT DO NOTHING RETURNING id` finds the conflicting row, if any.
find_entity : ℕ → Text → List Entity → Option Entity
find_entity tenant ext_id [] = none
find_entity tenant ext_id (e ∷ es) =
    if e.tenant_id == tenant && text_eq e.ext_id ext_id
    then some e
    else find_entity tenant ext_id es

pub insert_entity : Env → ℕ → Text → Text → Vault → ℕ × Vault
insert_entity env tenant ext_id label v =
    let id = env.new_uuid v.uuids in
    let row : Entity = record { id = id; tenant_id = tenant; ext_id = ext_id; label = label } in
    (id, record v { entities = row ∷ v.entities; uuids = v.uuids + 1 })

abbrev subject_label : Text → Text
subject_label [] = lit "unknown subject"
subject_label (b ∷ s) = b ∷ s

-- `ensureEntity`: a UUID is drawn also where the insertion meets a conflict, and the row that was
-- there is then read again.
pub ensure_entity : Env → ℕ → Text → Vault → ℕ × Vault
ensure_entity env tenant label v =
    let name = subject_label label in
    let ext_id = entity_ext_id_for_label env name in
    elim (find_entity tenant ext_id v.entities) [
      | some e ↦ (e.id, record v { uuids = v.uuids + 1 })
      | none ↦ insert_entity env tenant ext_id name v
    ]

-- The row that `SELECT id FROM properties … ORDER BY tenant_id NULLS LAST LIMIT 1` gives: the
-- tenant's own, else the global one.
abbrev owned_by : Option ℕ → ℕ → Bool
owned_by none tenant = false
owned_by (some t) tenant = t == tenant

abbrev is_global : Option ℕ → Bool
is_global none = true
is_global (some t) = false

find_property_row : (Option ℕ → Bool) → Text → List PropertyRow → Option ℕ
find_property_row matches slug [] = none
find_property_row matches slug (p ∷ ps) =
    if matches p.tenant_id && text_eq p.slug slug
    then some p.id
    else find_property_row matches slug ps

select_property : ℕ → Text → List PropertyRow → Option ℕ
select_property tenant slug ps = elim (find_property_row (λ o. owned_by o tenant) slug ps) [
  | some id ↦ some id
  | none ↦ find_property_row is_global slug ps
]

is_proposed : ℕ → Text → List ProposedRow → Bool
is_proposed tenant slug [] = false
is_proposed tenant slug (p ∷ ps) =
    (p.tenant_id == tenant && text_eq p.proposed_slug slug) || is_proposed tenant slug ps

-- `INSERT INTO proposed_properties … ON CONFLICT DO NOTHING`.
pub propose : Env → ℕ → ℕ → Text → Text → Text → Vault → Vault
propose env tenant source_id slug value_type excerpt v =
    if is_proposed tenant slug v.proposed then record v { uuids = v.uuids + 1 } else record v {
      proposed =
          record {
            id = env.new_uuid v.uuids;
            tenant_id = tenant;
            proposed_slug = slug;
            proposed_value_type = value_type;
            proposed_by = lit "extract:strict";
            example_excerpt = excerpt;
            example_source_id = source_id;
          }
          ∷ v.proposed;
      uuids = v.uuids + 1;
    }

pub insert_property : Env → ℕ → Text → Text → Text → Vault → ℕ × Vault
insert_property env tenant slug label value_type v =
    let id = env.new_uuid v.uuids in
    let row : PropertyRow = record {
      id = id;
      tenant_id = some tenant;
      slug = slug;
      label = label;
      value_type = value_type;
    } in
    (id, record v { properties = row ∷ v.properties; uuids = v.uuids + 1 })

-- What `ensureProperty` answers: the property under which to write, with the value type, or that
-- the fact is not to be written.
pub data Ensured : Type 0 where
  write_under : ℕ → Text → Ensured
  do_not_write : Ensured

-- `ensureProperty` behind the first SELECT, which found nothing. The INSERT then meets no conflict,
-- since the worker runs alone and no global row has the slug.
pub create_property :
    Env → Mode → ℕ → ℕ → ExtractedFact → Resolution → Text → Vault → Ensured × Vault
create_property env mode tenant source_id fact result value_type v =
    if not result.known && text_eq mode mode_strict
    then (do_not_write, propose env tenant source_id result.property.slug value_type fact.excerpt v)
    else (let (id, v') =
          insert_property env tenant result.property.slug
            (if result.known then result.property.label else result.property.slug) value_type v in
        (write_under id value_type, v'))

pub ensure_resolved : Env → Mode → ℕ → ℕ → ExtractedFact → Resolution → Vault → Ensured × Vault
ensure_resolved env mode tenant source_id fact result v =
    let value_type = normalize_value_type env.unicode result.property.value_type in
    elim (select_property tenant result.property.slug v.properties) [
      | some id ↦ (write_under id value_type, v)
      | none ↦ create_property env mode tenant source_id fact result value_type v
    ]

-- `ensureProperty`. (`normalizeValueType` is never empty, so its error return is dead code.)
pub ensure_property : Env → Mode → ℕ → ℕ → ExtractedFact → Vault → Ensured × Vault
ensure_property env mode tenant source_id fact v =
    ensure_resolved env mode tenant source_id fact
      (resolve env.unicode (new_resolver env.unicode mode) fact.property_slug fact.value_type
        fact.excerpt)
      v

-- The value column and the cast of `insertStatementQuery`.
pub cast_value : Env → Text → Text → Option StatementValue
cast_value env value_type value =
    if text_eq value_type (lit "number")
    then elim (env.cast_number value) [ none ↦ none | some n ↦ some (val_number n) ]
    else if text_eq value_type (lit "date")
    then elim (env.cast_date value) [ none ↦ none | some d ↦ some (val_date d) ]
    else if text_eq value_type (lit "entity_ref")
    then elim (env.cast_uuid value) [ none ↦ none | some e ↦ some (val_entity e) ]
    else some (val_text value)

same_value : StatementValue → StatementValue → Bool
same_value (val_text a) (val_text b) = text_eq a b
same_value (val_number a) (val_number b) = text_eq a b
same_value (val_date a) (val_date b) = text_eq a b
same_value (val_entity a) (val_entity b) = a == b
same_value a b = false

-- The constraint `uq_statements_content_hash`.
pub has_statement : ℕ → ℕ → ℕ → StatementValue → List Statement → Bool
has_statement tenant subject property value [] = false
has_statement tenant subject property value (s ∷ ss) =
    (s.tenant_id == tenant
      && (s.subject_id == subject && (s.property_id == property && same_value s.value value)))
    || has_statement tenant subject property value ss

has_entity : ℕ → ℕ → List Entity → Bool
has_entity tenant id [] = false
has_entity tenant id (e ∷ es) = (e.tenant_id == tenant && e.id == id) || has_entity tenant id es

-- The foreign key of `val_entity` and the CHECK on the confidence.
pub admits_statement : ℕ → StatementValue → ℕ → Vault → Bool
admits_statement tenant (val_entity id) confidence v =
    has_entity tenant id v.entities && leb confidence 1000
admits_statement tenant _ confidence v = leb confidence 1000

-- The CHECKs on the offsets of `statement_sources`.
abbrev pub admits_offsets : ℤ → ℤ → Bool
admits_offsets start end = not (ltb_ℤ start (pos 0)) && ltb_ℤ start end
