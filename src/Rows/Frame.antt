-- ===== src/Rows/Frame.antt =====
-- What finding or creating the entity and the property of a fact leaves alone.
use factvault.Common.{ℕ, ◌≤◌, ◌≡◌, arith, Text}
use factvault.Db.{Vault}
use factvault.Extractors.{ExtractedFact}
use factvault.Vocabulary.{Mode, Resolution, resolve, new_resolver}
use factvault.Rows.{
  Env, insert_entity, ensure_entity, propose, insert_property, create_property, ensure_resolved,
  ensure_property,
}

-- The sources, the statements and their links stay, and no UUID is given back.
pub record Keeps (v w : Vault) : Type 0 where
  pub sources : w.sources ≡ v.sources
  pub statements : w.statements ≡ v.statements
  pub links : w.statement_sources ≡ v.statement_sources
  pub uuids : v.uuids ≤ w.uuids

pub ensure_entity-Keeps :
    (env : Env) (tenant : ℕ) (label : Text) (v : Vault)
    → Keeps v (ensure_entity env tenant label v).1
unfolding ensure_entity insert_entity
ensure_entity-Keeps env tenant label v = ground arith

ensure_resolved-Keeps :
    (env : Env) (mode : Mode) (tenant source_id : ℕ) (fact : ExtractedFact) (result : Resolution)
    (v : Vault)
    → Keeps v (ensure_resolved env mode tenant source_id fact result v).1
unfolding ensure_resolved create_property propose insert_property
ensure_resolved-Keeps env mode tenant source_id fact result v = ground arith

pub ensure_property-Keeps :
    (env : Env) (mode : Mode) (tenant source_id : ℕ) (fact : ExtractedFact) (v : Vault)
    → Keeps v (ensure_property env mode tenant source_id fact v).1
unfolding ensure_property
ensure_property-Keeps env mode tenant source_id fact v =
    ensure_resolved-Keeps env mode tenant source_id fact
      (resolve env.unicode (new_resolver env.unicode mode) fact.property_slug fact.value_type
        fact.excerpt)
      v
