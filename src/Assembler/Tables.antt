-- ===== src/Assembler/Tables.antt =====
-- internal/assembler/bundle.go: the rows that the queries of `Assemble` read, and the bundle.
use factvault.Common.{ℕ, Option, List, Text, ℤ}
use factvault.Db.{PropertyRow}
use factvault.Assembler.Graph.{Relation}

pub record EntityRow : Type 0 where
  pub id : ℕ
  pub tenant_id : ℕ
  pub label : Text
  pub ext_id : Text
  pub type_uri : Option Text
  pub description : Option Text

-- The value columns, each as the text that the query gives.
pub record Values : Type 0 where
  pub val_entity : Option Text
  pub val_text : Option Text
  pub val_number : Option Text
  pub val_date : Option Text
  pub val_json : Option Text

pub record StatementRow : Type 0 where
  pub id : ℕ
  pub tenant_id : ℕ
  pub subject_id : ℕ
  pub property_id : ℕ
  pub values : Values
  pub rank : Text
  pub confidence : ℕ

-- A row of `statement_sources` joined with its source.
pub record LinkRow : Type 0 where
  pub tenant_id : ℕ
  pub statement_id : ℕ
  pub source_id : ℕ
  pub url : Text
  pub archive_url : Option Text
  pub published_at : Option Text
  pub status : Text
  pub excerpt : Text
  pub excerpt_offset_start : ℤ
  pub excerpt_offset_end : ℤ

pub record QualifierRow : Type 0 where
  pub id : ℕ
  pub statement_id : ℕ
  pub property_id : ℕ
  pub values : Values

pub record Tables : Type 0 where
  pub entities : List EntityRow
  pub properties : List PropertyRow
  pub statements : List StatementRow
  pub links : List LinkRow
  pub qualifiers : List QualifierRow
  pub relations : List Relation

pub record BundleStatement : Type 0 where
  pub id : ℕ
  pub entity_id : ℕ
  pub property_slug : Text
  pub value : Text
  pub value_type : Text
  pub rank : ℕ
  pub confidence : ℕ
  pub source_ids : List ℕ
  pub qualifier_ids : List ℕ

pub record BundleSource : Type 0 where
  pub id : ℕ
  pub url : Text
  pub archive_url : Option Text
  pub published_at : Option Text
  pub verification_status : Text
  pub raw_text : Text
  pub excerpt_offset_start : ℤ
  pub excerpt_offset_end : ℤ

pub record BundleQualifier : Type 0 where
  pub id : ℕ
  pub statement_id : ℕ
  pub property_slug : Text
  pub value : Text
  pub value_type : Text

pub record Bundle : Type 0 where
  pub entity_id : Text
  pub entities : List EntityRow
  pub statements : List BundleStatement
  pub sources : List BundleSource
  pub qualifiers : List BundleQualifier
  pub relations : List Relation
  pub tenant_id : ℕ
