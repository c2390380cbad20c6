-- ===== src/Db.antt =====
-- internal/db/models.go and migrations/: the rows that the modelled code reads and writes. A UUID
-- is a number. A NULL is `none`. Confidences are thousandths, as a NUMERIC(4,3) column holds them.
use factvault.Common.{ℕ, Option, List, Text, ℤ}

-- The values that the CHECK constraint on `sources.status` admits.
pub data SourceStatus : Type 0 where
  collected archived extracted verified link_rot content_changed : SourceStatus

pub SourceStatus-discrete : Discrete SourceStatus
SourceStatus-discrete = hlevel

pub record Source : Type 0 where
  pub id : ℕ
  pub tenant_id : ℕ
  pub url : Text
  pub content_hash : Text
  pub raw_html : Option Text
  pub raw_text : Option Text
  pub archive_url : Option Text
  pub publisher : Option Text
  pub title : Option Text
  pub last_verified_at : Option ℕ
  pub status : SourceStatus

pub record Entity : Type 0 where
  pub id : ℕ
  pub tenant_id : ℕ
  pub ext_id : Text
  pub label : Text

-- A property with no tenant is global.
pub record PropertyRow : Type 0 where
  pub id : ℕ
  pub tenant_id : Option ℕ
  pub slug : Text
  pub label : Text
  pub value_type : Text

-- A row of `proposed_properties`; the extractor writes pending ones only.
pub record ProposedRow : Type 0 where
  pub id : ℕ
  pub tenant_id : ℕ
  pub proposed_slug : Text
  pub proposed_value_type : Text
  pub proposed_by : Text
  pub example_excerpt : Text
  pub example_source_id : ℕ

-- The CHECK constraint lets exactly one value column be set. Numbers and dates stand in the
-- canonical form to which Postgres casts the text.
pub data StatementValue : Type 0 where
  val_text : Text → StatementValue
  val_number : Text → StatementValue
  val_date : Text → StatementValue
  val_entity : ℕ → StatementValue

pub record Statement : Type 0 where
  pub id : ℕ
  pub tenant_id : ℕ
  pub subject_id : ℕ
  pub property_id : ℕ
  pub value : StatementValue
  pub confidence : ℕ

pub record StatementSource : Type 0 where
  pub id : ℕ
  pub statement_id : ℕ
  pub source_id : ℕ
  pub excerpt : Text
  pub excerpt_offset_start : ℤ
  pub excerpt_offset_end : ℤ
  pub extraction_method : Text
  pub confidence : ℕ
  pub tenant_id : ℕ

-- The tables that the extraction worker reads and writes; `uuids` counts the identifiers drawn.
pub record Vault : Type 0 where
  pub sources : List Source
  pub entities : List Entity
  pub properties : List PropertyRow
  pub proposed : List ProposedRow
  pub statements : List Statement
  pub statement_sources : List StatementSource
  pub uuids : ℕ
