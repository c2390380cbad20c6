-- ===== src/Examples/Bundles.antt =====
-- A bundle of one entity with one statement.
use factvault.Briefs
use factvault.Briefs.{BriefDoc, generate, derive_writer_prompts}
use factvault.Briefs.Cited.{IsCited, assemble-generate-IsCited}
use factvault.Examples.Briefs.{generator}
use factvault.Common.Sorting.Insertion.{insertion_package-IsSort, insertion_sort, insert_sorted}
use factvault.Common.{All, ◌≡◌, refl, none, some, [], ◌∷◌, Text, lit, pos, length, ok, text_eq}
use factvault.Assembler.Graph.{UuidCast}
use factvault.Assembler.Graph
use factvault.Assembler.Bundle.{assemble}
use factvault.Assembler.Tables.{Tables, Values, Bundle}
use factvault.Assembler.Bundle
use factvault.Assembler.Bundle.Closed.{IsClosed, assemble-IsClosed}

abbrev pub uuid_cast : UuidCast
uuid_cast = record { of_text = λ t. some (length t); to_text = λ n. n ∷ [] }

abbrev pub named : Text → Values
named name = record {
  val_entity = none;
  val_text = some name;
  val_number = none;
  val_date = none;
  val_json = none;
}

abbrev pub tables : Tables
tables = record {
  entities =
      record {
        id = 1;
        tenant_id = 7;
        label = lit "Acme";
        ext_id = lit "x";
        type_uri = none;
        description = none;
      }
      ∷ [];
  properties =
      record {
        id = 3;
        tenant_id = none;
        slug = lit "ceo";
        label = lit "CEO";
        value_type = lit "string";
      }
      ∷ [];
  statements =
      record {
        id = 5;
        tenant_id = 7;
        subject_id = 1;
        property_id = 3;
        values = named (lit "Ann");
        rank = lit "normal";
        confidence = 500;
      }
      ∷ [];
  links =
      record {
        tenant_id = 7;
        statement_id = 5;
        source_id = 9;
        url = lit "u";
        archive_url = none;
        published_at = none;
        status = lit "extracted";
        excerpt = lit "Ann";
        excerpt_offset_start = pos 0;
        excerpt_offset_end = pos 3;
      }
      ∷ [];
  qualifiers = [];
  relations = [];
}

abbrev pub bundle : Bundle
bundle = record {
  entity_id = lit "a";
  entities = tables.entities;
  statements =
      record {
        id = 5;
        entity_id = 1;
        property_slug = lit "ceo";
        value = lit "Ann";
        value_type = lit "string";
        rank = 2;
        confidence = 500;
        source_ids = 9 ∷ [];
        qualifier_ids = [];
      }
      ∷ [];
  sources =
      record {
        id = 9;
        url = lit "u";
        archive_url = none;
        published_at = none;
        verification_status = lit "extracted";
        raw_text = lit "Ann";
        excerpt_offset_start = pos 0;
        excerpt_offset_end = pos 3;
      }
      ∷ [];
  qualifiers = [];
  relations = [];
  tenant_id = 7;
}

pub assembled_now : assemble uuid_cast tables (lit "a" ∷ []) (pos 0) 7 ≡ ok bundle
unfolding assemble Bundle.load_bundle Bundle.bundle_of Bundle.load_entities Bundle.load_statements
    Bundle.property_by_id Bundle.first_statement_value Bundle.bundle_rank Bundle.statement_ids
    Bundle.links_of Bundle.source_ids_of Bundle.sources_of Bundle.load_qualifiers
    Bundle.qualifier_ids_of Bundle.attach Bundle.load_relations Graph.has_id Graph.cast_uuids
    Graph.unique_strings Graph.unique_from Graph.is_seen text_eq
assembled_now = refl

assemble-IsClosed_example : IsClosed bundle
assemble-IsClosed_example =
    assemble-IsClosed uuid_cast tables (lit "a" ∷ []) (pos 0) 7 bundle assembled_now

abbrev brief : BriefDoc
brief = record {
  key_claims = [];
  citations = record { source_id = 9; url = lit "u"; verification_status = lit "extracted" } ∷ [];
  conflicts = [];
  source_health = record { source_id = 9; status = lit "extracted" } ∷ [];
  evidence_gaps = [];
  writer_prompts = derive_writer_prompts generator bundle;
}

generated_now : generate generator (some bundle) ≡ ok brief
unfolding generate Briefs.extract_key_claims Briefs.key_claims Briefs.extract_citations
    Briefs.citations_from Briefs.detect_conflicts Briefs.conflicts_of Briefs.group_conflicts
    Briefs.group_of Briefs.group_keys Briefs.has_group Briefs.key_eq Briefs.build_source_health
    Briefs.health_from Briefs.find_evidence_gaps Briefs.gaps_of insertion_sort insert_sorted
    Graph.has_id text_eq
generated_now = refl

assemble-generate-IsCited_example : All (λ s. All (IsCited brief) s.source_ids) bundle.statements
assemble-generate-IsCited_example =
    assemble-generate-IsCited uuid_cast tables (lit "a" ∷ []) (pos 0) 7 bundle generator brief
      insertion_package-IsSort assembled_now generated_now
