-- ===== src/Examples/Extraction.antt =====
-- Runs of the extraction worker, and the resolver.
use factvault.Common.{refl, true, false, none, some, [], ◌∷◌, lit, pos, ok}
use factvault.Db.{Source, Vault, archived}
use factvault.Strings.{ascii}
use factvault.Vocabulary.{mode_strict, resolve, new_resolver, slug_runes}
use factvault.Vocabulary.Resolved.{IsResolved, resolve-IsResolved}
use factvault.Vocabulary.Slug.{IsSlug, slug_runes-IsSlug}
use factvault.Extractors.{ExtractedFact}
use factvault.Rows.{Env}
use factvault.Extract.{FactPipeline, extract_once}
use factvault.Extract.Provenance.{HasProvenance, extract_once-HasProvenance}
use factvault.Extract.Links.{HasSingleLinks, extract_once-HasSingleLinks}

abbrev page : Source
page = record {
  id = 1;
  tenant_id = 7;
  url = lit "https://example.com";
  content_hash = lit "h";
  raw_html = none;
  raw_text = some (lit "DOI 10.1000/x");
  archive_url = none;
  publisher = none;
  title = some (lit "Page");
  last_verified_at = none;
  status = archived;
}

abbrev vault : Vault
vault = record {
  sources = page ∷ [];
  entities = [];
  properties = [];
  proposed = [];
  statements = [];
  statement_sources = [];
  uuids = 0;
}

abbrev env : Env
env = record {
  unicode = ascii;
  sha256 = λ t. t;
  new_uuid = λ n. n;
  cast_number = λ t. some t;
  cast_date = λ t. some t;
  cast_uuid = λ t. some 7;
}

abbrev doi_fact : ExtractedFact
doi_fact = record {
  subject_text = lit "Page";
  property_slug = lit "doi";
  value = lit "10.1000/x";
  value_type = lit "string";
  excerpt = lit "DOI 10.1000/x";
  excerpt_offset_start = pos 0;
  excerpt_offset_end = pos 13;
  extraction_method = lit "regex:identifiers-v1";
  source_confidence = none;
}

abbrev pipeline : FactPipeline
pipeline = record {
  has_pool = true;
  deterministic = λ source raw_text. ok (doi_fact ∷ []);
  llm = none;
  llm_provider = [];
  cost_guardrail_threshold = pos 0;
  confirmed = false;
  vocabulary_mode = [];
}

extract_once-HasProvenance_example :
    HasProvenance (extract_once env pipeline (lit "t") (pos 10) vault).0
extract_once-HasProvenance_example =
    extract_once-HasProvenance env pipeline (lit "t") (pos 10) vault (record { links = tt })

extract_once-HasSingleLinks_example :
    HasSingleLinks env (extract_once env pipeline (lit "t") (pos 10) vault).0
extract_once-HasSingleLinks_example =
    extract_once-HasSingleLinks env (λ i j e. e) pipeline (lit "t") (pos 10) vault
      (record { statements_drawn = tt; links_drawn = tt; single = tt })

resolve-IsResolved_example :
    IsResolved ascii
      (new_resolver ascii mode_strict)
      (lit "Founder name")
      (lit "string")
      (lit "x")
      (resolve ascii (new_resolver ascii mode_strict) (lit "Founder name") (lit "string") (lit "x"))
resolve-IsResolved_example =
    resolve-IsResolved ascii (record { no_letter = refl; no_digit = refl })
      (new_resolver ascii mode_strict) (lit "Founder name") (lit "string") (lit "x")

slug_runes-IsSlug_example : IsSlug ascii (slug_runes ascii (lit "--raised  usd!"))
slug_runes-IsSlug_example =
    slug_runes-IsSlug ascii (record { no_letter = refl; no_digit = refl }) (lit "--raised  usd!")
